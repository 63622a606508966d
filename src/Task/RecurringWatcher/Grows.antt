-- ===== src/Task/RecurringWatcher/Grows.antt =====
-- internal/task/recurring_watcher.go: the runs that a scan writes.
use go_chatgpt_tasks.Base.{
  ℕ, ◌+◌, ◌≡◌, refl, sym, ap, ◌∙◌, inl, inr, ◌⊎◌, Bool, true, false, not, ◌||◌, ◌==◌, List, [], ◌∷◌,
  ◌++◌, append_assoc, append-nil, All, Option, none, some, Text, Bool-cases, arith,
}
use go_chatgpt_tasks.Clock.{Time, time_to_pg}
use go_chatgpt_tasks.Task.Domain.{Uuid, pending, JobRun}
use go_chatgpt_tasks.Task.Transitions.{Outcome, new_job_run}
use go_chatgpt_tasks.Task.Rows.{JobRow, JobRunRow, int32, job_run_to_insert_params}
use go_chatgpt_tasks.Sql.Tables.{Tables, exists_where}
use go_chatgpt_tasks.Sql.Tables.Laws.{All-append}
use go_chatgpt_tasks.Sql.Runs.{has_id, fresh_row, same_sequence, insert_job_run_if_absent}
use go_chatgpt_tasks.Task.Effect.{World, Result, ok, err, M, ◌>>=◌, after, time_now}
use go_chatgpt_tasks.Task.Effect.Keeps.{
  Any, On, OnStatement, Keeps, keeps_pure, keeps_fail, keeps_bind, keeps_then, keeps_context,
  keeps_lift, keeps_now, keeps_id, keeps_quietly, keeps_query, keeps_statement,
}
use go_chatgpt_tasks.Task.Repo.Keeps.{EventsFree}
use go_chatgpt_tasks.Task.Repo.{with_counted, insert_run_if_absent}
use go_chatgpt_tasks.Task.Worker.Calls.{run_key-Keeps, append_event_of-Keeps}
use go_chatgpt_tasks.Task.Recurrence.Location.{Zone}
use go_chatgpt_tasks.Task.Recurrence.{DstNote}
use go_chatgpt_tasks.Task.RecurringWatcher.{
  NextRunSpec, find_terminal_recurring_runs, note_event, created_run, loaded, scan_spec, scan_specs,
  scan_recurring,
}
use go_chatgpt_tasks.Task.RecurringWatcher.Ended.{
  Ended, EndedRow, EndedSpec, listed-Ended, specs-Ended,
}

-- A run to come, whose predecessor has ended in the tables `t`, and whose identifier no run there has.
abbrev pub Follows : Tables → JobRunRow → Type 0
Follows t r =
    (exists_where (has_id r.id) t.job_runs ≡ false)
    × ((r.status ≡ pending)
        × ((r.attempts ≡ 0)
            × ((n : ℕ) × ((r.sequence ≡ int32 (n + 1)) × Ended t r.tenant_id r.job_id n))))

-- The runs are those of `t` with others behind them that follow ended ones.
abbrev pub Grown : Tables → Tables → Type 0
Grown t t' =
    (added : List JobRunRow) × ((t'.job_runs ≡ t.job_runs ++ added) × All (Follows t) added)

insert_if_absent_cases :
    (jobs : List JobRow) (row : JobRunRow) (runs runs' : List JobRunRow) (n : ℕ)
    → insert_job_run_if_absent jobs row runs ≡ some (n, runs')
    → (runs' ≡ runs)
      ⊎ ((added : JobRunRow) × (((runs' ≡ runs ++ added ∷ [])
              × (exists_where (has_id added.id) runs ≡ false))
            × ((added.status ≡ pending)
                × ((added.attempts ≡ 0)
                    × ((added.sequence ≡ row.sequence)
                        × ((added.tenant_id ≡ row.tenant_id) × (added.job_id ≡ row.job_id)))))))
unfolding insert_job_run_if_absent
insert_if_absent_cases jobs row runs runs' n e =
    elim (Bool-cases (exists_where (same_sequence row.job_id row.sequence) runs)) [
      | inl f ↦ inl (second (rw f at e))
      | inr f ↦
          elim (Bool-cases (
            exists_where (has_id row.id) runs
            || not (exists_where (λ (j : JobRow). j.id == row.job_id) jobs))) [
              | inl g ↦ absurd (refused (rw (f, g) at e))
              | inr g ↦ inr (
                fresh_row row,
                ((second (rw (f, g) at e), left _ _ g), (refl, (refl, (refl, (refl, refl))))),
              )
            ]
    ]
  where
    second :
        {a b : ℕ} {xs ys : List JobRunRow}
        → ◌≡◌ {A = Option (ℕ × List JobRunRow)} (some (a, xs)) (some (b, ys))
        → ys ≡ xs
    second h = cc

    left : (a b : Bool) → a || b ≡ false → a ≡ false
    left true b h = ground arith
    left false b h = refl

    refused : {x : ℕ × List JobRunRow} → ◌≡◌ {A = Option (ℕ × List JobRunRow)} none (some x) → ⊥
    refused h = cc

-- What NewJobRun makes, by its number.
new_job_run-fields :
    (key : Uuid → ℕ → Text) (id : Uuid) (now : Time) (tenant job_id : Uuid) (n : ℕ) (at : Time)
    (r : JobRun)
    → new_job_run key id now tenant job_id n at ≡ Outcome.ok r
    → (r.tenant_id ≡ tenant) × ((r.job_id ≡ job_id) × (r.sequence ≡ n))
unfolding new_job_run
new_job_run-fields key id now tenant job_id n at r e = ground arith

Ended-as :
    (t : Tables) {tenant tenant' job job' : Uuid} {n : ℕ}
    → tenant ≡ tenant'
    → job ≡ job'
    → Ended t tenant job n
    → Ended t tenant' job' n
Ended-as t p q e = rw (sym p, sym q) e

module _ (P : Tables → Type 0) where
  note-Keeps : EventsFree P → (r : JobRun) (o : Option Text) → Keeps P (note_event r o) Any
  note-Keeps free r none = keeps_pure P _ tt
  note-Keeps free r (some s) = keeps_quietly P _ (append_event_of-Keeps P free r _ _)

  pub created-Keeps :
      EventsFree P → (r : JobRun) (n : DstNote) (b : Bool) → Keeps P (created_run r n b) Any
  created-Keeps free r n true = note-Keeps free r _
  created-Keeps free r n false = keeps_pure P _ tt

exists_where-front :
    (q : JobRunRow → Bool) (xs ys : List JobRunRow)
    → exists_where q (xs ++ ys) ≡ false
    → exists_where q xs ≡ false
exists_where-front q [] ys h = refl
exists_where-front q (x ∷ xs) ys h = ground (arith, exists_where-front q xs ys)

module _ (t : Tables) (load_location : Text → Option Zone) where
  -- A run whose predecessor has ended.
  abbrev Next : JobRun → Type 0
  Next r = (n : ℕ) × ((r.sequence ≡ n + 1) × Ended t r.tenant_id r.job_id n)

  insert-OnStatement :
      (t' : Tables) (r : JobRun) (o : Option (ℕ × List JobRunRow))
      → insert_job_run_if_absent t'.jobs (job_run_to_insert_params r) t'.job_runs ≡ o
      → Next r
      → Grown t t'
      → OnStatement (Grown t) Any (with_counted t' o)
  unfolding job_run_to_insert_params
  insert-OnStatement t' r none e x g = tt
  insert-OnStatement t' r (some (n, runs)) e x (added, (grown, follow)) =
      elim (insert_if_absent_cases t'.jobs (job_run_to_insert_params r) t'.job_runs runs n e) [
        | inl same ↦ ((added, (same ∙ grown, follow)), tt)
        | inr (a, ((more, unused), (pend, (none_failed, (number, (tenant, job)))))) ↦ (
          (
            added ++ a ∷ [],
            (
              more ∙ (ap (λ rs. rs ++ a ∷ []) grown ∙ append_assoc t.job_runs added (a ∷ [])),
              All-append (Follows t) added (a ∷ []) follow (
                (
                  exists_where-front (has_id a.id) t.job_runs added (rw grown at unused),
                  (
                    pend,
                    (
                      none_failed,
                      (x.0, (number ∙ ap int32 x.1.0, Ended-as t (sym tenant) (sym job) x.1.1)),
                    ),
                  ),
                ),
                tt,
              ),
            ),
          ),
          tt,
        )
      ]

  insert-Grows : (r : JobRun) → Next r → Keeps (Grown t) (insert_run_if_absent r) Any
  unfolding insert_run_if_absent
  insert-Grows r x =
      keeps_bind (Grown t) {Q = Any} _ _
        (keeps_context (Grown t) _ _
          (keeps_statement (Grown t) _ (λ t' g. insert-OnStatement t' r _ refl x g)))
        (λ n _. keeps_pure (Grown t) _ tt)

  loaded-Grows : {A : Type 0} (o : Option A) → Keeps (Grown t) (loaded o) Any
  unfolding loaded
  loaded-Grows none = keeps_fail (Grown t) _
  loaded-Grows (some z) = keeps_pure (Grown t) _ tt

  spec-Grows : (s : NextRunSpec) → EndedSpec t s → Keeps (Grown t) (scan_spec load_location s) Any
  unfolding scan_spec
  spec-Grows s x = keeps_bind (Grown t) _ _ (keeps_lift (Grown t) _) λ rule _.
      keeps_bind (Grown t) _ _ (loaded-Grows _) λ z _.
        keeps_bind (Grown t) _ _ (keeps_lift (Grown t) _) λ found _.
          keeps_bind (Grown t) _ _ (keeps_id (Grown t)) λ id _.
            keeps_bind (Grown t) _ _ (keeps_now (Grown t)) λ now _.
              keeps_bind (Grown t) _ _ (run_key-Keeps (Grown t)) λ key _.
                keeps_bind (Grown t) _ _ (keeps_lift (Grown t) _) λ next e.
                  keeps_bind (Grown t) _ _ (insert-Grows next (made _ key id now next e))
                    λ created _. created-Keeps (Grown t) (λ t' es g. g) next _ created
    where
      made :
          (at : Time) (key : Uuid → ℕ → Text) (id : Uuid) (now : Time) (next : JobRun)
          → new_job_run key id now s.tenant_id s.job_id (s.sequence + 1) at ≡ Outcome.ok next
          → Next next
      made at key id now next e =
          let (tenant, (job, number)) = new_job_run-fields key id now _ _ _ _ next e in
          (s.sequence, (number, Ended-as t (sym tenant) (sym job) x))

  specs-Grows :
      (ss : List NextRunSpec)
      → All (EndedSpec t) ss
      → Keeps (Grown t) (scan_specs load_location ss) Any
  unfolding scan_specs
  specs-Grows [] h = keeps_pure (Grown t) tt tt
  specs-Grows (s ∷ ss) h =
      keeps_then (Grown t) _ _ (keeps_quietly (Grown t) _ (spec-Grows s h.0)) (specs-Grows ss h.1)

  -- What is known while the tables are still `t`.
  found-Ended :
      (since : Time) (limit : ℕ)
      → Keeps (λ t'. t' ≡ t) (find_terminal_recurring_runs since limit) (All (EndedSpec t))
  unfolding find_terminal_recurring_runs
  found-Ended since limit =
      keeps_bind _ {Q = All (EndedRow t)} _ _
        (keeps_context _ _ _
          (keeps_query _ _ λ t' e. rw e (listed-Ended t (time_to_pg since) limit)))
        (λ rows h. keeps_pure _ _ (specs-Ended t rows h))

-- The rows of a program that starts from the tables `t`, as long as they are still `t`.
then_Grows :
    {A : Type 0} {Q : A → Type 0} (t : Tables) (m : M A) (f : A → M (Unit {0}))
    → Keeps (λ t'. t' ≡ t) m Q
    → ((a : A) → Q a → Keeps (Grown t) (f a) Any)
    → (w : World) → w.tables ≡ t
    → Grown t ((m >>= f) w).1.tables
then_Grows {A} {Q} t m f km kf w e = go (m w) (km.apply w e)
  where
    grown : {t' : Tables} → t' ≡ t → Grown t t'
    grown e = ([], (ap (λ (x : Tables). x.job_runs) e ∙ sym (append-nil t.job_runs), tt))

    go : (x : Result A × World) → (x.1.tables ≡ t) × On Q x.0 → Grown t (after f x).1.tables
    go (ok a, w') h = ((kf a h.1).apply w' (grown h.0)).0
    go (err e, w') h = grown h.0

-- A scan, whatever calls of it fail, changes no run; the runs that it adds are pending and without
-- attempts, and each has an identifier that no run had before, and the number, the job and the tenant
-- of the run after one of a recurring job that has ended, by an event that was there before.
pub scan_recurring-Grown :
    (load_location : Text → Option Zone) (w : World)
    → Grown w.tables (scan_recurring load_location w).1.tables
unfolding scan_recurring time_now
scan_recurring-Grown load_location w =
    then_Grows w.tables _ (scan_specs load_location) (found-Ended w.tables load_location _ _)
      (specs-Grows w.tables load_location) _ refl
