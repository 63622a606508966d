-- ===== src/Task/RecurringWatcher/Ended.antt =====
-- internal/task/recurring_watcher.go: the runs for which a scan looks for a next one.
use go_chatgpt_tasks.Base.{
  ℕ, ◌+◌, ◌≡◌, refl, inl, inr, Bool, true, not, ◌&&◌, ◌==◌, List, [], ◌∷◌, map, All, Option, none,
  some, Bool-cases, select, arith,
}
use go_chatgpt_tasks.Clock.{Time}
use go_chatgpt_tasks.Task.Domain.{Uuid}
use go_chatgpt_tasks.Task.Rows.{JobRow, JobRunRow}
use go_chatgpt_tasks.Sql.Tables.{Tables, RunEventRow, find_where, exists_where}
use go_chatgpt_tasks.Sql.Tables.Laws.{All-select, All-take, All-order_by}
use go_chatgpt_tasks.Sql.Runs.{has_id, same_sequence}
use go_chatgpt_tasks.Sql.Records.{is_recurring}
use go_chatgpt_tasks.Sql.Recurring.{
  TerminalRunRow, is_ended, ended_since, joined_job, joined_run, cons_some, joined,
  list_terminal_recurring_runs,
}
use go_chatgpt_tasks.Task.RecurringWatcher.{NextRunSpec, next_run_spec_from_sqlc}

abbrev ended_event : Uuid → RunEventRow → Bool
ended_event id e = e.job_run_id == id && is_ended e.status

abbrev recurring_job : Uuid → JobRow → Bool
recurring_job id j = j.id == id && is_recurring j.kind

-- In the tables `t`, there is a run of that tenant, job and sequence number; the job is a recurring
-- one, and an event says that the run has succeeded or failed.
pub record Ended (t : Tables) (tenant job_id : Uuid) (sequence : ℕ) : Type 0 where
  pub id : Uuid
  pub run : JobRunRow
  pub found : find_where (has_id id) t.job_runs ≡ some run
  pub of_tenant : tenant ≡ run.tenant_id
  pub of_job : job_id ≡ run.job_id
  pub numbered : sequence ≡ run.sequence
  pub ended : exists_where (ended_event id) t.run_events ≡ true
  pub recurs : exists_where (recurring_job run.job_id) t.jobs ≡ true

abbrev pub EndedRow : Tables → TerminalRunRow → Type 0
EndedRow t r = Ended t r.tenant_id r.job_id r.sequence

abbrev pub EndedSpec : Tables → NextRunSpec → Type 0
EndedSpec t s = Ended t s.tenant_id s.job_id s.sequence

-- The statement.
exists_of_found :
    {A : Type 0} (p q : A → Bool) (xs : List A) (x : A)
    → find_where p xs ≡ some x
    → q x ≡ true
    → exists_where (λ y. p y && q y) xs ≡ true
exists_of_found p q [] x e f = ground arith
exists_of_found p q (y ∷ xs) x e f = ground (arith, exists_of_found p q xs x)

-- An event of a list that notes an end is one there that notes the end of its run.
abbrev NotesEnd : List RunEventRow → Uuid → Type 0
NotesEnd es id = exists_where (ended_event id) es ≡ true

abbrev IfEnded : List RunEventRow → RunEventRow → Type 0
IfEnded es e = is_ended e.status ≡ true → NotesEnd es e.job_run_id

IfEnded-cons :
    (x : RunEventRow) (es ys : List RunEventRow) → All (IfEnded es) ys → All (IfEnded (x ∷ es)) ys
IfEnded-cons x es [] h = tt
IfEnded-cons x es (y ∷ ys) h = (λ e. ground (arith, h.0 e), IfEnded-cons x es ys h.1)

IfEnded-self : (es : List RunEventRow) → All (IfEnded es) es
IfEnded-self [] = tt
IfEnded-self (x ∷ es) = (λ e. ground (arith, e), IfEnded-cons x es es (IfEnded-self es))

noted :
    (since : Time) (es : List RunEventRow)
    → All (λ (e : RunEventRow). NotesEnd es e.job_run_id) (select (ended_since since) es)
noted since es =
    All-select (IfEnded es) (λ (e : RunEventRow). NotesEnd es e.job_run_id) (ended_since since) es
      (λ e p h. h (ground (arith, p))) (IfEnded-self es)

module _ (t : Tables) where
  joined_job-Ended :
      (id : Uuid) (r : JobRunRow) (o : Option JobRow) (rows : List TerminalRunRow)
      → find_where (has_id id) t.job_runs ≡ some r
      → NotesEnd t.run_events id
      → find_where (λ (j : JobRow). j.id == r.job_id) t.jobs ≡ o
      → All (EndedRow t) rows
      → All (EndedRow t) (cons_some (joined_job t.job_runs r o) rows)
  joined_job-Ended id r none rows f n g a = a
  joined_job-Ended id r (some j) rows f n g a =
      elim (Bool-cases (
        is_recurring j.kind
        && not (exists_where (same_sequence r.job_id (r.sequence + 1)) t.job_runs))) [
          | inl h ↦ rw h (
            record {
              id = id;
              run = r;
              found = f;
              of_tenant = refl;
              of_job = refl;
              numbered = refl;
              ended = n;
              recurs =
                  exists_of_found _ (λ (x : JobRow). is_recurring x.kind) t.jobs j g
                    (ground (arith, h));
            },
            a,
          )
          | inr h ↦ rw h a
        ]

  joined_run-Ended :
      (id : Uuid) (o : Option JobRunRow) (rows : List TerminalRunRow)
      → find_where (has_id id) t.job_runs ≡ o
      → NotesEnd t.run_events id
      → All (EndedRow t) rows
      → All (EndedRow t) (cons_some (joined_run t.jobs t.job_runs o) rows)
  joined_run-Ended id none rows f n a = a
  joined_run-Ended id (some r) rows f n a = joined_job-Ended id r _ rows f n refl a

  joined-Ended :
      (es : List RunEventRow)
      → All (λ (e : RunEventRow). NotesEnd t.run_events e.job_run_id) es
      → All (EndedRow t) (joined t.jobs t.job_runs es)
  unfolding joined
  joined-Ended [] h = tt
  joined-Ended (e ∷ es) h =
      joined_run-Ended e.job_run_id _ (joined t.jobs t.job_runs es) refl h.0 (joined-Ended es h.1)

  pub listed-Ended :
      (since : Time) (limit : ℕ)
      → All (EndedRow t) (list_terminal_recurring_runs since limit t.jobs t.job_runs t.run_events)
  unfolding list_terminal_recurring_runs
  listed-Ended since limit =
      All-take (EndedRow t) limit _ (joined-Ended _ (All-order_by _ _ _ (noted since t.run_events)))

  pub specs-Ended :
      (rows : List TerminalRunRow)
      → All (EndedRow t) rows
      → All (EndedSpec t) (map next_run_spec_from_sqlc rows)
  unfolding next_run_spec_from_sqlc
  specs-Ended [] h = tt
  specs-Ended (r ∷ rows) h = (h.0, specs-Ended rows h.1)
