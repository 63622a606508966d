-- ===== src/Task/RecurringWatcher/Creates.antt =====
-- internal/task/recurring_watcher.go: that the next run comes.
use go_chatgpt_tasks.Base.{
  ℕ, suc, ◌+◌, ◌^◌, ◌<◌, ◌≡◌, refl, subst, inl, inr, Bool, true, false, ◌||◌, ◌==◌, List, [], ◌∷◌,
  ◌++◌, Option, some, Text, Bool-cases, arith,
}
use go_chatgpt_tasks.Clock.{Time, is_zero_time}
use go_chatgpt_tasks.Task.Domain.{Uuid, JobRun}
use go_chatgpt_tasks.Task.Transitions.{Outcome, new_job_run, is_nil}
use go_chatgpt_tasks.Task.Rows.{JobRow, JobRunRow, int32, job_run_to_insert_params}
use go_chatgpt_tasks.Sql.Tables.{Tables, exists_where}
use go_chatgpt_tasks.Sql.Runs.{has_id, fresh_row, same_sequence, insert_job_run_if_absent}
use go_chatgpt_tasks.Task.Keys.{run_key, key_text}
use go_chatgpt_tasks.Task.Effect.{
  World, done, Result, ok, err, after, lift, new_id, time_now, statement, tock,
}
use go_chatgpt_tasks.Task.Repo.{positive, insert_run_if_absent}
use go_chatgpt_tasks.Task.Recurrence.Location.{Zone}
use go_chatgpt_tasks.Task.Recurrence.{Rule, DstNote, parse_rule, next_occurrence}
use go_chatgpt_tasks.Task.RecurringWatcher.{NextRunSpec, created_run, loaded, scan_spec}
use go_chatgpt_tasks.Task.RecurringWatcher.Grows.{created-Keeps}

-- A run of the job and the number is in the table.
abbrev Numbered : Uuid → ℕ → Tables → Type 0
Numbered job_id n t = exists_where (same_sequence job_id n) t.job_runs ≡ true

exists-appended :
    (p : JobRunRow → Bool) (rows : List JobRunRow) (row : JobRunRow)
    → p row ≡ true
    → exists_where p (rows ++ row ∷ []) ≡ true
exists-appended p [] row e = rw e refl
exists-appended p (x ∷ rows) row e = ground (arith, exists-appended p rows row)

-- The statement of InsertRunIfAbsent is not refused, and leaves the number in the table.
insert-answers :
    (jobs : List JobRow) (row : JobRunRow) (runs : List JobRunRow)
    → exists_where (has_id row.id) runs ≡ false
    → exists_where (λ (j : JobRow). j.id == row.job_id) jobs ≡ true
    → (n : ℕ) × ((runs' : List JobRunRow) × ((insert_job_run_if_absent jobs row runs
            ≡ some (n, runs'))
          × (exists_where (same_sequence row.job_id row.sequence) runs' ≡ true)))
unfolding insert_job_run_if_absent
insert-answers jobs row runs fresh known =
    elim (Bool-cases (exists_where (same_sequence row.job_id row.sequence) runs)) [
      | inl e ↦ (0, (runs, (rw e refl, e)))
      | inr e ↦ (
        1,
        (
          runs ++ fresh_row row ∷ [],
          (rw (e, fresh, known) refl, exists-appended _ runs (fresh_row row) (ground arith)),
        ),
      )
    ]

-- A new run with that number, unless there is one.
insert-Numbered :
    (r : JobRun) (w : World)
    → r.sequence < 2 ^ 32
    → ((n : ℕ) → w.env.reply n ≡ done)
    → exists_where (has_id r.id) w.tables.job_runs ≡ false
    → exists_where (λ (j : JobRow). j.id == r.job_id) w.tables.jobs ≡ true
    → (b : Bool) × (((insert_run_if_absent r w).0 ≡ ok b)
        × Numbered r.job_id r.sequence (insert_run_if_absent r w).1.tables)
unfolding insert_run_if_absent statement job_run_to_insert_params
insert-Numbered r w small replies fresh known =
    let (n, (runs, (answers, there))) =
      insert-answers w.tables.jobs (job_run_to_insert_params r) w.tables.job_runs fresh known in
    (
      positive n,
      (
        rw (replies w.tick, answers) refl,
        rw (replies w.tick, answers)
            (subst (λ k. exists_where (same_sequence r.job_id k) runs ≡ true)
              (int32_small r.sequence small) there),
      ),
    )
  where
    int32_small : (n : ℕ) → n < 2 ^ 32 → int32 n ≡ n
    int32_small n lt = omega (arith, lt)

new_job_run-ok :
    (key : Uuid → ℕ → Text) (id : Uuid) (now : Time) (tenant job_id : Uuid) (n : ℕ) (t : Time)
    → (is_nil tenant || is_nil job_id || is_zero_time t) ≡ false
    → (r : JobRun) × ((new_job_run key id now tenant job_id (n + 1) t ≡ Outcome.ok r)
        × ((r.id ≡ id) × ((r.job_id ≡ job_id) × (r.sequence ≡ n + 1))))
unfolding new_job_run
new_job_run-ok key id now tenant job_id n t valid =
    go (new_job_run key id now tenant job_id (n + 1) t) refl
  where
    go :
        (o : Outcome JobRun)
        → new_job_run key id now tenant job_id (n + 1) t ≡ o
        → (r : JobRun) × ((new_job_run key id now tenant job_id (n + 1) t ≡ Outcome.ok r)
            × ((r.id ≡ id) × ((r.job_id ≡ job_id) × (r.sequence ≡ n + 1))))
    go (Outcome.ok r) e = (r, (e, (ground (arith, e), (ground (arith, e), ground (arith, e)))))
    go (Outcome.err x) e = absurd (ground (arith, e))

-- The same for a run whose fields are known.
named-Numbered :
    (r : JobRun) (w : World) (id job_id : Uuid) (n : ℕ)
    → r.id ≡ id
    → r.job_id ≡ job_id
    → r.sequence ≡ n
    → n < 2 ^ 32
    → ((n : ℕ) → w.env.reply n ≡ done)
    → exists_where (has_id id) w.tables.job_runs ≡ false
    → exists_where (λ (j : JobRow). j.id == job_id) w.tables.jobs ≡ true
    → Numbered job_id n (insert_run_if_absent r w).1.tables
named-Numbered r w id job_id n p q s small replies fresh known =
    subst (λ k. Numbered k n (insert_run_if_absent r w).1.tables) q
      (subst (λ k. Numbered r.job_id k (insert_run_if_absent r w).1.tables) s
        (insert-Numbered r w (rw s small) replies (rw p fresh) (rw q known)).1.1)

-- What follows the insertion leaves the number in the table.
created-Numbered :
    (r : JobRun) (note : DstNote) (x : Result Bool × World) (job_id : Uuid) (n : ℕ)
    → Numbered job_id n x.1.tables
    → Numbered job_id n (after (created_run r note) x).1.tables
created-Numbered r note (ok b, w) job_id n h =
    ((created-Keeps (Numbered job_id n) (λ t es g. g) r note b).apply w h).0
created-Numbered r note (err e, w) job_id n h = h

-- If the rule, the time zone and the next time can be read, the tenant, the job and that time are not
-- zero, the next number is below 2 ^ 32, the database answers every call, the new identifier is not
-- taken and the job is in its table, then after a round for a run there is one of its job with the
-- next number, whether it was there before or not.
pub scan_spec-Numbered :
    (load_location : Text → Option Zone) (s : NextRunSpec) (w : World) (rule : Rule) (z : Zone)
    (t : Time) (note : DstNote)
    → parse_rule s.recurrence_rule ≡ Outcome.ok rule
    → load_location s.timezone_id ≡ some z
    → next_occurrence rule s.local_time (some z) s.scheduled_at ≡ Outcome.ok (t, note)
    → (is_nil s.tenant_id || is_nil s.job_id || is_zero_time t) ≡ false
    → s.sequence + 1 < 2 ^ 32
    → ((n : ℕ) → w.env.reply n ≡ done)
    → exists_where (has_id (w.env.new_uuid w.tick)) w.tables.job_runs ≡ false
    → exists_where (λ (j : JobRow). j.id == s.job_id) w.tables.jobs ≡ true
    → exists_where
        (same_sequence s.job_id (s.sequence + 1))
        (scan_spec load_location s w).1.tables.job_runs
      ≡ true
unfolding scan_spec lift loaded new_id time_now run_key new_job_run
scan_spec-Numbered load_location s w rule z t note p l o valid small replies fresh known =
    let (r, (made, (id, (job, number)))) =
      new_job_run-ok (key_text w.env.uuid_string) (w.env.new_uuid w.tick) (w.env.clock (suc w.tick))
        s.tenant_id s.job_id s.sequence t valid in
    rw (p, l, o, made)
      (created-Numbered r note (insert_run_if_absent r (tock (tock w))) s.job_id (s.sequence + 1) (
        named-Numbered r (tock (tock w)) _ s.job_id (s.sequence + 1) id job number small replies
          fresh known))
