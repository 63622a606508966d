-- ===== src/Task/Executor/Leaves.antt =====
-- internal/task/executor.go: the tables that IdempotentExecutor writes.
use go_chatgpt_tasks.Base.{
  ℕ, zero, suc, ◌≡◌, refl, inl, inr, Bool, true, false, List, Text, Bool-cases,
}
use go_chatgpt_tasks.Task.Domain.{Job, JobRun}
use go_chatgpt_tasks.Task.Rows.{JobRunRow}
use go_chatgpt_tasks.Sql.Tables.{Tables, QuotaRow}
use go_chatgpt_tasks.Task.Effect.{M}
use go_chatgpt_tasks.Task.Effect.Keeps.{
  Any, Keeps, keeps_pure, keeps_fail, keeps_bind, keeps_then, keeps_context, keeps_quietly,
  keeps_now, keeps_query, keeps_statement,
}
use go_chatgpt_tasks.Task.Repo.Keeps.{find_job-Keeps}
use go_chatgpt_tasks.Task.Idempotency.{lookup, begin_record, complete_record, completed_rows}
use go_chatgpt_tasks.Task.Worker.{Worker}
use go_chatgpt_tasks.Task.Worker.Calls.{append_event_of-Keeps}
use go_chatgpt_tasks.Task.Worker.Invariants.{LeavesRuns, LeavesRuns-Keeps}
use go_chatgpt_tasks.Task.Executor.{
  found_completed, duplicate, execute_acquired, execute_job, execute,
}

module _ (P : List JobRunRow → List QuotaRow → Type 0) where
  abbrev OfRuns : Tables → Type 0
  OfRuns t = P t.job_runs t.tenant_quotas

  begin-Keeps : (key handler : Text) (id : ℕ) → Keeps OfRuns (begin_record key handler id) Any
  unfolding begin_record
  begin-Keeps key handler id = keeps_bind OfRuns _ _ (keeps_now OfRuns) λ now _.
      keeps_bind OfRuns {Q = Any} _ _
        (keeps_context OfRuns _ _ (keeps_statement OfRuns _ (λ t h. (h, tt))))
        λ n _. keeps_pure OfRuns _ tt

  rows-Keeps : (n : ℕ) → Keeps OfRuns (completed_rows n) Any
  rows-Keeps zero = keeps_fail OfRuns _
  rows-Keeps (suc n) = keeps_pure OfRuns _ tt

  complete-Keeps : (key hash : Text) → Keeps OfRuns (complete_record key hash) Any
  unfolding complete_record
  complete-Keeps key hash = keeps_bind OfRuns _ _ (keeps_now OfRuns) λ now _.
      keeps_bind OfRuns {Q = Any} _ _
        (keeps_context OfRuns _ _ (keeps_statement OfRuns _ (λ t h. (h, tt)))) λ n _. rows-Keeps n

  duplicate-Keeps : (r : JobRun) → Keeps OfRuns (duplicate r) Any
  unfolding duplicate lookup
  duplicate-Keeps r =
      keeps_bind OfRuns {Q = Any} _ _ (keeps_context OfRuns _ _ (keeps_query OfRuns _ (λ t h. tt)))
        λ found _. elim (Bool-cases (found_completed found)) [
          | inl e ↦ rw e (keeps_quietly OfRuns _ (append_event_of-Keeps OfRuns (λ t es h. h) r _ _))
          | inr e ↦ rw e (keeps_fail OfRuns _)
        ]

  module _ (response_hash : Text → Text) (next : JobRun → M (Unit {0}))
      (next-Keeps : (r : JobRun) → Keeps OfRuns (next r) Any) where
    acquired-Keeps :
        (r : JobRun) (b : Bool) → Keeps OfRuns (execute_acquired response_hash next r b) Any
    unfolding execute_acquired
    acquired-Keeps r true = keeps_then OfRuns _ _ (next-Keeps r) (complete-Keeps _ _)
    acquired-Keeps r false = duplicate-Keeps r

    job-Keeps : (r : JobRun) (j : Job) → Keeps OfRuns (execute_job response_hash next r j) Any
    unfolding execute_job
    job-Keeps r j = elim (Bool-cases j.side_effecting) [
      | inl e ↦ rw e (keeps_bind OfRuns _ _ (begin-Keeps _ _ _) (λ b _. acquired-Keeps r b))
      | inr e ↦ rw e (next-Keeps r)
    ]

    execute-Keeps : (r : JobRun) → Keeps OfRuns (execute response_hash next r) Any
    unfolding execute
    execute-Keeps r =
        keeps_bind OfRuns _ _ (keeps_context OfRuns _ _ (find_job-Keeps OfRuns _))
          (λ j _. job-Keeps r j)

-- A worker whose executor writes no runs and no quotas may be given the idempotent one round it:
-- that writes none either, whatever calls fail.
pub execute-LeavesRuns :
    (response_hash : Text → Text) (k : Worker)
    → LeavesRuns k
    → LeavesRuns (record k { exec = execute response_hash k.exec })
execute-LeavesRuns response_hash k leaves r w =
    ((execute-Keeps (λ runs quotas. (runs ≡ w.tables.job_runs) × (quotas ≡ w.tables.tenant_quotas))
        response_hash k.exec (LeavesRuns-Keeps k _ leaves) r).apply
      w (refl, refl)).0
