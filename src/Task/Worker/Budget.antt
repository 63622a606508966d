-- ===== src/Task/Worker/Budget.antt =====
-- The attempts of a run: none before it starts, at least one when it is to be retried, and all of
-- `max_attempts` used up when it has failed.
use go_chatgpt_tasks.Base.{ℕ, ◌≤◌, ◌≡◌, inl, inr, Bool, All, arith}
use go_chatgpt_tasks.Base.Int.{ℤ}
use go_chatgpt_tasks.Clock.{time_to_pg}
use go_chatgpt_tasks.Task.Domain.{Status, pending, queued, running, retry, failed, JobRun}
use go_chatgpt_tasks.Task.Transitions.{
  mark_running, mark_success, mark_retry, mark_failed, set_error,
}
use go_chatgpt_tasks.Task.Rows.{
  JobRunRow, job_run_to_insert_params, job_run_to_update_status_params, job_run_from_row,
}
use go_chatgpt_tasks.Sql.Tables.{Tables}
use go_chatgpt_tasks.Sql.Tables.Laws.{All-append, All-update_where, All-find_where}
use go_chatgpt_tasks.Sql.Runs.Laws.{insert_job_run-some, try_mark_cases}
use go_chatgpt_tasks.Sql.Runs.{
  update_job_run_status, get_job_run_by_id, has_id, apply_status, startable_id, mark_row,
}
use go_chatgpt_tasks.Task.Effect.{World}
use go_chatgpt_tasks.Task.Repo.Keeps.{Inserts, Updates, Claims, Reads}
use go_chatgpt_tasks.Task.Worker.{Worker, QueuedMessage, process}
use go_chatgpt_tasks.Task.Worker.Invariants.{Laws, process-Keeps, LeavesRuns, LeavesRuns-Keeps}

-- The fewest and the most failed attempts that a run of a status has behind it.
abbrev pub fewest : Status → ℕ
fewest retry = 1
fewest failed = 2
fewest _ = 0

abbrev pub most : Status → ℕ
most pending = 0
most queued = 0
most _ = 2

abbrev pub InBudget : Status → ℕ → Type 0
InBudget s n = (fewest s ≤ n) × (n ≤ most s)

abbrev pub RowInBudget : JobRunRow → Type 0
RowInBudget r = InBudget r.status r.attempts

abbrev pub RunsInBudget : Tables → Type 0
RunsInBudget t = All RowInBudget t.job_runs

pub most-le : (s : Status) → most s ≤ 2
most-le pending = omega arith
most-le _ = omega arith

Inserts-RunsInBudget : (r : JobRun) → r.status ≡ queued → r.attempts ≡ 0 → Inserts RunsInBudget r
unfolding job_run_to_insert_params
Inserts-RunsInBudget r s a t runs e h =
    let (added, _, _) = insert_job_run-some t.jobs (job_run_to_insert_params r) t.job_runs runs e in
    rw added (All-append RowInBudget t.job_runs _ h (ground arith, tt))

pub Updates-RunsInBudget : (r : JobRun) → InBudget r.status r.attempts → Updates RunsInBudget r
unfolding update_job_run_status job_run_to_update_status_params
Updates-RunsInBudget r b t h =
    let p = job_run_to_update_status_params r in
    All-update_where RowInBudget (has_id p.id) (apply_status p) t.job_runs
      (λ x e g. omega (arith, most-le r.status)) h

Claims-RunsInBudget : (r : JobRun) (limit : ℤ) → Claims RunsInBudget r limit
Claims-RunsInBudget r limit t h =
    elim (try_mark_cases r.tenant_id (time_to_pg r.started_at) (time_to_pg r.updated_at) r.id limit
      t.job_runs t.job_runs) [
        | inl same ↦ rw same h
        | inr (_, claimed) ↦ rw claimed (
            All-update_where RowInBudget (startable_id r.id)
              (mark_row (time_to_pg r.started_at) (time_to_pg r.updated_at)) t.job_runs
              (λ x e g. omega (arith, most-le x.status)) h)
      ]

reads-RunsInBudget : Reads RunsInBudget (λ r. InBudget r.status r.attempts)
unfolding get_job_run_by_id job_run_from_row
reads-RunsInBudget t id row h e = All-find_where RowInBudget _ t.job_runs row e h

module _ (k : Worker) where
  laws : LeavesRuns k → Laws k RunsInBudget
  unfolding mark_running mark_success mark_retry mark_failed set_error
  laws leaves = record {
    Held = λ r. InBudget r.status r.attempts;
    Active = λ r. InBudget r.status r.attempts × (r.status ≡ running);
    Writable = λ r. InBudget r.status r.attempts;
    Fits = λ _ _. Unit;
    free = λ t es h. h;
    inserts = Inserts-RunsInBudget;
    updates = Updates-RunsInBudget;
    claims = λ r limit a f. Claims-RunsInBudget r limit;
    limits = λ t tenant defaults e h. tt;
    begins = λ now r s h e. ground (arith, most-le r.status);
    resumes = λ r h e. (h, e);
    unlimited = λ r e a. a.0;
    succeeds = λ now r s a e. ground arith;
    fails = λ now code msg r s a e f. ground arith;
    retries = λ now code msg r s a e f. ground arith;
    executes = λ r a. LeavesRuns-Keeps k (λ runs _. All RowInBudget runs) leaves r;
  }

  -- Whatever message is processed, and whatever calls of the database or of the queue fail: if
  -- the executor writes no runs and no quotas, it stays true of every run that a pending or queued
  -- one has no failed attempts, one to be retried one or two, a failed one exactly two, and none
  -- more than two.
  pub process-RunsInBudget :
      LeavesRuns k
      → (qm : QueuedMessage) (reclaimed : Bool) (w : World) → RunsInBudget w.tables
      → RunsInBudget (process k qm reclaimed w).1.tables
  unfolding laws
  process-RunsInBudget leaves qm reclaimed w h =
      ((process-Keeps k RunsInBudget (laws leaves) reads-RunsInBudget qm reclaimed).apply w h).0
