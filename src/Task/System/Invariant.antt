-- ===== src/Task/System/Invariant.antt =====
-- The bounds on the failed attempts of every run, kept by the whole program.
use go_chatgpt_tasks.Base.{ℕ, inl, inr, List, [], ◌∷◌, All, Option, Text, arith}
use go_chatgpt_tasks.Clock.{time_to_pg}
use go_chatgpt_tasks.Task.Domain.{Uuid, JobRun}
use go_chatgpt_tasks.Task.Rows.{JobRunRow, job_run_to_insert_params}
use go_chatgpt_tasks.Sql.Tables.{Tables}
use go_chatgpt_tasks.Sql.Tables.Laws.{All-append, All-update_where}
use go_chatgpt_tasks.Sql.Runs.{cancel_pending_job_runs, to_cancel, cancel_row}
use go_chatgpt_tasks.Task.Effect.{World, Result, ok, err}
use go_chatgpt_tasks.Task.Effect.Keeps.{
  Any, Any-On, Keeps, keeps_pure, keeps_bind, keeps_context, keeps_now, keeps_statement,
}
use go_chatgpt_tasks.Task.Effect.Atomic.{AllOrNothing}
use go_chatgpt_tasks.Task.Repo.{cancel_pending_runs_by_job}
use go_chatgpt_tasks.Task.Worker.Invariants.{LeavesRuns}
use go_chatgpt_tasks.Task.Worker.Budget.{RunsInBudget, RowInBudget, most-le, process-RunsInBudget}
use go_chatgpt_tasks.Task.Watcher.Invariants.{scan_once-RunsInBudget}
use go_chatgpt_tasks.Task.Recurrence.Location.{Zone}
use go_chatgpt_tasks.Task.RecurringWatcher.{scan_recurring}
use go_chatgpt_tasks.Task.RecurringWatcher.Grows.{Follows, scan_recurring-Grown}
use go_chatgpt_tasks.Task.Service.{Identity, Service}
use go_chatgpt_tasks.Task.Service.Create.Atomic.{Creation, create-AllOrNothing}
use go_chatgpt_tasks.Task.Service.Create.{CreateInput, create}
use go_chatgpt_tasks.Users.Domain.{User}
use go_chatgpt_tasks.Users.Writes.{OnSaving}
use go_chatgpt_tasks.Task.System.Cancels.{cancel_job-Keeps}
use go_chatgpt_tasks.Task.System.Preserved.{Preserved, steps-Kept}
use go_chatgpt_tasks.Task.System.{Config, Steps}

Follows-RowInBudget :
    (t : Tables) (rows : List JobRunRow) → All (Follows t) rows → All RowInBudget rows
Follows-RowInBudget t [] h = tt
Follows-RowInBudget t (r ∷ rows) h =
    (rw (h.0.1.0, h.0.1.1.0) (omega arith, omega arith), Follows-RowInBudget t rows h.1)

recurring-RunsInBudget :
    (load_location : Text → Option Zone) (w : World)
    → RunsInBudget w.tables
    → RunsInBudget (scan_recurring load_location w).1.tables
recurring-RunsInBudget load_location w h =
    let (added, (grown, follow)) = scan_recurring-Grown load_location w in
    rw grown
      (All-append RowInBudget w.tables.job_runs added h (Follows-RowInBudget w.tables added follow))

cancel_pending-Keeps :
    (tenant job_id : Uuid) → Keeps RunsInBudget (cancel_pending_runs_by_job tenant job_id) Any
unfolding cancel_pending_runs_by_job cancel_pending_job_runs
cancel_pending-Keeps tenant job_id = keeps_bind _ _ _ (keeps_now _) λ now _.
    keeps_bind _ {Q = Any} _ _
      (keeps_context _ _ _ (
        keeps_statement _ _ λ t h. (
          All-update_where RowInBudget (to_cancel tenant job_id)
              (cancel_row (time_to_pg now) (time_to_pg now)) t.job_runs
              (λ x e g. omega (arith, most-le x.status, g)) h,
          tt,
        )))
      λ rows _. keeps_pure _ _ tt

create-RunsInBudget :
    (load_location : Text → Option Zone) (s : Service) (user : Identity) (x : CreateInput)
    (w : World)
    → RunsInBudget w.tables
    → RunsInBudget (create load_location s user x w).1.tables
unfolding job_run_to_insert_params
create-RunsInBudget load_location s user x w h =
    go (create load_location s user x w) (create-AllOrNothing load_location s user x w)
  where
    added : (t : Tables) → Creation load_location user w.tables t → RunsInBudget t
    added t c = rw c.stored (
        All-append RowInBudget w.tables.job_runs (job_run_to_insert_params c.run ∷ []) h
          (rw (c.waiting.0, c.unstarted) (omega arith, omega arith), tt))

    go :
        (y : Result JobRun × World)
        → AllOrNothing w.tables (Creation load_location user w.tables) y
        → RunsInBudget y.1.tables
    go (ok r, v) a = added v.tables a
    go (err e, v) (inl same) = rw same h
    go (err e, v) (inr c) = added v.tables c

saves-RunsInBudget : (lower : ℕ → ℕ) (u : User) (t : Tables) → OnSaving lower RunsInBudget u t
saves-RunsInBudget lower u t valid h = (h, tt)

RunsInBudget-Preserved : (g : Config) → LeavesRuns g.worker → Preserved g RunsInBudget
RunsInBudget-Preserved g leaves = record {
  messages = process-RunsInBudget g.worker leaves;
  scans = scan_once-RunsInBudget;
  recurring_scans = recurring-RunsInBudget g.load_location;
  creates = λ load_location user x. record {
    apply = λ w h. (create-RunsInBudget load_location g.handler.svc user x w h, Any-On _);
  };
  cancels = cancel_job-Keeps RunsInBudget (λ t es h. h) cancel_pending-Keeps;
  saves = saves-RunsInBudget g.users.lower;
}

-- Whatever the program does, in whatever order and whatever calls fail, from tables in which a
-- pending or queued run has no failed attempts, one to be retried one or two, a failed one exactly
-- two and none more than two, it comes to such tables, if the executor writes no runs and no quotas.
pub steps-RunsInBudget :
    (g : Config) (v w : World)
    → LeavesRuns g.worker
    → Steps g v w
    → RunsInBudget v.tables
    → RunsInBudget w.tables
steps-RunsInBudget g v w leaves = steps-Kept g RunsInBudget (RunsInBudget-Preserved g leaves) v w
