-- ===== src/Tests/WorkerTests.antt =====
-- The worker on concrete messages.
use go_chatgpt_tasks.Base.{Text, ℕ, refl, true, false, List, [], ◌∷◌, some, codes, arith, map}
use go_chatgpt_tasks.Task.Errors.{foreign}
use go_chatgpt_tasks.Task.Domain.{Status, queued, success}
use go_chatgpt_tasks.Task.Rows.{JobRunRow}
use go_chatgpt_tasks.Task.Effect.{World, fail}
use go_chatgpt_tasks.Task.Worker.{Worker, process}
use go_chatgpt_tasks.Task.Worker.Budget.{RunsInBudget, process-RunsInBudget}
use go_chatgpt_tasks.Task.Worker.Concurrency.{Within, process-running_le}
use go_chatgpt_tasks.Task.Worker.Invariants.{LeavesRuns}
use go_chatgpt_tasks.Task.Executor.{execute}
use go_chatgpt_tasks.Task.Executor.Leaves.{execute-LeavesRuns}
use go_chatgpt_tasks.Tests.Sample.{run_row, world_of, all_done, message_for, two_at_once}

abbrev pub failing : Worker
failing = record {
  quota = some two_at_once;
  exec = λ r. fail (foreign (codes "boom"));
  metered = true;
}

abbrev pub start_world : World
start_world = world_of all_done (run_row 11 queued 0 ∷ run_row 12 success 1 ∷ [])

pub failing-LeavesRuns : LeavesRuns failing
failing-LeavesRuns r w = (refl, refl)

pub start_RunsInBudget : RunsInBudget start_world.tables
start_RunsInBudget = omega arith

process-RunsInBudget_example :
    RunsInBudget (process failing (message_for 11) false start_world).1.tables
process-RunsInBudget_example =
    process-RunsInBudget failing failing-LeavesRuns (message_for 11) false start_world
      start_RunsInBudget

process-running_le_example :
    let t = (process failing (message_for 11) false start_world).1.tables in
    Within 7 2 t.job_runs t.tenant_quotas
process-running_le_example =
    process-running_le failing two_at_once 7 2 refl (omega arith) failing-LeavesRuns
      (message_for 11) false start_world ((refl, (refl, tt)), omega arith, tt)

abbrev statuses : List JobRunRow → List (Status × ℕ)
statuses = map (λ (r : JobRunRow). (r.status, r.attempts))

-- A run that fails for the first time is put back.
after_failure : List (Status × ℕ)
after_failure = statuses (process failing (message_for 11) false start_world).1.tables.job_runs

abbrev same_text : Text → Text
same_text s = s

execute-LeavesRuns_example : LeavesRuns (record failing { exec = execute same_text failing.exec })
execute-LeavesRuns_example = execute-LeavesRuns same_text failing failing-LeavesRuns
