-- ===== src/Tests/SystemTests.antt =====
-- A history of the whole program on a concrete world.
use go_chatgpt_tasks.Base.{refl, false, arith}
use go_chatgpt_tasks.Task.Domain.{success}
use go_chatgpt_tasks.Sql.Runs.{get_job_run_by_id}
use go_chatgpt_tasks.Task.Worker.Terminal.{Stored}
use go_chatgpt_tasks.Task.System.Finished.Always.{Steps-Stored}
use go_chatgpt_tasks.Task.Effect.{World}
use go_chatgpt_tasks.Task.Worker.{process}
use go_chatgpt_tasks.Task.Worker.Budget.{RunsInBudget}
use go_chatgpt_tasks.Task.Watcher.{scan_once}
use go_chatgpt_tasks.Task.Http.{job_cancel, serve}
use go_chatgpt_tasks.Task.System.{Config, Steps, message, tick, request, rest, then_step}
use go_chatgpt_tasks.Task.System.Invariant.{steps-RunsInBudget}
use go_chatgpt_tasks.Tests.Sample.{message_for, run_row}
use go_chatgpt_tasks.Tests.WorkerTests.{
  failing, failing-LeavesRuns, start_world, start_RunsInBudget,
}
use go_chatgpt_tasks.Tests.RecurrenceTests.{only_utc}
use go_chatgpt_tasks.Tests.HttpTests.{handler, signed}
use go_chatgpt_tasks.Tests.UsersTests.{users_service}
use go_chatgpt_tasks.Tests.McpTests.{bare}
use go_chatgpt_tasks.Tests.ServiceTests.{owner}

-- A message is processed, the watcher scans, and the user cancels the job.
abbrev processed : World
processed = (process failing (message_for 11) false start_world).1

abbrev scanned : World
scanned = (scan_once processed).1

abbrev cancelled_world : World
cancelled_world = (serve handler job_cancel signed scanned).1

abbrev pub config : Config
config = record {
  worker = failing;
  handler = handler;
  users = users_service;
  load_location = only_utc;
  codec = bare;
  ident = owner;
}

history : Steps config start_world cancelled_world
history =
    then_step start_world scanned cancelled_world
      (then_step start_world processed scanned
        (then_step start_world start_world processed (rest start_world)
          (message (message_for 11) false start_world))
        (tick processed))
      (request job_cancel signed scanned)

steps-RunsInBudget_example : RunsInBudget cancelled_world.tables
steps-RunsInBudget_example =
    steps-RunsInBudget config start_world cancelled_world failing-LeavesRuns history
      start_RunsInBudget

Steps-Stored_example : Stored 12 (run_row 12 success 1) cancelled_world.tables
unfolding get_job_run_by_id
Steps-Stored_example =
    Steps-Stored 12 (run_row 12 success 1) config start_world cancelled_world failing-LeavesRuns
      refl history refl (ground arith)
