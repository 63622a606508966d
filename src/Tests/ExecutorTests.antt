-- ===== src/Tests/ExecutorTests.antt =====
-- Executions, reservations and rows on concrete inputs.
use go_chatgpt_tasks.Base.{◌≡◌, refl, [], ◌∷◌, none, some, Text, true, codes, arith}
use go_chatgpt_tasks.Base.Int.{pos}
use go_chatgpt_tasks.Task.Errors.{foreign, sentinel, execution_in_progress}
use go_chatgpt_tasks.Task.Domain.{Kind, JobRun, running}
use go_chatgpt_tasks.Task.Rows.{
  JobRow, job_from_sqlc, job_to_insert_params, job_run_from_row, job_run_to_insert_params,
}
use go_chatgpt_tasks.Task.Rows.RoundTrip.{job_run-round_trip, job-round_trip}
use go_chatgpt_tasks.Sql.Tables.{IdempotencyRow, in_progress}
use go_chatgpt_tasks.Sql.Records.{get_job_by_id}
use go_chatgpt_tasks.Task.Effect.{World, M, err, pure, fail}
use go_chatgpt_tasks.Task.Executor.{execute}
use go_chatgpt_tasks.Task.Executor.Once.{execute-skips}
use go_chatgpt_tasks.Task.Executor.Stuck.{Fails, execute-after_failure}
use go_chatgpt_tasks.Tests.Sample.{job_row, run_row, world_of, all_done, noon}

abbrev mailing_job : JobRow
mailing_job = record job_row { side_effecting = true }

abbrev begun_record : IdempotencyRow
begun_record = record {
  idempotency_key = codes "5:1";
  job_run_id = 11;
  handler_name = codes "task.default";
  status = in_progress;
  response_hash = none;
  created_at = noon;
  updated_at = noon;
}

abbrev plain_world : World
plain_world = world_of all_done (run_row 11 running 1 ∷ [])

abbrev begun_world : World
begun_world = record plain_world {
  tables = record plain_world.tables {
    jobs = mailing_job ∷ [];
    idempotency_records = begun_record ∷ [];
  };
}

abbrev retried_run : JobRun
retried_run = job_run_from_row (run_row 11 running 1)

abbrev same_text : Text → Text
same_text s = s

abbrev mail : JobRun → M (Unit {0})
mail r = pure tt

abbrev bounce : JobRun → M (Unit {0})
bounce r = fail (foreign (codes "bounced"))

mailing_side_effecting :
    (row : JobRow)
    → get_job_by_id retried_run.job_id begun_world.tables.jobs ≡ some row
    → row.side_effecting ≡ true
unfolding get_job_by_id job_run_from_row
mailing_side_effecting row e = ground arith

execute-skips_example :
    execute same_text mail retried_run begun_world
    ≡ execute same_text bounce retried_run begun_world
unfolding job_run_from_row
execute-skips_example =
    execute-skips same_text mail bounce retried_run begun_world refl mailing_side_effecting

-- The same, before the first attempt.
abbrev new_world : World
new_world = record plain_world { tables = record plain_world.tables { jobs = mailing_job ∷ [] } }

bounce-Fails : Fails bounce retried_run
unfolding Fails
bounce-Fails v = (foreign (codes "bounced"), v, refl, refl, refl, refl)

execute-after_failure_example :
    (execute same_text mail retried_run (execute same_text bounce retried_run new_world).1).0
    ≡ err (sentinel execution_in_progress)
unfolding job_run_from_row get_job_by_id
execute-after_failure_example =
    execute-after_failure same_text bounce mail retried_run new_world mailing_job (λ n. refl) refl
      refl refl bounce-Fails

job-round_trip_example :
    job_from_sqlc (job_to_insert_params (job_from_sqlc job_row)) ≡ job_from_sqlc job_row
unfolding job_from_sqlc
job-round_trip_example = job-round_trip (job_from_sqlc job_row) (pos 0) refl

job_run-round_trip_example :
    job_run_from_row (job_run_to_insert_params retried_run) ≡ record retried_run {
      schedule_type = Kind.other [];
      recurrence_rule = [];
      local_time = [];
      timezone_id = [];
      parent_job_id = none;
      child_job_ids = [];
    }
unfolding job_run_from_row
job_run-round_trip_example = job_run-round_trip retried_run (omega arith) (omega arith)
