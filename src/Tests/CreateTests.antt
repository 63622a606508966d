-- ===== src/Tests/CreateTests.antt =====
-- Jobs created on concrete inputs.
use go_chatgpt_tasks.Base.{◌≡◌, ◌↔◌, refl, false, [], none, codes}
use go_chatgpt_tasks.Base.Int.{pos}
use go_chatgpt_tasks.Task.Domain.{Kind, JobType, Status}
use go_chatgpt_tasks.Task.Transitions.{ok}
use go_chatgpt_tasks.Task.Effect.Atomic.{AllOrNothing}
use go_chatgpt_tasks.Task.NewJob.{job_of, new_job}
use go_chatgpt_tasks.Task.NewJob.Valid.{ValidJob, new_job-ok_iff}
use go_chatgpt_tasks.Task.Service.Create.{CreateInput, spec_of, clock_text, create}
use go_chatgpt_tasks.Task.Service.Create.Atomic.{Creation, create-AllOrNothing}
use go_chatgpt_tasks.Tests.Sample.{noon}
use go_chatgpt_tasks.Tests.ServiceTests.{owner, quota_service, two_runs}
use go_chatgpt_tasks.Tests.RecurrenceTests.{only_utc}

abbrev weekly_input : CreateInput
weekly_input = record {
  description = codes "water the plants";
  scheduled_at = noon;
  interval = pos 0;
  schedule_type = Kind.other [];
  recurrence_rule = codes "FREQ=WEEKLY;INTERVAL=2";
  local_time = codes "18:00";
  timezone_id = [];
  original_user_text = [];
  side_effecting = false;
  idempotency_scope = [];
  parent_job_id = none;
  trigger_on_parent_status = Status.other [];
  job_type = JobType.other [];
}

new_job-ok_iff_example :
    (new_job only_utc 9 noon 7 8 (codes "water the plants") (spec_of weekly_input)
      ≡ ok (job_of 9 noon 7 8 (codes "water the plants") (spec_of weekly_input)))
    ↔ ValidJob only_utc (job_of 9 noon 7 8 (codes "water the plants") (spec_of weekly_input))
new_job-ok_iff_example =
    new_job-ok_iff only_utc 9 noon 7 8 (codes "water the plants") (spec_of weekly_input)

create-AllOrNothing_example :
    AllOrNothing two_runs.tables
      (Creation only_utc owner two_runs.tables)
      (create only_utc quota_service owner weekly_input two_runs)
create-AllOrNothing_example = create-AllOrNothing only_utc quota_service owner weekly_input two_runs

at_noon : clock_text noon ≡ codes "12:00"
unfolding clock_text
at_noon = refl
