-- ===== src/Task/NewJob.antt =====
-- internal/task/domain.go: NewJob. time.LoadLocation is a parameter.
pub mod Valid
use go_chatgpt_tasks.Base.{
  Bool, true, false, not, ◌&&◌, ◌||◌, if◌then◌else◌, List, [], ◌∷◌, Option, none, some, Text, codes,
  is_empty,
}
use go_chatgpt_tasks.Base.Parse.{trim_space}
use go_chatgpt_tasks.Clock.{Time}
use go_chatgpt_tasks.Task.Errors.{
  Sentinel, invalid_owner, invalid_description, invalid_schedule, invalid_timezone,
  invalid_job_type,
}
use go_chatgpt_tasks.Task.Domain.{
  Uuid, Kind, one_off, recurring, JobType, generic_llm, Status, is_terminal_status, ScheduleSpec,
  Job,
}
use go_chatgpt_tasks.Task.Transitions.{Outcome, ok, err, is_nil}
use go_chatgpt_tasks.Task.Recurrence.Location.{Zone}
use go_chatgpt_tasks.Task.Recurrence.{parse_rule, parse_local_time}

-- `if _, err := f(); err != nil { return nil, … }`, then the rest.
abbrev pub and_also {ℓ κ} : {A : Type ℓ} {B : Type κ} → Outcome A → Outcome B → Outcome B
and_also (ok a) b = b
and_also (err s) b = err s

abbrev pub is_kind : Kind → Bool
is_kind one_off = true
is_kind recurring = true
is_kind (Kind.other s) = false

abbrev pub text_or : Text → Text → Text
text_or default [] = default
text_or default (c ∷ s) = c ∷ s

-- The rule and the local time of a recurring job.
abbrev pub check_rule : Kind → Text → Text → Outcome (Unit {0})
check_rule recurring rule local_time =
    and_also (parse_rule rule) (and_also (parse_local_time local_time) (ok tt))
check_rule _ rule local_time = ok tt

abbrev pub is_no_status : Status → Bool
is_no_status (Status.other s) = is_empty s
is_no_status _ = false

-- The two tests on the parent.
abbrev pub is_parent_clear : Option Uuid → Status → Bool
is_parent_clear (some p) trigger = is_terminal_status trigger
is_parent_clear none trigger = is_no_status trigger

abbrev pub job_type_or_default : JobType → JobType
job_type_or_default (JobType.other []) = generic_llm
job_type_or_default t = t

abbrev pub is_generic : JobType → Bool
is_generic generic_llm = true
is_generic _ = false

abbrev pub found_zone : Option Zone → Outcome (Unit {0})
found_zone none = err invalid_timezone
found_zone (some z) = ok tt

abbrev pub ensure : Bool → Sentinel → Outcome (Unit {0})
ensure true s = ok tt
ensure false s = err s

-- The job that NewJob makes of a specification that it accepts.
abbrev pub job_of : Uuid → Time → Uuid → Uuid → Text → ScheduleSpec → Job
job_of id now tenant_id user_id description schedule = record {
  id = id;
  tenant_id = tenant_id;
  user_id = user_id;
  kind = schedule.type;
  description = description;
  interval = schedule.legacy_interval;
  schedule_type = schedule.type;
  scheduled_at_utc = schedule.scheduled_at_utc;
  recurrence_rule = schedule.recurrence_rule;
  local_time = schedule.local_time;
  timezone_id = text_or (codes "UTC") schedule.timezone_id;
  original_user_text = schedule.original_user_text;
  side_effecting = schedule.side_effecting;
  idempotency_scope = text_or (codes "job_run") schedule.idempotency_scope;
  parent_job_id = schedule.parent_job_id;
  trigger_on_parent_status = schedule.trigger_on_parent_status;
  job_type = job_type_or_default schedule.job_type;
  created_at = now;
  updated_at = now;
}

-- The checks of NewJob, in their order.
unfoldable pub check_job :
    (Text → Option Zone) → Uuid → Uuid → Text → ScheduleSpec → Outcome (Unit {0})
check_job load_location tenant_id user_id description schedule =
    and_also (ensure (not (is_nil tenant_id || is_nil user_id)) invalid_owner) (
      and_also (ensure (not (is_empty (trim_space description))) invalid_description) (
        and_also (ensure (is_kind schedule.type) invalid_schedule) (
          and_also (found_zone (load_location (text_or (codes "UTC") schedule.timezone_id))) (
            and_also (check_rule schedule.type schedule.recurrence_rule schedule.local_time) (
              and_also
                (ensure (is_parent_clear schedule.parent_job_id schedule.trigger_on_parent_status)
                  invalid_schedule)
                (ensure (is_generic (job_type_or_default schedule.job_type)) invalid_job_type))))))

-- NewJob with the identifier that shared.NewJobID returns and the reading of the clock.
unfoldable pub new_job :
    (Text → Option Zone) → Uuid → Time → Uuid → Uuid → Text → ScheduleSpec → Outcome Job
new_job load_location id now tenant_id user_id description schedule =
    and_also (check_job load_location tenant_id user_id description schedule)
      (ok (job_of id now tenant_id user_id description schedule))
