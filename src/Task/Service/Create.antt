-- ===== src/Task/Service/Create.antt =====
-- internal/task/service.go: Create and scheduleFromInput. time.LoadLocation is a parameter.
pub mod Atomic
use go_chatgpt_tasks.Base.{
  ℕ, ◌+◌, ◌/◌, ◌%◌, Bool, true, false, not, ◌&&◌, ◌||◌, if◌then◌else◌, List, [], ◌∷◌, Option, none,
  some, Text, codes, is_empty,
}
use go_chatgpt_tasks.Base.Int.{ℤ, pos, ltb_ℤ}
use go_chatgpt_tasks.Clock.{Time, is_zero_time}
use go_chatgpt_tasks.Task.Errors.{sentinel, invalid_schedule, invalid_timezone}
use go_chatgpt_tasks.Task.Domain.{
  Uuid, Kind, one_off, recurring, JobType, Status, job_created, job_run_created, ScheduleSpec, Job,
  JobRun, RunEvent, EventType,
}
use go_chatgpt_tasks.Task.Transitions.{new_job_run, new_run_event, set_schedule}
use go_chatgpt_tasks.Task.Keys.{run_key}
use go_chatgpt_tasks.Task.Effect.{M, ◌>>=◌, ◌>>◌, pure, fail, with_context, lift, time_now, new_id}
use go_chatgpt_tasks.Task.Repo.{create_job_with_run}
use go_chatgpt_tasks.Task.Recurrence.Location.{Zone, hour_of, minute_of}
use go_chatgpt_tasks.Task.Recurrence.{DstNote, parse_rule, next_occurrence}
use go_chatgpt_tasks.Task.NewJob.{text_or, new_job}
use go_chatgpt_tasks.Task.Service.{Identity, Service, as_owner, check_quota}

pub record CreateInput : Type 0 where
  pub description : Text
  pub scheduled_at : Time
  pub interval : ℤ
  pub schedule_type : Kind
  pub recurrence_rule : Text
  pub local_time : Text
  pub timezone_id : Text
  pub original_user_text : Text
  pub side_effecting : Bool
  pub idempotency_scope : Text
  pub parent_job_id : Option Uuid
  pub trigger_on_parent_status : Status
  pub job_type : JobType

-- The kind of the schedule, where the input names none.
abbrev kind_of : Kind → ℤ → Text → Kind
kind_of (Kind.other []) interval rule =
    if ltb_ℤ (pos 0) interval || not (is_empty rule) then recurring else one_off
kind_of k interval rule = k

abbrev pub spec_of : CreateInput → ScheduleSpec
spec_of x = record {
  type = kind_of x.schedule_type x.interval x.recurrence_rule;
  scheduled_at_utc = x.scheduled_at;
  recurrence_rule = x.recurrence_rule;
  local_time = x.local_time;
  timezone_id = text_or (codes "UTC") x.timezone_id;
  original_user_text = x.original_user_text;
  legacy_interval = x.interval;
  side_effecting = x.side_effecting;
  idempotency_scope = x.idempotency_scope;
  parent_job_id = x.parent_job_id;
  trigger_on_parent_status = x.trigger_on_parent_status;
  job_type = x.job_type;
}

-- Format("15:04") of a time in UTC.
abbrev two_digits : ℕ → Text
two_digits n = (b'0' + n / 10) ∷ (b'0' + n % 10) ∷ []

unfoldable pub clock_text : Time → Text
clock_text t = (b'0' + hour_of t / 10) ∷ (b'0' + hour_of t % 10) ∷ b':' ∷ two_digits (minute_of t)

-- The rule and the local time of a recurring job, where the input leaves them out.
abbrev pub with_defaults : CreateInput → ScheduleSpec → ScheduleSpec
with_defaults x spec = record spec {
  recurrence_rule = text_or (codes "FREQ=DAILY") spec.recurrence_rule;
  local_time =
      if is_empty spec.local_time && not (is_zero_time x.scheduled_at)
      then clock_text x.scheduled_at
      else spec.local_time;
}

unfoldable pub zone_or_fail : Option Zone → M Zone
zone_or_fail none = fail (sentinel invalid_timezone)
zone_or_fail (some z) = pure z

-- From `rule, err := ParseRule(…)` on.
unfoldable pub schedule_recurring : (Text → Option Zone) → ScheduleSpec → M (ScheduleSpec × Time)
schedule_recurring load_location spec = do
  rule ← lift (parse_rule spec.recurrence_rule)
  tz ← zone_or_fail (load_location spec.timezone_id)
  now ← time_now
  next ← lift (next_occurrence rule spec.local_time (some tz) now)
  pure (record spec { scheduled_at_utc = next.0 }, next.0)

abbrev pub is_one_off : Kind → Bool
is_one_off one_off = true
is_one_off _ = false

-- scheduleFromInput.
unfoldable pub schedule_from_input : (Text → Option Zone) → CreateInput → M (ScheduleSpec × Time)
schedule_from_input load_location x =
    let spec = spec_of x in
    if is_one_off spec.type
    then (if is_zero_time x.scheduled_at
        then fail (sentinel invalid_schedule)
        else pure (spec, x.scheduled_at))
    else schedule_recurring load_location (with_defaults x spec)

-- NewRunEvent(id.TenantID, j.ID(), run.ID(), run.Status(), …, nil).
unfoldable pub event_for : Uuid → Job → JobRun → EventType → M RunEvent
event_for tenant j run type = do
  event_id ← new_id
  now ← time_now
  pure (new_run_event event_id now tenant j.id run.id run.status type none)

-- The rest of Create, once the job is made and admitted.
unfoldable pub create_run : Identity → Job → Time → M JobRun
create_run id j scheduled_at = do
  run_id ← new_id
  now ← time_now
  key ← run_key
  run ← lift (new_job_run key run_id now id.tenant_id j.id 1 scheduled_at)
  created ← event_for id.tenant_id j run job_created
  run_created ← event_for id.tenant_id j run job_run_created
  with_context (codes "create job") (create_job_with_run j run (created ∷ run_created ∷ []))
  pure (set_schedule j run)

unfoldable pub create_scheduled :
    (Text → Option Zone) → Service → Identity → CreateInput → ScheduleSpec × Time → M JobRun
create_scheduled load_location s id x (spec, scheduled_at) = do
  job_id ← new_id
  now ← time_now
  j ← lift (new_job load_location job_id now id.tenant_id id.user_id x.description spec)
  check_quota s id.tenant_id spec.type
  create_run id j scheduled_at

-- Create.
unfoldable pub create : (Text → Option Zone) → Service → Identity → CreateInput → M JobRun
create load_location s id x =
    as_owner id (schedule_from_input load_location x >>= create_scheduled load_location s id x)
