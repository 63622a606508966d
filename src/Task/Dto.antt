-- ===== src/Task/Dto.antt =====
-- internal/task/dto_http.go: the bodies of requests and responses. time.Parse and Format at RFC 3339
-- are parameters; an identifier stands for its text, and so does a value of a string type.
use go_chatgpt_tasks.Base.{ℕ, Bool, if◌then◌else◌, List, [], Option, Text, is_empty}
use go_chatgpt_tasks.Base.Int.{ℤ, pos, ◌*ℤ◌, wrap_int64}
use go_chatgpt_tasks.Clock.{Time, second, zero_time, is_zero_time}
use go_chatgpt_tasks.Task.Errors.{invalid_schedule}
use go_chatgpt_tasks.Task.Domain.{Uuid, Kind, JobType, Status, EventType, JobRun, Payload, RunEvent}
use go_chatgpt_tasks.Task.Transitions.{Outcome, ok, err}
use go_chatgpt_tasks.Task.Service.Create.{CreateInput}

pub record CreateJobRequest : Type 0 where
  pub description : Text
  pub scheduled_at : Text
  pub recurring_interval_seconds : ℤ
  pub schedule_type : Kind
  pub recurrence_rule : Text
  pub local_time : Text
  pub timezone_id : Text
  pub original_user_text : Text
  pub side_effecting : Bool
  pub idempotency_scope : Text
  pub parent_job_id : Option Uuid
  pub trigger_on_parent_status : Status
  pub job_type : JobType

-- The format of times: `none` is an error of time.Parse.
pub record TimeFormat : Type 0 where
  pub parse : Text → Option Time
  pub format : Time → Text

abbrev scheduled : Option Time → Outcome Time
scheduled Option.none = err invalid_schedule
scheduled (Option.some t) = ok t

abbrev input_at : CreateJobRequest → Outcome Time → Outcome CreateInput
input_at r (err s) = err s
input_at r (ok t) = ok (record {
  description = r.description;
  scheduled_at = t;
  interval = wrap_int64 (r.recurring_interval_seconds *ℤ pos second);
  schedule_type = r.schedule_type;
  recurrence_rule = r.recurrence_rule;
  local_time = r.local_time;
  timezone_id = r.timezone_id;
  original_user_text = r.original_user_text;
  side_effecting = r.side_effecting;
  idempotency_scope = r.idempotency_scope;
  parent_job_id = r.parent_job_id;
  trigger_on_parent_status = r.trigger_on_parent_status;
  job_type = r.job_type;
})

unfoldable pub to_input : TimeFormat → CreateJobRequest → Outcome CreateInput
to_input f r =
    input_at r
      (if is_empty r.scheduled_at then ok zero_time else scheduled (f.parse r.scheduled_at))

pub record RunResponse : Type 0 where
  pub id : Uuid
  pub tenant_id : Uuid
  pub job_id : Uuid
  pub status : Status
  pub scheduled_at : Text
  pub sequence : ℕ
  pub attempts : ℕ
  pub error_code : Text
  pub error_message : Text
  pub started_at : Text
  pub completed_at : Text
  pub failed_at : Text
  pub created_at : Text
  pub updated_at : Text
  pub schedule_type : Kind
  pub recurrence_rule : Text
  pub local_time : Text
  pub timezone_id : Text
  pub next_run_at_utc : Text
  pub parent_job_id : Option Uuid
  pub child_job_ids : List Uuid

pub record RunEventResponse : Type 0 where
  pub id : Uuid
  pub tenant_id : Uuid
  pub job_id : Uuid
  pub job_run_id : Uuid
  pub status : Status
  pub event_type : EventType
  pub payload : Payload
  pub created_at : Text

unfoldable pub format_time : TimeFormat → Time → Text
format_time f t = if is_zero_time t then [] else f.format t

unfoldable pub run_to_http_response : TimeFormat → JobRun → RunResponse
run_to_http_response f r = record {
  id = r.id;
  tenant_id = r.tenant_id;
  job_id = r.job_id;
  status = r.status;
  scheduled_at = f.format r.scheduled_at;
  sequence = r.sequence;
  attempts = r.attempts;
  error_code = r.error_code;
  error_message = r.error_msg;
  started_at = format_time f r.started_at;
  completed_at = format_time f r.completed_at;
  failed_at = format_time f r.failed_at;
  created_at = f.format r.created_at;
  updated_at = f.format r.updated_at;
  schedule_type = r.schedule_type;
  recurrence_rule = r.recurrence_rule;
  local_time = r.local_time;
  timezone_id = r.timezone_id;
  next_run_at_utc = f.format r.scheduled_at;
  parent_job_id = r.parent_job_id;
  child_job_ids = r.child_job_ids;
}

unfoldable pub event_to_http_response : TimeFormat → RunEvent → RunEventResponse
event_to_http_response f e = record {
  id = e.id;
  tenant_id = e.tenant_id;
  job_id = e.job_id;
  job_run_id = e.job_run_id;
  status = e.status;
  event_type = e.event_type;
  payload = e.payload;
  created_at = f.format e.created_at;
}
