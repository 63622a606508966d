-- ===== src/Task/Rows.antt =====
-- internal/task/dto_internal.go and internal/platform/postgres/pgtype.go: how a job and a run
-- become the columns of a table, and a table's row a job or a run again. A nullable column is an
-- `Option`. A 32-bit column holds its bit pattern, which is the number itself below 2 ^ 31.
pub mod RoundTrip
use go_chatgpt_tasks.Base.{
  ℕ, ◌*◌, ◌/◌, ◌%◌, ◌^◌, Bool, if◌then◌else◌, [], ◌∷◌, Option, none, some, Text,
}
use go_chatgpt_tasks.Base.Int.{ℤ, sub_ℕ, pos_part, neg_part}
use go_chatgpt_tasks.Clock.{Time, zero_time, is_zero_time, second, time_to_pg}
use go_chatgpt_tasks.Task.Domain.{Uuid, Kind, JobType, Status, Job, JobRun}

pub record JobRow : Type 0 where
  pub id : Uuid
  pub tenant_id : Uuid
  pub user_id : Uuid
  pub kind : Kind
  pub description : Text
  pub interval_seconds : ℤ
  pub schedule_type : Kind
  pub scheduled_at_utc : Option Time
  pub recurrence_rule : Option Text
  pub local_time : Option Text
  pub timezone_id : Text
  pub original_user_text : Option Text
  pub side_effecting : Bool
  pub idempotency_scope : Text
  pub parent_job_id : Option Uuid
  pub trigger_on_parent_status : Option Status
  pub job_type : JobType
  pub created_at : Time
  pub updated_at : Time

pub record JobRunRow : Type 0 where
  pub id : Uuid
  pub tenant_id : Uuid
  pub job_id : Uuid
  pub sequence : ℕ
  pub status : Status
  pub scheduled_at : Time
  pub time_bucket : ℤ
  pub attempts : ℕ
  pub idempotency_key : Text
  pub error_code : Option Text
  pub error_message : Option Text
  pub started_at : Option Time
  pub completed_at : Option Time
  pub failed_at : Option Time
  pub created_at : Time
  pub updated_at : Time

-- The parameters of UpdateJobRunStatus.
pub record UpdateStatusParams : Type 0 where
  pub id : Uuid
  pub status : Status
  pub attempts : ℕ
  pub error_code : Option Text
  pub error_message : Option Text
  pub started_at : Option Time
  pub completed_at : Option Time
  pub failed_at : Option Time
  pub updated_at : Time

abbrev pub string_ptr : Text → Option Text
string_ptr [] = none
string_ptr (c ∷ cs) = some (c ∷ cs)

abbrev pub string_value : Option Text → Text
string_value none = []
string_value (some s) = s

-- `stringPtr(string(status))` and `Status(stringValue(…))`.
abbrev pub status_ptr : Status → Option Status
status_ptr (Status.other []) = none
status_ptr s = some s

abbrev pub status_value : Option Status → Status
status_value none = Status.other []
status_value (some s) = s

abbrev pub nullable_time_to_pg : Time → Option Time
nullable_time_to_pg t = if is_zero_time t then none else some (time_to_pg t)

abbrev pub pg_to_time : Option Time → Time
pg_to_time none = zero_time
pg_to_time (some t) = t

-- int32(n) of a number that is not negative.
abbrev pub int32 : ℕ → ℕ
int32 n = n % 2 ^ 32

-- int64(d / time.Second), which rounds towards zero, and time.Duration(n) * time.Second.
abbrev pub whole_seconds : ℤ → ℤ
whole_seconds d = sub_ℕ (pos_part d / second) (neg_part d / second)

abbrev pub from_seconds : ℤ → ℤ
from_seconds n = sub_ℕ (pos_part n * second) (neg_part n * second)

unfoldable pub job_to_insert_params : Job → JobRow
job_to_insert_params j = record {
  id = j.id;
  tenant_id = j.tenant_id;
  user_id = j.user_id;
  kind = j.kind;
  description = j.description;
  interval_seconds = whole_seconds j.interval;
  schedule_type = j.schedule_type;
  scheduled_at_utc = nullable_time_to_pg j.scheduled_at_utc;
  recurrence_rule = string_ptr j.recurrence_rule;
  local_time = string_ptr j.local_time;
  timezone_id = j.timezone_id;
  original_user_text = string_ptr j.original_user_text;
  side_effecting = j.side_effecting;
  idempotency_scope = j.idempotency_scope;
  parent_job_id = j.parent_job_id;
  trigger_on_parent_status = status_ptr j.trigger_on_parent_status;
  job_type = j.job_type;
  created_at = time_to_pg j.created_at;
  updated_at = time_to_pg j.updated_at;
}

unfoldable pub job_from_sqlc : JobRow → Job
job_from_sqlc r = record {
  id = r.id;
  tenant_id = r.tenant_id;
  user_id = r.user_id;
  kind = r.kind;
  description = r.description;
  interval = from_seconds r.interval_seconds;
  schedule_type = r.schedule_type;
  scheduled_at_utc = pg_to_time r.scheduled_at_utc;
  recurrence_rule = string_value r.recurrence_rule;
  local_time = string_value r.local_time;
  timezone_id = r.timezone_id;
  original_user_text = string_value r.original_user_text;
  side_effecting = r.side_effecting;
  idempotency_scope = r.idempotency_scope;
  parent_job_id = r.parent_job_id;
  trigger_on_parent_status = status_value r.trigger_on_parent_status;
  job_type = r.job_type;
  created_at = r.created_at;
  updated_at = r.updated_at;
}

unfoldable pub job_run_to_insert_params : JobRun → JobRunRow
job_run_to_insert_params r = record {
  id = r.id;
  tenant_id = r.tenant_id;
  job_id = r.job_id;
  sequence = int32 r.sequence;
  status = r.status;
  scheduled_at = time_to_pg r.scheduled_at;
  time_bucket = r.time_bucket;
  attempts = int32 r.attempts;
  idempotency_key = r.idempotency_key;
  error_code = string_ptr r.error_code;
  error_message = string_ptr r.error_msg;
  started_at = nullable_time_to_pg r.started_at;
  completed_at = nullable_time_to_pg r.completed_at;
  failed_at = nullable_time_to_pg r.failed_at;
  created_at = time_to_pg r.created_at;
  updated_at = time_to_pg r.updated_at;
}

unfoldable pub job_run_to_update_status_params : JobRun → UpdateStatusParams
job_run_to_update_status_params r = record {
  id = r.id;
  status = r.status;
  attempts = int32 r.attempts;
  error_code = string_ptr r.error_code;
  error_message = string_ptr r.error_msg;
  started_at = nullable_time_to_pg r.started_at;
  completed_at = nullable_time_to_pg r.completed_at;
  failed_at = nullable_time_to_pg r.failed_at;
  updated_at = time_to_pg r.updated_at;
}

-- jobRunFromGetByIDRow and its four siblings, which differ in the row's Go type alone. The schedule,
-- the parent and the children are not columns: they come back empty. The numbers are those of Go's
-- int32 below 2 ^ 31, and its bit patterns from there on.
unfoldable pub job_run_from_row : JobRunRow → JobRun
job_run_from_row r = record {
  id = r.id;
  tenant_id = r.tenant_id;
  job_id = r.job_id;
  sequence = r.sequence;
  status = r.status;
  scheduled_at = r.scheduled_at;
  time_bucket = r.time_bucket;
  attempts = r.attempts;
  error_code = string_value r.error_code;
  error_msg = string_value r.error_message;
  started_at = pg_to_time r.started_at;
  completed_at = pg_to_time r.completed_at;
  failed_at = pg_to_time r.failed_at;
  created_at = r.created_at;
  updated_at = r.updated_at;
  schedule_type = Kind.other [];
  recurrence_rule = [];
  local_time = [];
  timezone_id = [];
  idempotency_key = r.idempotency_key;
  parent_job_id = none;
  child_job_ids = [];
}
