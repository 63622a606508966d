-- ===== src/Task/Domain.antt =====
-- internal/task/domain.go: the types. A Go value of a named string type is any text, so each such
-- type has a constructor for the texts that are not among its constants; "" is `other []`.
use go_chatgpt_tasks.Base.{ℕ, Bool, true, false, List, Option, Text, text_eq}
use go_chatgpt_tasks.Base.Int.{ℤ}
use go_chatgpt_tasks.Clock.{Time}

-- A UUID as its 128-bit number: uuid.Nil is 0.
abbrev pub Uuid : Type 0
Uuid = ℕ

abbrev pub uuid_nil : Uuid
uuid_nil = 0

pub data Kind : Type 0 where
  one_off recurring : Kind
  other : Text → Kind

pub data JobType : Type 0 where
  generic_llm : JobType
  other : Text → JobType

pub data Status : Type 0 where
  pending queued running success retry failed cancelled : Status
  other : Text → Status

pub data EventType : Type 0 where
  job_created job_run_created job_run_enqueued job_run_started job_run_succeeded : EventType
  job_run_failed job_run_retry job_run_dlq job_cancelled duplicate_detected : EventType
  child_enqueued llm_timeout_event llm_validation_failed quota_deferred : EventType

pub record Quota : Type 0 where
  pub max_jobs_per_hour : ℤ
  pub max_active_recurring : ℤ
  pub max_concurrent_runs : ℤ
  pub max_daily_llm_cost_cents : ℤ

pub record ScheduleSpec : Type 0 where
  pub type : Kind
  pub scheduled_at_utc : Time
  pub recurrence_rule : Text
  pub local_time : Text
  pub timezone_id : Text
  pub original_user_text : Text
  pub legacy_interval : ℤ
  pub side_effecting : Bool
  pub idempotency_scope : Text
  pub parent_job_id : Option Uuid
  pub trigger_on_parent_status : Status
  pub job_type : JobType

pub record Job : Type 0 where
  pub id : Uuid
  pub tenant_id : Uuid
  pub user_id : Uuid
  pub kind : Kind
  pub description : Text
  pub interval : ℤ
  pub schedule_type : Kind
  pub scheduled_at_utc : Time
  pub recurrence_rule : Text
  pub local_time : Text
  pub timezone_id : Text
  pub original_user_text : Text
  pub side_effecting : Bool
  pub idempotency_scope : Text
  pub parent_job_id : Option Uuid
  pub trigger_on_parent_status : Status
  pub job_type : JobType
  pub created_at : Time
  pub updated_at : Time

pub record JobRun : Type 0 where
  pub id : Uuid
  pub tenant_id : Uuid
  pub job_id : Uuid
  pub sequence : ℕ
  pub status : Status
  pub scheduled_at : Time
  pub time_bucket : ℤ
  pub attempts : ℕ
  pub error_code : Text
  pub error_msg : Text
  pub started_at : Time
  pub completed_at : Time
  pub failed_at : Time
  pub created_at : Time
  pub updated_at : Time
  pub schedule_type : Kind
  pub recurrence_rule : Text
  pub local_time : Text
  pub timezone_id : Text
  pub idempotency_key : Text
  pub parent_job_id : Option Uuid
  pub child_job_ids : List Uuid

-- The values that the package puts into an event's payload (map[string]any).
pub data PayloadValue : Type 0 where
  text : Text → PayloadValue
  int : ℤ → PayloadValue

abbrev pub Payload : Type 0
Payload = Option (List (Text × PayloadValue))

pub record RunEvent : Type 0 where
  pub id : Uuid
  pub tenant_id : Uuid
  pub job_id : Uuid
  pub job_run_id : Uuid
  pub status : Status
  pub event_type : EventType
  pub payload : Payload
  pub created_at : Time

-- `==` on the string types.
abbrev pub status_eq : Status → Status → Bool
status_eq pending pending = true
status_eq queued queued = true
status_eq running running = true
status_eq success success = true
status_eq retry retry = true
status_eq failed failed = true
status_eq cancelled cancelled = true
status_eq (other s) (other t) = text_eq s t
status_eq _ _ = false

abbrev pub is_running : Status → Bool
is_running running = true
is_running _ = false

-- isTerminalStatus, and JobRun.IsTerminal at the run's status.
abbrev pub is_terminal_status : Status → Bool
is_terminal_status success = true
is_terminal_status failed = true
is_terminal_status cancelled = true
is_terminal_status _ = false

abbrev pub is_terminal : JobRun → Bool
is_terminal r = is_terminal_status r.status
