-- ===== src/Mcp.antt =====
-- internal/task/mcp: the tools through which a language model asks for the same service, under one
-- identity. encoding/json, and time.Parse and Format at RFC 3339, are parameters.
pub mod Keeps
pub mod Tenants
pub mod RunIds
pub mod Server
use go_chatgpt_tasks.Base.{
  ℕ, ◌+◌, ◌-◌, ◌%◌, ◌^◌, Bool, if◌then◌else◌, ltb, List, [], ◌∷◌, map, Option, none, some, Text,
  codes, is_empty, length,
}
use go_chatgpt_tasks.Base.Int.{ℤ, pos, sub_ℕ, pos_part, neg_part, ◌*ℤ◌, wrap_int64}
use go_chatgpt_tasks.Clock.{Time, second, zero_time}
use go_chatgpt_tasks.Shared.{Pagination, new_pagination}
use go_chatgpt_tasks.Shared.Ids.{parse_id}
use go_chatgpt_tasks.Task.Domain.{Uuid, Kind, JobType, Status, EventType, JobRun, Payload, RunEvent}
use go_chatgpt_tasks.Task.Effect.{
  World, Result, ok, err, M, ◌>>=◌, pure, fail, with_context, lift_result,
}
use go_chatgpt_tasks.Task.Recurrence.Location.{Zone}
use go_chatgpt_tasks.Task.Service.{
  Identity, Service, list, runs_for_job, events_for_run, status_of_job, cancel_job,
}
use go_chatgpt_tasks.Task.Service.Create.{CreateInput, create}

-- `recurring_interval_second` is an int64; an absent field has its zero value.
pub record CreateArgs : Type 0 where
  pub description : Text
  pub scheduled_at : Text
  pub recurring_interval_second : ℤ
  pub schedule_type : Kind
  pub recurrence_rule : Text
  pub local_time : Text
  pub timezone_id : Text
  pub original_user_text : Text
  pub side_effecting : Bool
  pub idempotency_scope : Text
  pub parent_job_id : Text
  pub trigger_on_parent_status : Status
  pub job_type : JobType

pub record ListArgs : Type 0 where
  pub limit : ℤ
  pub offset : ℤ

-- Also the struct of task.cancel, which has this field only.
pub record RunRef : Type 0 where
  pub job_id : Text

pub record JobRef : Type 0 where
  pub job_id : Text
  pub limit : ℤ
  pub offset : ℤ

-- json.Unmarshal into each of these, time.Parse(time.RFC3339, s) and Format(time.RFC3339).
pub record Codec : Type 0 where
  pub create_args : Text → Result CreateArgs
  pub list_args : Text → Result ListArgs
  pub run_ref : Text → Result RunRef
  pub job_ref : Text → Result JobRef
  pub parse_time : Text → Result Time
  pub format_time : Time → Text

-- runResponse; a value of a string type stands for its text.
pub record RunView : Type 0 where
  pub job_id : Text
  pub status : Status
  pub scheduled_at : Text
  pub sequence : ℕ
  pub schedule_type : Kind
  pub recurrence_rule : Text
  pub local_time : Text
  pub timezone_id : Text
  pub next_run_at_utc : Text
  pub parent_job_id : Text
  pub child_job_ids : List Text

pub record EventView : Type 0 where
  pub job_id : Text
  pub job_run_id : Text
  pub status : Status
  pub event_type : EventType
  pub payload : Payload
  pub created_at : Text

-- What a tool returns, before it is rendered.
pub data Answer : Type 0 where
  run : RunView → Answer
  runs : List RunView → ℕ → Pagination → Answer
  cancelled : Text → ℕ → Answer
  events : List EventView → Answer

abbrev pub parent_text : (Uuid → Text) → Option Uuid → Text
parent_text show none = []
parent_text show (some id) = show id

-- With uuid.UUID.String and the format of times.
unfoldable pub run_to_response : (Uuid → Text) → (Time → Text) → JobRun → RunView
run_to_response show format r = record {
  job_id = show r.id;
  status = r.status;
  scheduled_at = format r.scheduled_at;
  sequence = r.sequence;
  schedule_type = r.schedule_type;
  recurrence_rule = r.recurrence_rule;
  local_time = r.local_time;
  timezone_id = r.timezone_id;
  next_run_at_utc = format r.scheduled_at;
  parent_job_id = parent_text show r.parent_job_id;
  child_job_ids = map show r.child_job_ids;
}

unfoldable pub event_to_response : (Uuid → Text) → (Time → Text) → RunEvent → EventView
event_to_response show format e = record {
  job_id = show e.job_id;
  job_run_id = show e.job_run_id;
  status = e.status;
  event_type = e.event_type;
  payload = e.payload;
  created_at = format e.created_at;
}

unfoldable pub decode_args : {A : Type 0} → (Text → Result A) → Text → M A
decode_args decode raw =
    with_context (codes "decode args")
      (lift_result (decode (if is_empty raw then codes "{}" else raw)))

-- The environment's printing of identifiers, for a response.
abbrev pub shown : {A : Type 0} → ((Uuid → Text) → A → Answer) → A → M Answer
shown f a w = (ok (f w.env.uuid_string a), w)

-- The names that Register gives to the handlers.
pub data Tool : Type 0 where
  create_tool list_tool status_tool cancel_tool runs_tool events_tool : Tool

module _ (c : Codec) (load_location : Text → Option Zone) (svc : Service) (ident : Identity) where
  abbrev pub scheduled_time : Text → M Time
  scheduled_time s =
      if is_empty s
      then pure zero_time
      else with_context (codes "parse scheduled_at") (lift_result (c.parse_time s))

  abbrev pub parent_of : Text → M (Option Uuid)
  parent_of s =
      if is_empty s
      then pure none
      else with_context (codes "parse parent_job_id") (parse_id s) >>= λ id. pure (some id)

  abbrev pub input_of : CreateArgs → Time → Option Uuid → CreateInput
  input_of a scheduled_at parent = record {
    description = a.description;
    scheduled_at = scheduled_at;
    interval = wrap_int64 (a.recurring_interval_second *ℤ pos second);
    schedule_type = a.schedule_type;
    recurrence_rule = a.recurrence_rule;
    local_time = a.local_time;
    timezone_id = a.timezone_id;
    original_user_text = a.original_user_text;
    side_effecting = a.side_effecting;
    idempotency_scope = a.idempotency_scope;
    parent_job_id = parent;
    trigger_on_parent_status = a.trigger_on_parent_status;
    job_type = a.job_type;
  }

  abbrev pub show_run : (Uuid → Text) → JobRun → Answer
  show_run show r = run (run_to_response show c.format_time r)

  abbrev pub show_runs : Pagination → (Uuid → Text) → List JobRun × ℕ → Answer
  show_runs p show x = runs (map (run_to_response show c.format_time) x.0) x.1 p

  abbrev pub show_events : (Uuid → Text) → List RunEvent → Answer
  show_events show es = events (map (event_to_response show c.format_time) es)

  unfoldable pub task_create : Text → M Answer
  task_create raw = do
    args ← decode_args c.create_args raw
    scheduled_at ← scheduled_time args.scheduled_at
    parent ← parent_of args.parent_job_id
    r ← create load_location svc ident (input_of args scheduled_at parent)
    shown show_run r

  abbrev pub list_page : Pagination → M Answer
  list_page p = list ident p >>= shown (show_runs p)

  unfoldable pub task_list : Text → M Answer
  task_list raw =
      decode_args c.list_args raw >>= λ args. list_page (new_pagination args.limit args.offset)

  abbrev pub status_by_id : Uuid → M Answer
  status_by_id id = status_of_job ident id >>= shown show_run

  unfoldable pub task_status : Text → M Answer
  task_status raw = decode_args c.job_ref raw >>= λ args. parse_id args.job_id >>= status_by_id

  abbrev pub cancel_by_id : Uuid → M Answer
  cancel_by_id id = cancel_job ident id >>= shown (λ show rs. cancelled (show id) (length rs))

  unfoldable pub task_cancel : Text → M Answer
  task_cancel raw = decode_args c.run_ref raw >>= λ args. parse_id args.job_id >>= cancel_by_id

  abbrev pub runs_page : Pagination → Uuid → M Answer
  runs_page p id = runs_for_job ident id p >>= shown (show_runs p)

  unfoldable pub task_runs : Text → M Answer
  task_runs raw = decode_args c.job_ref raw >>= λ ref.
      with_context (codes "parse job_id") (parse_id ref.job_id)
      >>= runs_page (new_pagination ref.limit ref.offset)

  -- runIDFromArgs.
  unfoldable pub run_id_from_args : Text → M Uuid
  run_id_from_args raw =
      decode_args c.run_ref raw >>= λ ref. with_context (codes "parse job_id") (parse_id ref.job_id)

  abbrev pub events_by_id : Uuid → M Answer
  events_by_id id = events_for_run ident id >>= shown show_events

  unfoldable pub task_events : Text → M Answer
  task_events raw = run_id_from_args raw >>= events_by_id

  unfoldable pub call_tool : Tool → Text → M Answer
  call_tool create_tool = task_create
  call_tool list_tool = task_list
  call_tool status_tool = task_status
  call_tool cancel_tool = task_cancel
  call_tool runs_tool = task_runs
  call_tool events_tool = task_events
