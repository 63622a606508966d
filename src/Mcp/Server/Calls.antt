-- ===== src/Mcp/Server/Calls.antt =====
-- cmd/mcp/main.go: what the calls of the server's tools do.
use go_chatgpt_tasks.Base.{
  ◌≡◌, refl, false, if◌then◌else◌, map, Option, none, some, Text, codes, is_empty, length,
}
use go_chatgpt_tasks.Base.Int.{pos, ◌*ℤ◌, wrap_int64}
use go_chatgpt_tasks.Clock.{zero_time}
use go_chatgpt_tasks.Shared.{new_pagination}
use go_chatgpt_tasks.Shared.Ids.{parse_id}
use go_chatgpt_tasks.Task.Domain.{Uuid}
use go_chatgpt_tasks.Task.Effect.{World, Result, ok, M, ◌>>=◌, pure, with_context, lift_result}
use go_chatgpt_tasks.Task.Recurrence.Location.{Zone}
use go_chatgpt_tasks.Task.Service.{
  Identity, Service, list, runs_for_job, status_of_job, events_for_run, cancel_job,
}
use go_chatgpt_tasks.Task.Service.Create.{create}
use go_chatgpt_tasks.Mcp.{
  Codec, Answer, run, runs, cancelled, events, run_to_response, event_to_response, decode_args,
  task_create, task_list, task_status, task_cancel, task_runs, run_id_from_args, task_events,
}
use go_chatgpt_tasks.Mcp.Server.{
  new_registry, register_tools, Encoder, ToolCall, create_call, list_call, status_call, cancel_call,
  events_call, runs_call, to_map, call_registry_tool, serve_call,
}

-- An answer that shows identifiers as the library prints them.
abbrev told : ((Uuid → Text) → Answer) → M Answer
told f w = (ok (f w.env.uuid_string), w)

module _ {J : Type 0} (k : Encoder J) (c : Codec) (load_location : Text → Option Zone)
    (svc : Service) (ident : Identity) where
  -- The operation of the service that a call asks for, on the arguments as the client gave them.
  pub perform : ToolCall → M Answer
  perform (create_call x) = do
    scheduled_at ←
        (if is_empty x.scheduled_at
          then pure zero_time
          else with_context (codes "parse scheduled_at")
              (lift_result (c.parse_time x.scheduled_at)))
    parent ←
        (if is_empty x.parent_job_id
          then pure none
          else (with_context (codes "parse parent_job_id") (parse_id x.parent_job_id) >>= λ id.
              pure (some id)))
    r ← create load_location svc ident (record {
      description = x.description;
      scheduled_at = scheduled_at;
      interval = wrap_int64 (x.recurring_interval_second *ℤ pos 1000000000);
      schedule_type = x.schedule_type;
      recurrence_rule = x.recurrence_rule;
      local_time = x.local_time;
      timezone_id = x.timezone_id;
      original_user_text = x.original_user_text;
      side_effecting = x.side_effecting;
      idempotency_scope = x.idempotency_scope;
      parent_job_id = parent;
      trigger_on_parent_status = x.trigger_on_parent_status;
      job_type = x.job_type;
    })
    told (λ show. run (run_to_response show c.format_time r))
  perform (list_call x) = do
    found ← list ident (new_pagination x.limit x.offset)
    told (λ show.
        runs (map (run_to_response show c.format_time) found.0) found.1
          (new_pagination x.limit x.offset))
  perform (status_call x) = do
    id ← parse_id x.job_id
    r ← status_of_job ident id
    told (λ show. run (run_to_response show c.format_time r))
  perform (cancel_call x) = do
    id ← parse_id x.job_id
    rs ← cancel_job ident id
    told (λ show. cancelled (show id) (length rs))
  perform (runs_call x) = do
    id ← with_context (codes "parse job_id") (parse_id x.job_id)
    found ← runs_for_job ident id (new_pagination x.limit x.offset)
    told (λ show.
        runs (map (run_to_response show c.format_time) found.0) found.1
          (new_pagination x.limit x.offset))
  perform (events_call x) = do
    id ← with_context (codes "parse job_id") (parse_id x.job_id)
    es ← events_for_run ident id
    told (λ show. events (map (event_to_response show c.format_time) es))

  -- The text that the arguments are sent on as.
  abbrev pub sent_as : ToolCall → Result Text
  sent_as (create_call x) = k.create_args x
  sent_as (list_call x) = k.list_args x
  sent_as (status_call x) = k.run_ref x
  sent_as (cancel_call x) = k.run_ref x
  sent_as (events_call x) = k.run_ref x
  sent_as (runs_call x) = k.job_ref x

  -- What the tool reads of it. The tool of a status reads a page with the identifier, which is not sent.
  unfoldable pub ReadBack : Text → ToolCall → Type 0
  ReadBack raw (create_call x) = c.create_args raw ≡ ok x
  ReadBack raw (list_call x) = c.list_args raw ≡ ok x
  ReadBack raw (status_call x) =
      c.job_ref raw ≡ ok (record { job_id = x.job_id; limit = pos 0; offset = pos 0 })
  ReadBack raw (cancel_call x) = c.run_ref raw ≡ ok x
  ReadBack raw (events_call x) = c.run_ref raw ≡ ok x
  ReadBack raw (runs_call x) = c.job_ref raw ≡ ok x

  -- A call of a tool of the server does what the service does with the client's arguments, and answers
  -- with its result as a JSON object, if the arguments can be encoded, as a text that is not empty, and
  -- are read back as they were.
  pub serve_call-perform :
      (x : ToolCall) (raw : Text) (w : World)
      → sent_as x ≡ ok raw
      → is_empty raw ≡ false
      → ReadBack raw x
      → serve_call k (register_tools c load_location svc ident new_registry) x w
        ≡ (perform x >>= to_map k) w
  unfolding serve_call register_tools call_registry_tool perform ReadBack decode_args task_create
      task_list task_status task_cancel task_runs run_id_from_args task_events
  serve_call-perform (create_call x) raw w sent full back = rw (sent, full, back) refl
  serve_call-perform (list_call x) raw w sent full back = rw (sent, full, back) refl
  serve_call-perform (status_call x) raw w sent full back = rw (sent, full, back) refl
  serve_call-perform (cancel_call x) raw w sent full back = rw (sent, full, back) refl
  serve_call-perform (events_call x) raw w sent full back = rw (sent, full, back) refl
  serve_call-perform (runs_call x) raw w sent full back = rw (sent, full, back) refl
