-- ===== src/Task/Worker.antt =====
-- internal/task/worker.go: what a worker does with one message. Where the source logs an error and
-- returns, the model returns that error.
pub mod Calls
pub mod Invariants
pub mod Budget
pub mod Concurrency
pub mod Terminal
use go_chatgpt_tasks.Base.{
  ℕ, suc, ◌+◌, Bool, true, false, leb, if◌then◌else◌, List, [], ◌∷◌, Option, none, some, Text,
  codes,
}
use go_chatgpt_tasks.Base.Int.{ℤ, pos}
use go_chatgpt_tasks.Clock.{Time}
use go_chatgpt_tasks.Shared.{new_pagination}
use go_chatgpt_tasks.Task.Errors.{Error, Sentinel, sentinel, worker_stalled, message}
use go_chatgpt_tasks.Task.Domain.{
  Uuid, Status, pending, queued, running, retry, success, failed, cancelled, EventType,
  job_run_started, job_run_succeeded, job_run_failed, job_run_retry, job_run_dlq, job_run_enqueued,
  child_enqueued, Quota, Job, JobRun, Payload, PayloadValue, text, int, RunEvent,
}
use go_chatgpt_tasks.Task.Transitions.{
  new_job_run, new_run_event, mark_queued, mark_running, mark_success, mark_retry, mark_failed,
  set_error,
}
use go_chatgpt_tasks.Task.Keys.{run_key}
use go_chatgpt_tasks.Task.Effect.{
  JobRunMsg, Command, enqueue, dead_letter, ack, Metric, run_recorded, run_deferred, dlq_recorded,
  World, Result, ok, err, M, ◌>>=◌, ◌>>◌, pure, fail, try, quietly, with_context, lift, time_now,
  new_id, id_string, send, record_metric,
}
use go_chatgpt_tasks.Task.Repo.{
  save_run, persist_run_transition, try_mark_run_running, find_run_by_id, list_runs_by_job,
  append_event, find_children,
}
use go_chatgpt_tasks.Task.Quotas.{get}

abbrev pub max_attempts : ℕ
max_attempts = 3

-- QueuedMessage of ports.go.
pub record QueuedMessage : Type 0 where
  pub stream_id : Text
  pub msg : JobRunMsg

-- The worker's ports that may be nil are options: `quota` is the quota repository with its defaults.
-- `exec` is the Executor port.
pub record Worker : Type 0 where
  pub quota : Option Quota
  pub exec : JobRun → M (Unit {0})
  pub metered : Bool

abbrev metric : Worker → Metric → M (Unit {0})
metric k m = if k.metered then record_metric m else pure tt

-- NewRunEvent(run.TenantID(), run.JobID(), run.ID(), run.Status(), type, payload).
unfoldable pub event_of : JobRun → EventType → Payload → M RunEvent
event_of r type payload = do
  id ← new_id
  now ← time_now
  pure (new_run_event id now r.tenant_id r.job_id r.id r.status type payload)

unfoldable pub append_event_of : JobRun → EventType → Payload → M (Unit {0})
append_event_of r type payload = event_of r type payload >>= append_event

unfoldable pub persist_transition : JobRun → EventType → Payload → M (Unit {0})
persist_transition r type payload = event_of r type payload >>= persist_run_transition r

-- The message that a run is enqueued with.
unfoldable pub msg_of : JobRun → ℕ → M JobRunMsg
msg_of r attempts = do
  run_id ← id_string r.id
  tenant_id ← id_string r.tenant_id
  pure (record {
    job_run_id = run_id;
    tenant_id = tenant_id;
    idempotency_key = r.idempotency_key;
    attempts = attempts;
  })

-- One round of the loop of enqueueChildren; its error is what the round logs before `continue`.
unfoldable pub enqueue_child : JobRun → Job → M (Unit {0})
enqueue_child parent child = do
  counted ← list_runs_by_job child.tenant_id child.id (new_pagination (pos 1) (pos 0))
  scheduled_at ← time_now
  id ← new_id
  now ← time_now
  key ← run_key
  run ← lift (new_job_run key id now child.tenant_id child.id (counted.1 + 1) scheduled_at)
  now ← time_now
  run ← lift (mark_queued now run)
  save_run run
  msg ← msg_of run 0
  send (enqueue msg)
  parent_id ← id_string parent.job_id
  append_event_of run child_enqueued (some ((codes "parent_job_id", text parent_id) ∷ []))

unfoldable pub enqueue_all : JobRun → List Job → M (Unit {0})
enqueue_all parent [] = pure tt
enqueue_all parent (c ∷ cs) = quietly (enqueue_child parent c) >> enqueue_all parent cs

-- enqueueChildren, whose errors are logged and change nothing for the caller.
unfoldable pub enqueue_children : JobRun → M (Unit {0})
enqueue_children parent = quietly (find_children parent.job_id parent.status >>= enqueue_all parent)

abbrev execution_error : Text
execution_error = codes "execution_error"

-- The branch `run.Attempts()+1 >= maxAttempts` of handleFailure.
unfoldable pub give_up : Worker → QueuedMessage → JobRun → Error → M (Unit {0})
give_up k qm r e = do
  now ← time_now
  r ← lift (mark_failed now (set_error execution_error (message e) r))
  let payload : Payload =
      some
        ((codes "error_code", text r.error_code) ∷ (codes "error_message", text r.error_msg) ∷ [])
  persist_transition r job_run_failed payload
  append_event_of r job_run_dlq payload
  enqueue_children r
  send (dead_letter qm.msg)
  metric k (run_recorded r.status)
  metric k dlq_recorded
  quietly (send (ack qm.stream_id))

-- The other branch: the run is put back for another attempt.
unfoldable pub schedule_retry : Worker → QueuedMessage → JobRun → Error → M (Unit {0})
schedule_retry k qm r e = do
  now ← time_now
  r ← lift (mark_retry now (set_error execution_error (message e) r))
  persist_transition r job_run_retry
      (some ((codes "attempt", int (pos r.attempts)) ∷ (codes "error", text (message e)) ∷ []))
  metric k (run_recorded r.status)
  msg ← msg_of r r.attempts
  send (enqueue msg)
  append_event_of r job_run_enqueued none
  quietly (send (ack qm.stream_id))

unfoldable pub handle_failure : Worker → QueuedMessage → JobRun → Error → M (Unit {0})
handle_failure k qm r e =
    if leb max_attempts (r.attempts + 1) then give_up k qm r e else schedule_retry k qm r e

abbrev acquire_with : Option Quota → JobRun → RunEvent → M Bool
acquire_with none r event = pure true
acquire_with (some defaults) r event = do
  quota ← with_context (codes "get tenant quota") (get defaults r.tenant_id)
  try_mark_run_running r event quota.max_concurrent_runs

unfoldable pub acquire_run_slot : Worker → JobRun → RunEvent → M Bool
acquire_run_slot k r event = acquire_with k.quota r event

-- What follows `w.exec.Execute(ctx, run)`.
abbrev finish_run : Worker → QueuedMessage → JobRun → Result (Unit {0}) → M (Unit {0})
finish_run k qm r (err e) = handle_failure k qm r e
finish_run k qm r (ok _) = do
  now ← time_now
  r ← lift (mark_success now r)
  persist_transition r job_run_succeeded none
  enqueue_children r
  metric k (run_recorded r.status)
  quietly (send (ack qm.stream_id))

-- `if w.quota == nil { persistTransition }`.
abbrev persist_started : Option Quota → JobRun → RunEvent → M (Unit {0})
persist_started none r event = persist_run_transition r event
persist_started (some q) r event = pure tt

abbrev run_acquired : Worker → QueuedMessage → JobRun → RunEvent → Bool → M (Unit {0})
run_acquired k qm r event false = metric k (run_deferred (codes "max_concurrent_runs"))
run_acquired k qm r event true = do
  persist_started k.quota r event
  result ← try (k.exec r)
  finish_run k qm r result

abbrev start_marked : Worker → QueuedMessage → JobRun → M (Unit {0})
start_marked k qm r = do
  event ← event_of r job_run_started none
  acquired ← acquire_run_slot k r event
  run_acquired k qm r event acquired

-- `if err := run.MarkRunning(); err != nil { ack }`.
abbrev marked : Worker → QueuedMessage → Result JobRun → M (Unit {0})
marked k qm (err e) = quietly (send (ack qm.stream_id))
marked k qm (ok r) = start_marked k qm r

unfoldable pub start : Worker → QueuedMessage → JobRun → M (Unit {0})
start k qm r = do now ← time_now; result ← try (lift (mark_running now r)); marked k qm result

-- A message for a run that is running: a reclaimed one is recovered, a fresh one is a duplicate.
abbrev running_again : Worker → QueuedMessage → JobRun → Bool → M (Unit {0})
running_again k qm r true = handle_failure k qm r (sentinel worker_stalled)
running_again k qm r false = quietly (send (ack qm.stream_id))

-- The guards on the status, in their order.
abbrev dispatch : Status → Worker → QueuedMessage → Bool → JobRun → M (Unit {0})
dispatch running k qm reclaimed r = running_again k qm r reclaimed
dispatch queued k qm reclaimed r = start k qm r
dispatch retry k qm reclaimed r = start k qm r
dispatch _ k qm reclaimed r = quietly (send (ack qm.stream_id))

unfoldable pub process_run : Worker → QueuedMessage → Bool → JobRun → M (Unit {0})
process_run k qm reclaimed r = dispatch r.status k qm reclaimed r

abbrev process_id : Worker → QueuedMessage → Bool → Option Uuid → M (Unit {0})
process_id k qm reclaimed none = quietly (send (ack qm.stream_id))
process_id k qm reclaimed (some id) = find_run_by_id id >>= process_run k qm reclaimed

unfoldable pub process : Worker → QueuedMessage → Bool → M (Unit {0})
process k qm reclaimed w = process_id k qm reclaimed (w.env.uuid_parse qm.msg.job_run_id) w
