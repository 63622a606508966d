-- ===== src/Task/Worker/Invariants.antt =====
-- What a property of the tables must satisfy for `process` to keep it: one law for each kind of
-- write, and what is known of the run that is written.
use go_chatgpt_tasks.Base.{
  ◌+◌, ◌≡◌, refl, Bool, true, false, leb, List, Option, none, some, Text, Bool-cases, inl, inr,
}
use go_chatgpt_tasks.Base.Int.{ℤ}
use go_chatgpt_tasks.Clock.{Time}
use go_chatgpt_tasks.Task.Errors.{Error}
use go_chatgpt_tasks.Task.Domain.{
  Uuid, Status, queued, running, retry, Quota, JobRun, RunEvent, EventType, Payload,
}
use go_chatgpt_tasks.Task.Transitions.{
  Outcome, mark_running, mark_success, mark_retry, mark_failed, set_error,
}
use go_chatgpt_tasks.Task.Rows.{JobRunRow}
use go_chatgpt_tasks.Sql.Tables.{Tables, QuotaRow}
use go_chatgpt_tasks.Sql.Records.{get_tenant_quota}
use go_chatgpt_tasks.Task.Effect.{World, Result, ok, err, lift}
use go_chatgpt_tasks.Task.Effect.Keeps.{
  On, Any, Any-On, Keeps, keeps_pure, keeps_bind, keeps_then, keeps_lift, keeps_context, keeps_try,
  keeps_now, keeps_send, keeps_query,
}
use go_chatgpt_tasks.Task.Repo.Keeps.{
  EventsFree, Inserts, Updates, Claims, Reads, persist_run_transition-Keeps,
  try_mark_run_running-Keeps, find_run_by_id-Keeps,
}
use go_chatgpt_tasks.Task.Quotas.{quota_of_row, get}
use go_chatgpt_tasks.Task.Worker.{
  Worker, QueuedMessage, max_attempts, persist_transition, give_up, schedule_retry, handle_failure,
  acquire_with, acquire_run_slot, finish_run, persist_started, run_acquired, marked, start,
  running_again, dispatch, process_run, process_id, process,
}
use go_chatgpt_tasks.Task.Worker.Calls.{
  event_of-Keeps, append_event_of-Keeps, msg_of-Keeps, metric-Keeps, acked-Keeps,
  enqueue_children-Keeps,
}

-- `Held` is known of a run as it is read, `Active` of one that this worker runs, `Writable` of one
-- whose columns are written, `Fits` of a limit as it is read.
pub record Laws (k : Worker) (P : Tables → Type 0) : Type 1 where
  pub Held : JobRun → Type 0
  pub Active : JobRun → Type 0
  pub Writable : JobRun → Type 0
  pub Fits : Uuid → ℤ → Type 0
  pub free : EventsFree P
  pub inserts : (r : JobRun) → r.status ≡ queued → r.attempts ≡ 0 → Inserts P r
  pub updates : (r : JobRun) → Writable r → Updates P r
  pub claims : (r : JobRun) (limit : ℤ) → Active r → Fits r.tenant_id limit → Claims P r limit
  pub limits :
      (t : Tables) (tenant : Uuid) (defaults : Quota)
      → k.quota ≡ some defaults
      → P t
      → Fits tenant
          (quota_of_row defaults (get_tenant_quota tenant t.tenant_quotas)).max_concurrent_runs
  pub begins : (now : Time) (r s : JobRun) → Held r → mark_running now r ≡ Outcome.ok s → Active s
  pub resumes : (r : JobRun) → Held r → r.status ≡ running → Active r
  pub unlimited : (r : JobRun) → k.quota ≡ none → Active r → Writable r
  pub succeeds :
      (now : Time) (r s : JobRun) → Active r → mark_success now r ≡ Outcome.ok s → Writable s
  pub fails :
      (now : Time) (code msg : Text) (r s : JobRun)
      → Active r
      → leb max_attempts (r.attempts + 1) ≡ true
      → mark_failed now (set_error code msg r) ≡ Outcome.ok s
      → Writable s
  pub retries :
      (now : Time) (code msg : Text) (r s : JobRun)
      → Active r
      → leb max_attempts (r.attempts + 1) ≡ false
      → mark_retry now (set_error code msg r) ≡ Outcome.ok s
      → Writable s
  pub executes : (r : JobRun) → Active r → Keeps P (k.exec r) Any

module _ (k : Worker) (P : Tables → Type 0) (l : Laws k P) where
  open l use {Held, Active, Writable, Fits, free}

  persist_transition-Keeps :
      (r : JobRun)
      → Writable r
      → (t : EventType) (p : Payload) → Keeps P (persist_transition r t p) Any
  unfolding persist_transition
  persist_transition-Keeps r h t p =
      keeps_bind P _ _ (event_of-Keeps P r t p)
        (λ e _. persist_run_transition-Keeps P free r (l.updates r h) e)

  give_up-Keeps :
      (qm : QueuedMessage) (r : JobRun) (e : Error)
      → Active r
      → leb max_attempts (r.attempts + 1) ≡ true
      → Keeps P (give_up k qm r e) Any
  unfolding give_up
  give_up-Keeps qm r e a limit = keeps_bind P _ _ (keeps_now P) λ now _.
      keeps_bind P _ _ (keeps_lift P _) λ s f.
        keeps_then P _ _ (persist_transition-Keeps s (l.fails now _ _ r s a limit f) _ _) (
          keeps_then P _ _ (append_event_of-Keeps P free s _ _) (
            keeps_then P _ _ (enqueue_children-Keeps P free l.inserts s) (
              keeps_then P _ _ (keeps_send P _) (
                keeps_then P _ _ (metric-Keeps P k _)
                  (keeps_then P _ _ (metric-Keeps P k _) (acked-Keeps P qm))))))

  schedule_retry-Keeps :
      (qm : QueuedMessage) (r : JobRun) (e : Error)
      → Active r
      → leb max_attempts (r.attempts + 1) ≡ false
      → Keeps P (schedule_retry k qm r e) Any
  unfolding schedule_retry
  schedule_retry-Keeps qm r e a limit = keeps_bind P _ _ (keeps_now P) λ now _.
      keeps_bind P _ _ (keeps_lift P _) λ s f.
        keeps_then P _ _ (persist_transition-Keeps s (l.retries now _ _ r s a limit f) _ _) (
          keeps_then P _ _ (metric-Keeps P k _) (
            keeps_bind P _ _ (msg_of-Keeps P s _) λ msg _.
              keeps_then P _ _ (keeps_send P _)
                (keeps_then P _ _ (append_event_of-Keeps P free s _ _) (acked-Keeps P qm))))

  pub handle_failure-Keeps :
      (qm : QueuedMessage) (r : JobRun) (e : Error)
      → Active r
      → Keeps P (handle_failure k qm r e) Any
  unfolding handle_failure
  handle_failure-Keeps qm r e a = elim (Bool-cases (leb max_attempts (r.attempts + 1))) [
    | inl over ↦ rw over (give_up-Keeps qm r e a over)
    | inr left ↦ rw left (schedule_retry-Keeps qm r e a left)
  ]

  acquire_with-Keeps :
      (q : Option Quota)
      → k.quota ≡ q
      → (r : JobRun) → Active r
      → (event : RunEvent) → Keeps P (acquire_with q r event) Any
  acquire_with-Keeps none e r a event = keeps_pure P _ tt
  acquire_with-Keeps (some defaults) e r a event =
      keeps_bind P {Q = λ (q : Quota). Fits r.tenant_id q.max_concurrent_runs} _ _
        (keeps_context P _ _ (get-Keeps r defaults e))
        λ quota fits. try_mark_run_running-Keeps P free r _ (l.claims r _ a fits) event
    where
      get-Keeps :
          (r : JobRun) (defaults : Quota)
          → k.quota ≡ some defaults
          → Keeps P
              (get defaults r.tenant_id)
              (λ (q : Quota). Fits r.tenant_id q.max_concurrent_runs)
      get-Keeps r defaults e =
          unfold get in
          keeps_context P _ _ (keeps_query P _ (λ t h. l.limits t r.tenant_id defaults e h))

  persist_started-Keeps :
      (q : Option Quota)
      → k.quota ≡ q
      → (r : JobRun) → Active r
      → (event : RunEvent) → Keeps P (persist_started q r event) Any
  persist_started-Keeps none e r a event =
      persist_run_transition-Keeps P free r (l.updates r (l.unlimited r e a)) event
  persist_started-Keeps (some q) e r a event = keeps_pure P _ tt

  finish_run-Keeps :
      (qm : QueuedMessage) (r : JobRun)
      → Active r
      → (result : Result (Unit {0})) → Keeps P (finish_run k qm r result) Any
  finish_run-Keeps qm r a (err e) = handle_failure-Keeps qm r e a
  finish_run-Keeps qm r a (ok _) = keeps_bind P _ _ (keeps_now P) λ now _.
      keeps_bind P _ _ (keeps_lift P _) λ s f.
        keeps_then P _ _ (persist_transition-Keeps s (l.succeeds now r s a f) _ _) (
          keeps_then P _ _ (enqueue_children-Keeps P free l.inserts s)
            (keeps_then P _ _ (metric-Keeps P k _) (acked-Keeps P qm)))

  run_acquired-Keeps :
      (qm : QueuedMessage) (r : JobRun)
      → Active r
      → (event : RunEvent) (b : Bool) → Keeps P (run_acquired k qm r event b) Any
  run_acquired-Keeps qm r a event false = metric-Keeps P k _
  run_acquired-Keeps qm r a event true =
      keeps_then P _ _ (persist_started-Keeps k.quota refl r a event) (
        keeps_bind P _ _ (keeps_try P _ (l.executes r a))
          (λ result _. finish_run-Keeps qm r a result))

  marked-Keeps :
      (qm : QueuedMessage) (o : Result JobRun) → On Active o → Keeps P (marked k qm o) Any
  unfolding acquire_run_slot
  marked-Keeps qm (err e) a = acked-Keeps P qm
  marked-Keeps qm (ok r) a = keeps_bind P _ _ (event_of-Keeps P r _ _) λ event _.
      keeps_bind P _ _ (acquire_with-Keeps k.quota refl r a event)
        (λ b _. run_acquired-Keeps qm r a event b)

  begun-Keeps : (now : Time) (r : JobRun) → Held r → Keeps P (lift (mark_running now r)) Active
  begun-Keeps now r h = record {
    apply = λ w p. strengthen (lift (mark_running now r) w) ((keeps_lift P _).apply w p);
  }
    where
      strengthen :
          (x : Result JobRun × World)
          → P x.1.tables × On (λ s. mark_running now r ≡ Outcome.ok s) x.0
          → P x.1.tables × On Active x.0
      strengthen (ok s, w) p = (p.0, l.begins now r s h p.1)
      strengthen (err e, w) p = (p.0, tt)

  start-Keeps : (qm : QueuedMessage) (r : JobRun) → Held r → Keeps P (start k qm r) Any
  unfolding start
  start-Keeps qm r h =
      keeps_bind P _ _ (keeps_now P)
        λ now _. keeps_bind P _ _ (keeps_try P _ (begun-Keeps now r h)) (λ o a. marked-Keeps qm o a)

  running_again-Keeps :
      (qm : QueuedMessage) (r : JobRun) (b : Bool) → Active r → Keeps P (running_again k qm r b) Any
  running_again-Keeps qm r true a = handle_failure-Keeps qm r _ a
  running_again-Keeps qm r false a = acked-Keeps P qm

  dispatch-Keeps :
      (s : Status) (qm : QueuedMessage) (b : Bool) (r : JobRun)
      → r.status ≡ s
      → Held r
      → Keeps P (dispatch s k qm b r) Any
  dispatch-Keeps running qm b r e h = running_again-Keeps qm r b (l.resumes r h e)
  dispatch-Keeps queued qm b r e h = start-Keeps qm r h
  dispatch-Keeps retry qm b r e h = start-Keeps qm r h
  dispatch-Keeps _ qm b r e h = acked-Keeps P qm

  pub process_run-Keeps :
      (qm : QueuedMessage) (b : Bool) (r : JobRun) → Held r → Keeps P (process_run k qm b r) Any
  unfolding process_run
  process_run-Keeps qm b r h = dispatch-Keeps r.status qm b r refl h

  process_id-Keeps :
      Reads P Held
      → (qm : QueuedMessage) (b : Bool) (o : Option Uuid) → Keeps P (process_id k qm b o) Any
  process_id-Keeps reads qm b none = acked-Keeps P qm
  process_id-Keeps reads qm b (some id) =
      keeps_bind P _ _ (find_run_by_id-Keeps P Held reads id) (λ r h. process_run-Keeps qm b r h)

  -- A property with these laws survives the processing of any message, whatever goes wrong.
  pub process-Keeps : Reads P Held → (qm : QueuedMessage) (b : Bool) → Keeps P (process k qm b) Any
  unfolding process
  process-Keeps reads qm b = record {
    apply = λ w h. (process_id-Keeps reads qm b (w.env.uuid_parse qm.msg.job_run_id)).apply w h;
  }

-- An executor that leaves the runs and the quotas alone keeps every property of the two.
abbrev pub LeavesRuns : Worker → Type 0
LeavesRuns k =
    (r : JobRun) (w : World)
    → ((k.exec r w).1.tables.job_runs ≡ w.tables.job_runs)
      × ((k.exec r w).1.tables.tenant_quotas ≡ w.tables.tenant_quotas)

pub LeavesRuns-Keeps :
    (k : Worker) (P : List JobRunRow → List QuotaRow → Type 0)
    → LeavesRuns k
    → (r : JobRun) → Keeps (λ t. P t.job_runs t.tenant_quotas) (k.exec r) Any
LeavesRuns-Keeps k P leaves r = record {
  apply = λ w h. (rw ((leaves r w).0, (leaves r w).1) h, Any-On ((k.exec r w).0));
}
