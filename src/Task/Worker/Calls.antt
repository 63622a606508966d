-- ===== src/Task/Worker/Calls.antt =====
-- The calls that the worker's and the watcher's steps share, and the enqueueing of children: what they
-- keep of the tables.
use go_chatgpt_tasks.Base.{ℕ, ◌≡◌, List, [], ◌∷◌, Text, Bool-cases, inl, inr, arith}
use go_chatgpt_tasks.Clock.{Time}
use go_chatgpt_tasks.Task.Domain.{Uuid, queued, Job, JobRun, EventType, Payload}
use go_chatgpt_tasks.Task.Transitions.{Outcome, new_job_run, mark_queued}
use go_chatgpt_tasks.Sql.Tables.{Tables}
use go_chatgpt_tasks.Task.Keys.{run_key}
use go_chatgpt_tasks.Task.Effect.{Metric, id_string, quietly, send, ack}
use go_chatgpt_tasks.Task.Effect.Keeps.{
  Any, Keeps, keeps_pure, keeps_bind, keeps_then, keeps_lift, keeps_quietly, keeps_now, keeps_id,
  keeps_send, keeps_metric,
}
use go_chatgpt_tasks.Task.Repo.Keeps.{
  EventsFree, Inserts, append_event-Keeps, save_run-Keeps, list_runs_by_job-Keeps,
  find_children-Keeps,
}
use go_chatgpt_tasks.Task.Worker.{
  Worker, QueuedMessage, metric, event_of, append_event_of, msg_of, enqueue_child, enqueue_all,
  enqueue_children,
}

-- A child's run is queued and has no attempts behind it.
child_run :
    (key : Uuid → ℕ → Text) (id : Uuid) (now later : Time) (tenant job_id : Uuid) (n : ℕ)
    (at : Time) (r s : JobRun)
    → new_job_run key id now tenant job_id n at ≡ Outcome.ok r
    → mark_queued later r ≡ Outcome.ok s
    → (s.status ≡ queued) × (s.attempts ≡ 0)
unfolding new_job_run mark_queued
child_run key id now later tenant job_id n at r s e f = ground arith

module _ (P : Tables → Type 0) where
  pub event_of-Keeps : (r : JobRun) (t : EventType) (p : Payload) → Keeps P (event_of r t p) Any
  unfolding event_of
  event_of-Keeps r t p =
      keeps_bind P _ _ (keeps_id P)
        λ id _. keeps_bind P _ _ (keeps_now P) λ now _. keeps_pure P _ tt

  pub msg_of-Keeps : (r : JobRun) (n : ℕ) → Keeps P (msg_of r n) Any
  unfolding msg_of id_string
  msg_of-Keeps r n = record { apply = λ w h. (h, tt) }

  pub run_key-Keeps : Keeps P run_key Any
  unfolding run_key
  run_key-Keeps = record { apply = λ w h. (h, tt) }

  pub id_string-Keeps : (u : Uuid) → Keeps P (id_string u) Any
  unfolding id_string
  id_string-Keeps u = record { apply = λ w h. (h, tt) }

  pub metric-Keeps : (k : Worker) (m : Metric) → Keeps P (metric k m) Any
  metric-Keeps k m = elim (Bool-cases k.metered) [
    | inl e ↦ rw e (keeps_metric P m)
    | inr e ↦ rw e (keeps_pure P _ tt)
  ]

  pub acked-Keeps : (qm : QueuedMessage) → Keeps P (quietly (send (ack qm.stream_id))) Any
  acked-Keeps qm = keeps_quietly P _ (keeps_send P _)

  module _ (free : EventsFree P) where
    pub append_event_of-Keeps :
        (r : JobRun) (t : EventType) (p : Payload) → Keeps P (append_event_of r t p) Any
    unfolding append_event_of
    append_event_of-Keeps r t p =
        keeps_bind P _ _ (event_of-Keeps r t p) (λ e _. append_event-Keeps P free e)

    module _ (inserts : (r : JobRun) → r.status ≡ queued → r.attempts ≡ 0 → Inserts P r) where
      enqueue_child-Keeps :
          (parent : JobRun) (child : Job) → Keeps P (enqueue_child parent child) Any
      unfolding enqueue_child
      enqueue_child-Keeps parent child =
          keeps_bind P _ _ (list_runs_by_job-Keeps P _ _ _) λ counted _.
            keeps_bind P _ _ (keeps_now P) λ at _. keeps_bind P _ _ (keeps_id P) λ id _.
              keeps_bind P _ _ (keeps_now P) λ now _. keeps_bind P _ _ run_key-Keeps λ key _.
                keeps_bind P _ _ (keeps_lift P _) λ r e. keeps_bind P _ _ (keeps_now P) λ later _.
                  keeps_bind P _ _ (keeps_lift P _) λ s f.
                    let c = child_run key id now later child.tenant_id child.id _ at r s e f in
                    keeps_then P _ _ (save_run-Keeps P s (inserts s c.0 c.1)) (
                      keeps_bind P _ _ (msg_of-Keeps s 0) λ msg _.
                        keeps_then P _ _ (keeps_send P _)
                          (keeps_bind P _ _ (id_string-Keeps _) λ u _. append_event_of-Keeps s _ _))

      enqueue_all-Keeps : (parent : JobRun) (cs : List Job) → Keeps P (enqueue_all parent cs) Any
      unfolding enqueue_all
      enqueue_all-Keeps parent [] = keeps_pure P _ tt
      enqueue_all-Keeps parent (c ∷ cs) =
          keeps_then P _ _ (keeps_quietly P _ (enqueue_child-Keeps parent c))
            (enqueue_all-Keeps parent cs)

      pub enqueue_children-Keeps : (parent : JobRun) → Keeps P (enqueue_children parent) Any
      unfolding enqueue_children
      enqueue_children-Keeps parent =
          keeps_quietly P {Q = Any} _
            (keeps_bind P _ _ (find_children-Keeps P _ _) (λ cs _. enqueue_all-Keeps parent cs))
