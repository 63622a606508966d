-- ===== src/Task/Lifecycle.antt =====
-- internal/task/domain.go: the statuses of a run as a state machine. `Move` is the diagram that the
-- methods MarkQueued … Cancel are meant to implement.
use go_chatgpt_tasks.Base.{ℕ, ◌+◌, ◌≡◌, refl, true, false, List, [], ◌∷◌, arith}
use go_chatgpt_tasks.Clock.{Time}
use go_chatgpt_tasks.Task.Errors.{invalid_status_transition}
use go_chatgpt_tasks.Task.Domain.{
  Status, pending, queued, running, success, retry, failed, cancelled, JobRun, is_terminal_status,
  is_terminal,
}
use go_chatgpt_tasks.Task.Transitions.{
  Outcome, ok, err, mark_queued, mark_pending, mark_running, mark_success, mark_retry, mark_failed,
  cancel,
}

pub data Op : Type 0 where
  queues restores starts succeeds retries fails cancels : Op

unfoldable pub apply : Op → Time → JobRun → Outcome JobRun
apply queues = mark_queued
apply restores = mark_pending
apply starts = mark_running
apply succeeds = mark_success
apply retries = mark_retry
apply fails = mark_failed
apply cancels = cancel

pub data Move : Op → Status → Status → Type 0 where
  queue_pending : Move queues pending queued
  queue_retry : Move queues retry queued
  restore : Move restores queued pending
  start : Move starts queued running
  start_retry : Move starts retry running
  succeed : Move succeeds running success
  put_back : Move retries running retry
  fail : Move fails running failed
  fail_retry : Move fails retry failed
  cancel_any : (s : Status) → is_terminal_status s ≡ false → Move cancels s cancelled

-- One more failed attempt is counted by MarkRetry alone.
abbrev pub counted : Op → ℕ
counted retries = 1
counted _ = 0

ruleset moves = (
  queue_pending, queue_retry, restore, start, start_retry, succeed, put_back, fail, fail_retry,
  cancel_any,
)

-- What a method leaves alone.
pub record SameRun (r s : JobRun) : Type 0 where
  pub id : s.id ≡ r.id
  pub tenant_id : s.tenant_id ≡ r.tenant_id
  pub job_id : s.job_id ≡ r.job_id
  pub sequence : s.sequence ≡ r.sequence
  pub scheduled_at : s.scheduled_at ≡ r.scheduled_at
  pub time_bucket : s.time_bucket ≡ r.time_bucket
  pub idempotency_key : s.idempotency_key ≡ r.idempotency_key
  pub created_at : s.created_at ≡ r.created_at

moved :
    (op : Op) (now : Time) (r : JobRun) {s : JobRun}
    → apply op now r ≡ ok s
    → Move op r.status s.status
unfolding apply mark_queued mark_pending mark_running mark_success mark_retry mark_failed cancel
moved queues now r e = grind (arith, moves)
moved _ now r e = grind (arith, moves)

noted :
    (op : Op) (now : Time) (r : JobRun) {s : JobRun}
    → apply op now r ≡ ok s
    → (s.attempts ≡ r.attempts + counted op) × (s.updated_at ≡ now)
unfolding apply mark_queued mark_pending mark_running mark_success mark_retry mark_failed cancel
noted queues now r e = ground arith
noted _ now r e = ground arith

kept : (op : Op) (now : Time) (r : JobRun) {s : JobRun} → apply op now r ≡ ok s → SameRun r s
unfolding apply mark_queued mark_pending mark_running mark_success mark_retry mark_failed cancel
kept queues now r e = ground arith
kept _ now r e = ground arith

-- A method that succeeds makes a move of the diagram, counts an attempt if it is MarkRetry, notes
-- the time, and leaves the run's identity and schedule alone.
pub apply-Move :
    (op : Op) (now : Time) (r : JobRun) {s : JobRun}
    → apply op now r ≡ ok s
    → Move op r.status s.status
      × (s.attempts ≡ r.attempts + counted op)
      × (s.updated_at ≡ now)
      × SameRun r s
apply-Move op now r e =
    let (counts, at) = noted op now r e in (moved op now r e, counts, at, kept op now r e)

-- Where the diagram has a move, the method succeeds and makes it.
pub Move-apply :
    (op : Op) (now : Time) (r : JobRun) {a b : Status}
    → Move op a b
    → r.status ≡ a
    → (s : JobRun) × (apply op now r ≡ ok s) × (s.status ≡ b)
unfolding apply mark_queued mark_pending mark_running mark_success mark_retry mark_failed cancel
Move-apply queues now r queue_pending e =
    (record r { status = queued; updated_at = now }, rw e, refl)
Move-apply queues now r queue_retry e = (record r { status = queued; updated_at = now }, rw e, refl)
Move-apply restores now r restore e = (record r { status = pending; updated_at = now }, rw e, refl)
Move-apply starts now r start e =
    (record r { status = running; started_at = now; updated_at = now }, rw e, refl)
Move-apply starts now r start_retry e =
    (record r { status = running; started_at = now; updated_at = now }, rw e, refl)
Move-apply succeeds now r succeed e =
    (record r { status = success; completed_at = now; updated_at = now }, rw e, refl)
Move-apply retries now r put_back e = (
  record r { status = retry; attempts = r.attempts + 1; failed_at = now; updated_at = now },
  rw e,
  refl,
)
Move-apply fails now r fail e =
    (record r { status = failed; failed_at = now; updated_at = now }, rw e, refl)
Move-apply fails now r fail_retry e =
    (record r { status = failed; failed_at = now; updated_at = now }, rw e, refl)
Move-apply cancels now r (cancel_any s live) e =
    (record r { status = cancelled; completed_at = now; updated_at = now }, rw (e, live), refl)

-- No method moves a run that has succeeded, failed or been cancelled.
pub apply-terminal :
    (op : Op) (now : Time) (r : JobRun)
    → is_terminal r ≡ true
    → apply op now r ≡ err invalid_status_transition
unfolding apply mark_queued mark_pending mark_running mark_success mark_retry mark_failed cancel
apply-terminal op now r e = ground arith

-- A method that fails leaves the run as it was.
abbrev after : Outcome JobRun → JobRun → JobRun
after (ok s) r = s
after (err e) r = r

-- A history of calls of the methods, each at its time.
unfoldable pub replay : List (Time × Op) → JobRun → JobRun
replay [] r = r
replay ((now, op) ∷ ops) r = replay ops (after (apply op now r) r)

-- A finished run is never changed again, by any history of calls.
pub replay-terminal :
    (ops : List (Time × Op)) (r : JobRun) → is_terminal r ≡ true → replay ops r ≡ r
unfolding replay
replay-terminal [] r e = refl
replay-terminal ((now, op) ∷ ops) r e = rw (apply-terminal op now r e) (replay-terminal ops r e)
