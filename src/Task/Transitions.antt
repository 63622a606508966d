-- ===== src/Task/Transitions.antt =====
-- internal/task/domain.go: what creates and moves a job run. A method on *JobRun returns the error,
-- or the run as it leaves it; `now` is its reading of time.Now().UTC().
use go_chatgpt_tasks.Base.{
  ℕ, ◌+◌, Bool, true, false, ◌||◌, ◌==◌, ltb, if◌then◌else◌, List, [], map, none, Text,
}
use go_chatgpt_tasks.Clock.{Time, zero_time, is_zero_time, unix, truncate_hour}
use go_chatgpt_tasks.Base.Int.{ℤ}
use go_chatgpt_tasks.Task.Errors.{Sentinel, invalid_status_transition, invalid_schedule}
use go_chatgpt_tasks.Task.Domain.{
  Uuid, uuid_nil, Kind, Status, pending, queued, running, success, retry, failed, cancelled,
  EventType, Job, JobRun, Payload, RunEvent, is_terminal, is_running,
}

pub data Outcome {ℓ} (A : Type ℓ) : Type ℓ where
  ok : A → Outcome A
  err : Sentinel → Outcome A

unfoldable pub bucket_of : Time → ℤ
bucket_of t = unix (truncate_hour t)

-- `IsZero` of the identifier types.
abbrev pub is_nil : Uuid → Bool
is_nil u = u == uuid_nil

-- NewJobRun with the identifier that shared.NewJobRunID returns, the reading of the clock, and the
-- idempotency key `jobID.String() + ":" + strconv.Itoa(sequence)` as a function of the two.
unfoldable pub new_job_run :
    (Uuid → ℕ → Text) → Uuid → Time → Uuid → Uuid → ℕ → Time → Outcome JobRun
unfolding bucket_of
new_job_run run_key id now tenant_id job_id sequence scheduled_at =
    if is_nil tenant_id || is_nil job_id || ltb sequence 1 || is_zero_time scheduled_at
    then err invalid_schedule
    else ok (record {
      id = id;
      tenant_id = tenant_id;
      job_id = job_id;
      sequence = sequence;
      status = pending;
      scheduled_at = scheduled_at;
      time_bucket = bucket_of scheduled_at;
      attempts = 0;
      error_code = [];
      error_msg = [];
      started_at = zero_time;
      completed_at = zero_time;
      failed_at = zero_time;
      created_at = now;
      updated_at = now;
      schedule_type = Kind.other [];
      recurrence_rule = [];
      local_time = [];
      timezone_id = [];
      idempotency_key = run_key job_id sequence;
      parent_job_id = none;
      child_job_ids = [];
    })

unfoldable pub new_run_event :
    Uuid → Time → Uuid → Uuid → Uuid → Status → EventType → Payload → RunEvent
new_run_event id now tenant_id job_id run_id s event_type payload = record {
  id = id;
  tenant_id = tenant_id;
  job_id = job_id;
  job_run_id = run_id;
  status = s;
  event_type = event_type;
  payload = payload;
  created_at = now;
}

-- The guards `r.status != A && r.status != B`, by the statuses that pass them.
abbrev can_queue : Status → Bool
can_queue pending = true
can_queue retry = true
can_queue _ = false

abbrev can_run : Status → Bool
can_run queued = true
can_run retry = true
can_run _ = false

abbrev can_fail : Status → Bool
can_fail running = true
can_fail retry = true
can_fail _ = false

abbrev is_queued : Status → Bool
is_queued queued = true
is_queued _ = false

module _ (now : Time) (r : JobRun) where
  unfoldable pub mark_queued : Outcome JobRun
  mark_queued =
      if can_queue r.status
      then ok (record r { status = queued; updated_at = now })
      else err invalid_status_transition

  unfoldable pub mark_pending : Outcome JobRun
  mark_pending =
      if is_queued r.status
      then ok (record r { status = pending; updated_at = now })
      else err invalid_status_transition

  unfoldable pub mark_running : Outcome JobRun
  mark_running =
      if can_run r.status
      then ok (record r { status = running; started_at = now; updated_at = now })
      else err invalid_status_transition

  unfoldable pub mark_success : Outcome JobRun
  mark_success =
      if is_running r.status
      then ok (record r { status = success; completed_at = now; updated_at = now })
      else err invalid_status_transition

  unfoldable pub mark_retry : Outcome JobRun
  mark_retry =
      if is_running r.status
      then ok (record r {
        status = retry;
        attempts = r.attempts + 1;
        failed_at = now;
        updated_at = now;
      })
      else err invalid_status_transition

  unfoldable pub mark_failed : Outcome JobRun
  mark_failed =
      if can_fail r.status
      then ok (record r { status = failed; failed_at = now; updated_at = now })
      else err invalid_status_transition

  unfoldable pub cancel : Outcome JobRun
  cancel =
      if is_terminal r
      then err invalid_status_transition
      else ok (record r { status = cancelled; completed_at = now; updated_at = now })

unfoldable pub set_error : Text → Text → JobRun → JobRun
set_error code msg r = record r { error_code = code; error_msg = msg }

unfoldable pub set_schedule : Job → JobRun → JobRun
set_schedule j r = record r {
  schedule_type = j.schedule_type;
  recurrence_rule = j.recurrence_rule;
  local_time = j.local_time;
  timezone_id = j.timezone_id;
  parent_job_id = j.parent_job_id;
}

unfoldable pub set_children : List Job → JobRun → JobRun
set_children children r = record r { child_job_ids = map (λ (j : Job). j.id) children }
