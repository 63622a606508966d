-- ===== src/Task/Rows/RoundTrip.antt =====
-- internal/task/dto_internal.go: reading back the row of a run or of a job.
use go_chatgpt_tasks.Base.{ℕ, ◌^◌, ◌<◌, ◌≡◌, refl, sym, ap, [], ◌∷◌, none, Text, arith}
use go_chatgpt_tasks.Base.Int.{ℤ, pos, negsuc}
use go_chatgpt_tasks.Clock.{Time, time_to_pg}
use go_chatgpt_tasks.Task.Domain.{Kind, Status, Job, JobRun}
use go_chatgpt_tasks.Task.Rows.{
  string_ptr, string_value, status_ptr, status_value, nullable_time_to_pg, pg_to_time, int32,
  whole_seconds, from_seconds, job_to_insert_params, job_from_sqlc, job_run_to_insert_params,
  job_run_from_row,
}

string_round : (s : Text) → string_value (string_ptr s) ≡ s
string_round [] = refl
string_round (c ∷ s) = refl

time_round : (t : Time) → pg_to_time (nullable_time_to_pg t) ≡ time_to_pg t
time_round t = ground arith

int32-id : (n : ℕ) → n < 2 ^ 31 → int32 n ≡ n
int32-id n lt = omega arith

status_round : (s : Status) → status_value (status_ptr s) ≡ s
status_round (Status.other []) = refl
status_round (Status.other (c ∷ s)) = refl
status_round s = refl

seconds_round : (n : ℤ) → from_seconds (whole_seconds (from_seconds n)) ≡ from_seconds n
seconds_round (pos n) = ground arith
seconds_round (negsuc n) = ground arith

-- A run of numbers below 2 ^ 31 comes back as it was, except that its times are rounded down to
-- microseconds, and for what is no column: its job's schedule, its parent and its children.
pub job_run-round_trip :
    (r : JobRun)
    → r.sequence < 2 ^ 31
    → r.attempts < 2 ^ 31
    → job_run_from_row (job_run_to_insert_params r) ≡ record r {
      scheduled_at = time_to_pg r.scheduled_at;
      started_at = time_to_pg r.started_at;
      completed_at = time_to_pg r.completed_at;
      failed_at = time_to_pg r.failed_at;
      created_at = time_to_pg r.created_at;
      updated_at = time_to_pg r.updated_at;
      schedule_type = Kind.other [];
      recurrence_rule = [];
      local_time = [];
      timezone_id = [];
      parent_job_id = none;
      child_job_ids = [];
    }
unfolding job_run_from_row job_run_to_insert_params
job_run-round_trip r s a =
    rw
      (
        string_round r.error_code,
        string_round r.error_msg,
        time_round r.started_at,
        time_round r.completed_at,
        time_round r.failed_at,
        int32-id r.sequence s,
        int32-id r.attempts a,
      )
      refl

-- A job whose interval is a whole number of seconds comes back as it was, except that its times are
-- rounded down to microseconds.
pub job-round_trip :
    (j : Job) (n : ℤ)
    → j.interval ≡ from_seconds n
    → job_from_sqlc (job_to_insert_params j) ≡ record j {
      scheduled_at_utc = time_to_pg j.scheduled_at_utc;
      created_at = time_to_pg j.created_at;
      updated_at = time_to_pg j.updated_at;
    }
unfolding job_from_sqlc job_to_insert_params
job-round_trip j n e =
    rw
      (
        string_round j.recurrence_rule,
        string_round j.local_time,
        string_round j.original_user_text,
        time_round j.scheduled_at_utc,
        status_round j.trigger_on_parent_status,
        ap (λ d. from_seconds (whole_seconds d)) e,
        seconds_round n,
        sym e,
      )
      refl
