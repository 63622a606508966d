-- ===== src/Tests/Sample.antt =====
-- One tenant with one job, and an environment in which every call succeeds.
use go_chatgpt_tasks.Base.{ℕ, ◌+◌, ◌*◌, List, [], ◌∷◌, Option, none, some, false, Text, codes}
use go_chatgpt_tasks.Base.Int.{pos}
use go_chatgpt_tasks.Clock.{Time, hour, second}
use go_chatgpt_tasks.Task.Domain.{Uuid, one_off, generic_llm, Status, Quota}
use go_chatgpt_tasks.Task.Rows.{JobRow, JobRunRow}
use go_chatgpt_tasks.Sql.Tables.{Tables}
use go_chatgpt_tasks.Task.Effect.{Reply, done, Env, World}
use go_chatgpt_tasks.Task.Worker.{QueuedMessage}

-- An identifier is printed as a text of one character.
abbrev pub one_char : Uuid → Text
one_char u = u ∷ []

abbrev pub from_char : Text → Option Uuid
from_char [] = none
from_char (u ∷ []) = some u
from_char (u ∷ v ∷ s) = none

abbrev pub noon : Time
noon = 62135596800 * second + 12 * hour

-- The clock advances by a second with every question.
abbrev pub env_of : (ℕ → Reply) → Env
env_of reply = record {
  clock = λ n. noon + n * second;
  new_uuid = λ n. 1000 + n;
  uuid_string = one_char;
  uuid_parse = from_char;
  reply = reply;
}

abbrev pub job_row : JobRow
job_row = record {
  id = 5;
  tenant_id = 7;
  user_id = 8;
  kind = one_off;
  description = codes "say hello";
  interval_seconds = pos 0;
  schedule_type = one_off;
  scheduled_at_utc = some noon;
  recurrence_rule = none;
  local_time = none;
  timezone_id = codes "UTC";
  original_user_text = none;
  side_effecting = false;
  idempotency_scope = codes "job_run";
  parent_job_id = none;
  trigger_on_parent_status = none;
  job_type = generic_llm;
  created_at = noon;
  updated_at = noon;
}

abbrev pub run_row : Uuid → Status → ℕ → JobRunRow
run_row id status attempts = record {
  id = id;
  tenant_id = 7;
  job_id = 5;
  sequence = id;
  status = status;
  scheduled_at = noon;
  time_bucket = pos 43200;
  attempts = attempts;
  idempotency_key = codes "5:1";
  error_code = none;
  error_message = none;
  started_at = none;
  completed_at = none;
  failed_at = none;
  created_at = noon;
  updated_at = noon;
}

abbrev pub tables_of : List JobRunRow → Tables
tables_of runs = record {
  users = [];
  jobs = job_row ∷ [];
  job_runs = runs;
  run_events = [];
  tenant_quotas = [];
  idempotency_records = [];
  tenant_llm_daily_cost = [];
}

abbrev pub world_of : (ℕ → Reply) → List JobRunRow → World
world_of reply runs = record {
  env = env_of reply;
  tick = 0;
  tables = tables_of runs;
  sent = [];
  metrics = [];
}

abbrev pub all_done : ℕ → Reply
all_done n = done

abbrev pub message_for : Uuid → QueuedMessage
message_for id = record {
  stream_id = codes "1-0";
  msg = record {
    job_run_id = one_char id;
    tenant_id = one_char 7;
    idempotency_key = codes "5:1";
    attempts = 0;
  };
}

abbrev pub two_at_once : Quota
two_at_once = record {
  max_jobs_per_hour = pos 10;
  max_active_recurring = pos 5;
  max_concurrent_runs = pos 2;
  max_daily_llm_cost_cents = pos 100;
}
