-- ===== src/Task/Errors.antt =====
-- internal/task/errors.go, internal/user/errors.go, and the errors of internal/platform/auth/jwt.go
-- and internal/shared/ids.go; and how errors are wrapped. `errors.Is` looks through the wrapping.
use go_chatgpt_tasks.Base.{ℕ, Bool, false, ◌==◌, ◌++◌, Text, codes}

pub data Sentinel : Type 0 where
  job_not_found job_run_not_found invalid_description invalid_schedule : Sentinel
  invalid_owner invalid_status_transition quota_exceeded invalid_timezone : Sentinel
  invalid_recurrence invalid_job_type invalid_llm_output llm_timeout : Sentinel
  llm_cost_exceeded worker_stalled execution_in_progress deadline_exceeded : Sentinel
  user_not_found email_already_exists invalid_email invalid_password : Sentinel
  invalid_display_name invalid_credentials invalid_token expired_token invalid_id : Sentinel

-- `foreign` is an error made outside the package (a driver's, a client's) with its message; `wrap`
-- is `fmt.Errorf("text: %w", err)`, `detail` is `fmt.Errorf("%w: text", err)`.
pub data Error : Type 0 where
  sentinel : Sentinel → Error
  foreign : Text → Error
  wrap : Text → Error → Error
  detail : Error → Text → Error

abbrev sentinel_tag : Sentinel → ℕ
sentinel_tag job_not_found = 0
sentinel_tag job_run_not_found = 1
sentinel_tag invalid_description = 2
sentinel_tag invalid_schedule = 3
sentinel_tag invalid_owner = 4
sentinel_tag invalid_status_transition = 5
sentinel_tag quota_exceeded = 6
sentinel_tag invalid_timezone = 7
sentinel_tag invalid_recurrence = 8
sentinel_tag invalid_job_type = 9
sentinel_tag invalid_llm_output = 10
sentinel_tag llm_timeout = 11
sentinel_tag llm_cost_exceeded = 12
sentinel_tag worker_stalled = 13
sentinel_tag execution_in_progress = 14
sentinel_tag deadline_exceeded = 15
sentinel_tag user_not_found = 16
sentinel_tag email_already_exists = 17
sentinel_tag invalid_email = 18
sentinel_tag invalid_password = 19
sentinel_tag invalid_display_name = 20
sentinel_tag invalid_credentials = 21
sentinel_tag invalid_token = 22
sentinel_tag expired_token = 23
sentinel_tag invalid_id = 24

abbrev pub sentinel_eq : Sentinel → Sentinel → Bool
sentinel_eq a b = sentinel_tag a == sentinel_tag b

-- errors.Is(err, s).
unfoldable pub is : Error → Sentinel → Bool
is (sentinel a) s = sentinel_eq a s
is (foreign m) s = false
is (wrap m e) s = is e s
is (detail e m) s = is e s

unfoldable pub sentinel_message : Sentinel → Text
sentinel_message job_not_found = codes "job not found"
sentinel_message job_run_not_found = codes "job run not found"
sentinel_message invalid_description = codes "invalid description"
sentinel_message invalid_schedule = codes "invalid schedule"
sentinel_message invalid_owner = codes "invalid owner"
sentinel_message invalid_status_transition = codes "invalid status transition"
sentinel_message quota_exceeded = codes "tenant quota exceeded"
sentinel_message invalid_timezone = codes "invalid timezone"
sentinel_message invalid_recurrence = codes "invalid recurrence"
sentinel_message invalid_job_type = codes "invalid job type"
sentinel_message invalid_llm_output = codes "invalid LLM output"
sentinel_message llm_timeout = codes "LLM request timed out"
sentinel_message llm_cost_exceeded = codes "LLM cost budget exceeded"
sentinel_message worker_stalled = codes "worker stalled before completion"
sentinel_message execution_in_progress = codes "execution already in progress"
sentinel_message deadline_exceeded = codes "context deadline exceeded"
sentinel_message user_not_found = codes "user not found"
sentinel_message email_already_exists = codes "email already exists"
sentinel_message invalid_email = codes "invalid email"
sentinel_message invalid_password = codes "invalid password"
sentinel_message invalid_display_name = codes "invalid display name"
sentinel_message invalid_credentials = codes "invalid credentials"
sentinel_message invalid_token = codes "invalid token"
sentinel_message expired_token = codes "token expired"
sentinel_message invalid_id = codes "invalid id"

-- err.Error().
unfoldable pub message : Error → Text
unfolding sentinel_message
message (sentinel s) = sentinel_message s
message (foreign m) = m
message (wrap m e) = m ++ codes ": " ++ message e
message (detail e m) = message e ++ codes ": " ++ m
