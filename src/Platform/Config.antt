-- ===== src/Platform/Config.antt =====
-- internal/platform/config/config.go. The library viper is a parameter, and so are the order in which
-- Go ranges over a map, and os.LookupEnv. Durations are counts of nanoseconds.
pub mod Usable
use go_chatgpt_tasks.Base.{
  ◌≡◌, refl, inl, inr, ◌≢◌, Bool, true, false, ◌&&◌, if◌then◌else◌, List, [], ◌∷◌, Option, none,
  some, Text, codes, is_empty, contains, Bool-cases, arith,
}
use go_chatgpt_tasks.Base.Int.{ℤ, pos, ltb_ℤ}
use go_chatgpt_tasks.Task.Errors.{Error, foreign, wrap, message}
use go_chatgpt_tasks.Task.Effect.{Result, ok, err}

pub record AppConfig : Type 0 where
  pub env : Text
  pub name : Text
  pub shutdown_timeout : ℤ

pub record HttpConfig : Type 0 where
  pub port : ℤ

pub record DbConfig : Type 0 where
  pub dsn : Text
  pub max_conns : ℤ
  pub min_conns : ℤ

pub record RedisConfig : Type 0 where
  pub addr : Text
  pub password : Text
  pub db : ℤ

pub record JwtConfig : Type 0 where
  pub secret : Text
  pub issuer : Text
  pub ttl : ℤ

pub record OtelConfig : Type 0 where
  pub enabled : Bool
  pub endpoint : Text
  pub service_name : Text

pub record LoggerConfig : Type 0 where
  pub level : Text
  pub encoding : Text

pub record QuotaConfig : Type 0 where
  pub max_jobs_per_hour : ℤ
  pub max_active_recurring : ℤ
  pub max_concurrent_runs : ℤ
  pub max_daily_llm_cost_cents : ℤ

pub record LlmConfig : Type 0 where
  pub timeout_seconds : ℤ
  pub max_retries : ℤ
  pub max_input_tokens : ℤ
  pub max_output_tokens : ℤ
  pub max_cost_cents : ℤ
  pub output_schema : Text

pub record TaskConfig : Type 0 where
  pub worker_count : ℤ

pub record AppSettings : Type 0 where
  pub app : AppConfig
  pub http : HttpConfig
  pub db : DbConfig
  pub redis : RedisConfig
  pub jwt : JwtConfig
  pub otel : OtelConfig
  pub logger : LoggerConfig
  pub quota : QuotaConfig
  pub llm : LlmConfig
  pub task : TaskConfig

unfoldable pub validate : Bool → AppSettings → Option Error
validate require_jwt c =
    if is_empty c.db.dsn
    then some (foreign (codes "POSTGRES_DSN is required"))
    else if require_jwt && is_empty c.jwt.secret
    then some (foreign (codes "JWT_SECRET is required"))
    else if ltb_ℤ c.task.worker_count (pos 1)
    then some (foreign (codes "TASK_WORKER_COUNT must be greater than zero"))
    else none

abbrev pub unless : Option Error → AppSettings → Result AppSettings
unless none c = ok c
unless (some e) c = err e

-- A default.
pub data Setting : Type 0 where
  str : Text → Setting
  int : ℤ → Setting
  flag : Bool → Setting

-- An instance of viper, and what `load` calls of it; `get` gives what Get finds, to be stored by Set.
pub record Viper (V G : Type 0) : Type 0 where
  pub new : V
  pub set_default : Text → Setting → V → V
  pub automatic_env : V → V
  pub bind_env : Text → Text → V → V
  pub read_env_file : V → V
  pub is_set : V → Text → Bool
  pub get : V → Text → G
  pub set : Text → G → V → V
  pub unmarshal : V → Result AppSettings

abbrev pub defaults : List (Text × Setting)
defaults =
    (codes "app.env", str (codes "development"))
    ∷ (codes "app.name", str (codes "go-chatgpt-tasks"))
    ∷ (codes "app.shutdown_timeout", str (codes "10s"))
    ∷ (codes "http.port", int (pos 8080))
    ∷ (codes "db.max_conns", int (pos 20))
    ∷ (codes "db.min_conns", int (pos 2))
    ∷ (codes "redis.addr", str (codes "localhost:6379"))
    ∷ (codes "redis.db", int (pos 0))
    ∷ (codes "jwt.issuer", str (codes "go-chatgpt-tasks"))
    ∷ (codes "jwt.secret", str (codes "local-dev-secret"))
    ∷ (codes "jwt.ttl", str (codes "24h"))
    ∷ (codes "otel.enabled", flag false)
    ∷ (codes "otel.endpoint", str (codes "localhost:4317"))
    ∷ (codes "otel.service_name", str (codes "go-chatgpt-tasks"))
    ∷ (codes "logger.level", str (codes "info"))
    ∷ (codes "logger.encoding", str (codes "json"))
    ∷ (codes "quota.max_jobs_per_hour", int (pos 100))
    ∷ (codes "quota.max_active_recurring_jobs", int (pos 20))
    ∷ (codes "quota.max_concurrent_runs", int (pos 10))
    ∷ (codes "quota.max_daily_llm_cost_cents", int (pos 1000))
    ∷ (codes "llm.timeout_seconds", int (pos 30))
    ∷ (codes "llm.max_retries", int (pos 3))
    ∷ (codes "llm.max_input_tokens", int (pos 4096))
    ∷ (codes "llm.max_output_tokens", int (pos 1024))
    ∷ (codes "llm.max_cost_cents", int (pos 100))
    ∷ (codes "llm.output_schema", str (codes "{}"))
    ∷ (codes "task.worker_count", int (pos 3))
    ∷ []

abbrev pub binds : List (Text × Text)
binds =
    (codes "app.env", codes "APP_ENV")
    ∷ (codes "app.name", codes "APP_NAME")
    ∷ (codes "app.shutdown_timeout", codes "APP_SHUTDOWN_TIMEOUT")
    ∷ (codes "http.port", codes "APP_PORT")
    ∷ (codes "db.dsn", codes "POSTGRES_DSN")
    ∷ (codes "db.max_conns", codes "POSTGRES_MAX_CONNS")
    ∷ (codes "db.min_conns", codes "POSTGRES_MIN_CONNS")
    ∷ (codes "redis.addr", codes "REDIS_ADDR")
    ∷ (codes "redis.password", codes "REDIS_PASSWORD")
    ∷ (codes "redis.db", codes "REDIS_DB")
    ∷ (codes "jwt.secret", codes "JWT_SECRET")
    ∷ (codes "jwt.issuer", codes "JWT_ISSUER")
    ∷ (codes "jwt.ttl", codes "JWT_TTL")
    ∷ (codes "otel.enabled", codes "OTEL_ENABLED")
    ∷ (codes "otel.endpoint", codes "OTEL_ENDPOINT")
    ∷ (codes "otel.service_name", codes "OTEL_SERVICE_NAME")
    ∷ (codes "logger.level", codes "LOG_LEVEL")
    ∷ (codes "logger.encoding", codes "LOG_ENCODING")
    ∷ (codes "quota.max_jobs_per_hour", codes "QUOTA_MAX_JOBS_PER_HOUR")
    ∷ (codes "quota.max_active_recurring_jobs", codes "QUOTA_MAX_ACTIVE_RECURRING_JOBS")
    ∷ (codes "quota.max_concurrent_runs", codes "QUOTA_MAX_CONCURRENT_RUNS")
    ∷ (codes "quota.max_daily_llm_cost_cents", codes "QUOTA_MAX_DAILY_LLM_COST_CENTS")
    ∷ (codes "llm.timeout_seconds", codes "LLM_TIMEOUT_SECONDS")
    ∷ (codes "llm.max_retries", codes "LLM_MAX_RETRIES")
    ∷ (codes "llm.max_input_tokens", codes "LLM_MAX_INPUT_TOKENS")
    ∷ (codes "llm.max_output_tokens", codes "LLM_MAX_OUTPUT_TOKENS")
    ∷ (codes "llm.max_cost_cents", codes "LLM_MAX_COST_CENTS")
    ∷ (codes "llm.output_schema", codes "LLM_OUTPUT_SCHEMA")
    ∷ (codes "task.worker_count", codes "TASK_WORKER_COUNT")
    ∷ []

module _ {V G : Type 0} (v : Viper V G) (bound filled : List (Text × Text) → List (Text × Text))
    (lookup_env : Text → Option Text) where
  abbrev set_defaults : List (Text × Setting) → V → V
  set_defaults [] x = x
  set_defaults ((key, value) ∷ ds) x = set_defaults ds (v.set_default key value x)

  abbrev with_binds : List (Text × Text) → V → V
  with_binds [] x = x
  with_binds ((key, env) ∷ bs) x = with_binds bs (v.bind_env key env x)

  abbrev fill_one : Text → Text → Option Text → V → V
  fill_one key env (some value) x = x
  fill_one key env none x = if v.is_set x env then v.set key (v.get x env) x else x

  abbrev from_env_file : List (Text × Text) → V → V
  from_env_file [] x = x
  from_env_file ((key, env) ∷ bs) x = from_env_file bs (fill_one key env (lookup_env env) x)

  abbrev pub accepted_settings : Bool → Result AppSettings → Result AppSettings
  accepted_settings require_jwt (err e) = err (wrap (codes "unmarshal config") e)
  accepted_settings require_jwt (ok c) = unless (validate require_jwt c) c

  -- The two loops range over the same map, each in an order of its own.
  abbrev pub settings : V
  settings =
      from_env_file (filled binds)
        (v.read_env_file (with_binds (bound binds) (v.automatic_env (set_defaults defaults v.new))))

  unfoldable pub load : Bool → Result AppSettings
  load require_jwt = accepted_settings require_jwt (v.unmarshal settings)
