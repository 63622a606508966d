-- ===== src/Task/Effect.antt =====
-- What the package does to the world, as explicit state passing. A world holds the tables, the
-- commands sent to the queue so far, and an environment: what the clock, the UUID generator and each
-- call of a service answer. `tick` counts those questions, so that the environment may answer each
-- one as it likes.
pub mod Keeps
pub mod Atomic
pub mod Ends
use go_chatgpt_tasks.Base.{
  ℕ, suc, Bool, true, false, if◌then◌else◌, List, [], ◌∷◌, ◌++◌, Option, none, some, Text, codes,
}
use go_chatgpt_tasks.Base.Int.{ℤ}
use go_chatgpt_tasks.Clock.{Time}
use go_chatgpt_tasks.Task.Errors.{Error, Sentinel, sentinel, foreign, wrap}
use go_chatgpt_tasks.Task.Domain.{Uuid, Status}
use go_chatgpt_tasks.Task.Transitions.{Outcome}
use go_chatgpt_tasks.Sql.Tables.{Tables}

-- JobRunMsg (dto_internal.go).
pub record JobRunMsg : Type 0 where
  pub job_run_id : Text
  pub tenant_id : Text
  pub idempotency_key : Text
  pub attempts : ℕ

-- The calls of the Queue port that change the queue.
pub data Command : Type 0 where
  enqueue dead_letter : JobRunMsg → Command
  ack : Text → Command

-- The counters of metrics.go that the package increments, with their label or the amount, and the
-- observation of a latency without its value.
pub data Metric : Type 0 where
  run_recorded : Status → Metric
  llm_cost_recorded : ℤ → Metric
  run_deferred quota_rejected : Text → Metric
  dlq_recorded llm_timeout_recorded llm_validation_failure_recorded llm_latency_recorded : Metric

-- How a call of the database or of the queue ends. A call may fail and have had its effect: the
-- answer is lost on the way.
pub data Reply : Type 0 where
  done : Reply
  refused lost : Text → Reply

-- The clock, uuid.NewV7, uuid.UUID.String, uuid.Parse, and the services' replies.
pub record Env : Type 0 where
  pub clock : ℕ → Time
  pub new_uuid : ℕ → Uuid
  pub uuid_string : Uuid → Text
  pub uuid_parse : Text → Option Uuid
  pub reply : ℕ → Reply

pub record World : Type 0 where
  pub env : Env
  pub tick : ℕ
  pub tables : Tables
  pub sent : List Command
  pub metrics : List Metric

pub data Result {ℓ} (A : Type ℓ) : Type ℓ where
  ok : A → Result A
  err : Error → Result A

-- A function with results (T, error) that acts on the world.
abbrev pub M : Type 0 → Type 0
M A = World → Result A × World

abbrev pub after {ℓ κ} :
    {A : Type ℓ} {B : Type κ} → (A → World → Result B × World) → Result A × World → Result B × World
after f (ok a, w) = f a w
after f (err e, w) = (err e, w)

infixl 5 ◌>>=◌ ◌>>◌
abbrev pub ◌>>=◌ : {A B : Type 0} → M A → (A → M B) → M B
◌>>=◌ m f w = after f (m w)

abbrev pub ◌>>◌ : {B : Type 0} → M (Unit {0}) → M B → M B
◌>>◌ m k w = after (λ _. k) (m w)

abbrev pub pure : {A : Type 0} → A → M A
pure a w = (ok a, w)

abbrev pub fail : {A : Type 0} → Error → M A
fail e w = (err e, w)

-- `if err != nil` at a call whose error is looked at.
abbrev caught : {A : Type 0} → Result A × World → Result (Result A) × World
caught (r, w) = (ok r, w)

abbrev pub try : {A : Type 0} → M A → M (Result A)
try m w = caught (m w)

-- `_ = f()`, and a call whose error is only logged.
abbrev ignored : {A : Type 0} → Result A × World → Result (Unit {0}) × World
ignored (r, w) = (ok tt, w)

abbrev pub quietly : {A : Type 0} → M A → M (Unit {0})
quietly m w = ignored (m w)

-- fmt.Errorf("text: %w", err) round a call.
abbrev pub wrapped : {A : Type 0} → Text → Result A × World → Result A × World
wrapped t (ok a, w) = (ok a, w)
wrapped t (err e, w) = (err (wrap t e), w)

abbrev pub with_context : {A : Type 0} → Text → M A → M A
with_context t m w = wrapped t (m w)

-- The result of a method of the domain.
unfoldable pub lift : {A : Type 0} → Outcome A → M A
lift (Outcome.ok a) = pure a
lift (Outcome.err s) = fail (sentinel s)

abbrev pub lift_result : {A : Type 0} → Result A → M A
lift_result (ok a) = pure a
lift_result (err e) = fail e

abbrev pub tock : World → World
tock w = record w { tick = suc w.tick }

-- time.Now().UTC().
unfoldable pub time_now : M Time
time_now w = (ok (w.env.clock w.tick), tock w)

-- shared.NewJobRunID() and the like.
unfoldable pub new_id : M Uuid
new_id w = (ok (w.env.new_uuid w.tick), tock w)

unfoldable pub id_string : Uuid → M Text
id_string u w = (ok (w.env.uuid_string u), w)

-- What a call of the database comes to: a constraint may refuse the statement, and the server or
-- the connection may fail before or after it.
abbrev pub settle : {A : Type 0} → Reply → Option (A × Tables) → World → Result A × World
settle done none w = (err (foreign (codes "constraint violation")), w)
settle done (some (a, t)) w = (ok a, record w { tables = t })
settle (refused m) o w = (err (foreign m), w)
settle (lost m) none w = (err (foreign m), w)
settle (lost m) (some (a, t)) w = (err (foreign m), record w { tables = t })

-- One statement.
unfoldable pub statement : {A : Type 0} → (Tables → Option (A × Tables)) → M A
statement f w = settle (w.env.reply w.tick) (f w.tables) (tock w)

-- A statement that only reads.
unfoldable pub query : {A : Type 0} → (Tables → A) → M A
query f = statement (λ t. some (f t, t))

-- How the body of a transaction leaves it.
pub data End (A : Type 0) : Type 0 where
  commit rollback : A → End A

abbrev commit_reply : {A : Type 0} → Reply → A → Tables → World → Result A × World
commit_reply done a before w = (ok a, w)
commit_reply (refused m) a before w = (err (foreign m), record w { tables = before })
commit_reply (lost m) a before w = (err (foreign m), w)

abbrev finish : {A : Type 0} → Text → Tables → Result (End A) × World → Result A × World
finish t before (err e, w) = (err e, record w { tables = before })
finish t before (ok (rollback a), w) = (ok a, record w { tables = before })
finish t before (ok (commit a), w) = wrapped t (commit_reply (w.env.reply w.tick) a before (tock w))

-- pool.Begin, the body, and Commit or the deferred Rollback. The two texts wrap the errors of Begin
-- and Commit. Nothing of a body that fails is kept.
unfoldable pub transaction : {A : Type 0} → Text → Text → M (End A) → M A
transaction begin_text commit_text body w =
    after (λ _ w'. finish commit_text w.tables (body w')) (wrapped begin_text (query (λ _. tt) w))

abbrev send_reply : Reply → Command → World → Result (Unit {0}) × World
send_reply done c w = (ok tt, record w { sent = w.sent ++ c ∷ [] })
send_reply (refused m) c w = (err (foreign m), w)
send_reply (lost m) c w = (err (foreign m), record w { sent = w.sent ++ c ∷ [] })

-- A call of the Queue port.
unfoldable pub send : Command → M (Unit {0})
send c w = send_reply (w.env.reply w.tick) c (tock w)

unfoldable pub record_metric : Metric → M (Unit {0})
record_metric m w = (ok tt, record w { metrics = w.metrics ++ m ∷ [] })
