-- ===== src/Auth/Jwt.antt =====
-- internal/platform/auth/jwt.go. The library golang-jwt is a parameter: how it signs claims with
-- HS256, and how ParseWithClaims ends.
use go_chatgpt_tasks.Base.{ℕ, ◌+◌, ◌-◌, ◌%◌, Bool, true, false, Option, none, some, Text, codes}
use go_chatgpt_tasks.Clock.{Time, second}
use go_chatgpt_tasks.Task.Errors.{sentinel, invalid_token, expired_token}
use go_chatgpt_tasks.Task.Effect.{Result, M, ◌>>=◌, pure, fail, with_context, lift_result, time_now}

-- The claims in use. A numeric date is a time of a whole second.
pub record Claims : Type 0 where
  pub issuer : Text
  pub subject : Text
  pub issued_at : Time
  pub expires_at : Time

-- `parsed` has the token's field Valid; `expired` is an error that is jwt.ErrTokenExpired.
pub data Parsed : Type 0 where
  parsed : Claims → Bool → Parsed
  expired malformed : Parsed

-- `parse` is given the function that picks the key, which sees whether the token's method is an HMAC
-- one, and the time.
pub record Jwt : Type 0 where
  pub sign : Text → Claims → Result Text
  pub parse : Text → (Bool → Option Text) → Time → Parsed

-- Its lifetime `ttl` is in nanoseconds.
pub record Manager : Type 0 where
  pub secret : Text
  pub issuer : Text
  pub ttl : ℕ

-- jwt.NewNumericDate.
abbrev pub numeric_date : Time → Time
numeric_date t = t - t % second

abbrev pub claims_at : Manager → Text → Time → Claims
claims_at m subject now = record {
  issuer = m.issuer;
  subject = subject;
  issued_at = numeric_date now;
  expires_at = numeric_date (now + m.ttl);
}

unfoldable pub issue : Jwt → Manager → Text → M Text
issue j m subject = do
  now ← time_now
  with_context (codes "sign token") (lift_result (j.sign m.secret (claims_at m subject now)))

-- The function that picks the key.
abbrev pub hmac_key : Text → Bool → Option Text
hmac_key secret true = some secret
hmac_key secret false = none

abbrev pub verified : Parsed → M Claims
verified (parsed c true) = pure c
verified (parsed c false) = fail (sentinel invalid_token)
verified expired = fail (sentinel expired_token)
verified malformed = fail (sentinel invalid_token)

unfoldable pub verify : Jwt → Manager → Text → M Claims
verify j m raw = time_now >>= λ now. verified (j.parse raw (hmac_key m.secret) now)
