-- ===== src/Auth/Middleware.antt =====
-- internal/platform/auth/middleware.go: what a request's Authorization header comes to.
use go_chatgpt_tasks.Base.{◌==◌, if◌then◌else◌, [], ◌∷◌, Option, none, some, Text, codes}
use go_chatgpt_tasks.Task.Effect.{World, Result, ok, err}
use go_chatgpt_tasks.Auth.Jwt.{Claims, Jwt, Manager, verify}

abbrev pub bearer_prefix : Text
bearer_prefix = codes "Bearer "

-- strings.HasPrefix with strings.TrimPrefix: `none` where the prefix is missing.
abbrev pub cut_prefix : Text → Text → Option Text
cut_prefix [] s = some s
cut_prefix (p ∷ ps) [] = none
cut_prefix (p ∷ ps) (c ∷ s) = let rest = cut_prefix ps s in if c == p then rest else none

-- The request is answered with 401 and a text, or goes on with the subject.
pub data Decision : Type 0 where
  denied granted : Text → Decision

abbrev pub access_of : Result Claims × World → Decision × World
access_of (ok c, w) = (granted c.subject, w)
access_of (err e, w) = (denied (codes "invalid token"), w)

abbrev pub with_token : Jwt → Manager → Option Text → World → Decision × World
with_token j m none w = (denied (codes "missing bearer token"), w)
with_token j m (some raw) w = access_of (verify j m raw w)

-- Middleware, on the header's value, "" if there is none.
unfoldable pub authenticate : Jwt → Manager → Text → World → Decision × World
authenticate j m header = with_token j m (cut_prefix bearer_prefix header)
