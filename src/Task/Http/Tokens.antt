-- ===== src/Task/Http/Tokens.antt =====
-- internal/task/routes.go and internal/platform/auth: requests with the token of a login.
use go_chatgpt_tasks.Base.{◌+◌, ◌-◌, ◌<◌, ◌≡◌, ◌++◌, true, false, some, Text, is_empty}
use go_chatgpt_tasks.Clock.{Time}
use go_chatgpt_tasks.Task.Domain.{Uuid}
use go_chatgpt_tasks.Task.Effect.{World, ok, tock}
use go_chatgpt_tasks.Auth.Jwt.{Claims, parsed, numeric_date, hmac_key}
use go_chatgpt_tasks.Auth.Middleware.{bearer_prefix}
use go_chatgpt_tasks.Users.Domain.{User}
use go_chatgpt_tasks.Users.Service.{UserService, LoginInput, login}
use go_chatgpt_tasks.Users.SignIn.{authenticate-login}
use go_chatgpt_tasks.Task.Http.{Request, Handler, Endpoint, serve_with_token}
use go_chatgpt_tasks.Task.Http.Access.{OwnedBody, is_get, serve-Owned}

-- With the token of a login, a GET request changes no table, whatever calls fail, and shows runs and
-- events of the tenant only that the user who logged in resolves to: if signed claims are read back
-- until they expire, the lifetime of the token is not over, and the user's identifier is printed as a
-- text that is not empty and is read back.
pub serve_with_token-login :
    (s : UserService) (x : LoginInput) (w w' : World) (u : User) (t : Text) (h : Handler)
    (e : Endpoint) (q : Request) (tenant : Uuid)
    → ((secret raw : Text) (c : Claims) (now : Time)
        → s.jwt.sign secret c ≡ ok raw
        → now < c.expires_at
        → s.jwt.parse raw (hmac_key secret) now ≡ parsed c true)
    → login s x w ≡ (ok (u, t), w')
    → is_empty (w'.env.uuid_string u.id) ≡ false
    → w'.env.uuid_parse (w'.env.uuid_string u.id) ≡ some u.id
    → w'.env.clock w'.tick < numeric_date (w'.env.clock (w'.tick - 1) + s.manager.ttl)
    → is_get e ≡ true
    → h.resolve_tenant u.id ≡ ok tenant
    → ((serve_with_token s.jwt s.manager h (bearer_prefix ++ t) e q w').1.tables ≡ w'.tables)
      × OwnedBody tenant (serve_with_token s.jwt s.manager h (bearer_prefix ++ t) e q w').0.body
unfolding serve_with_token
serve_with_token-login s x w w' u t h e q tenant reads logged nonempty printed current get
      resolved =
    rw (authenticate-login s x w w' u t reads logged current) (
      serve-Owned h e (record q { subject = w'.env.uuid_string u.id }) (tock w') u.id tenant get
        nonempty printed resolved)
