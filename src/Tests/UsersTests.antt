-- ===== src/Tests/UsersTests.antt =====
-- Users on a concrete world.
use go_chatgpt_tasks.Sql.Users.Laws.{DistinctUsers}
use go_chatgpt_tasks.Base.{
  subst, ℕ, ◌+◌, ◌<◌, ◌≡◌, refl, subst, ap, Bool, true, ◌&&◌, if◌then◌else◌, ltb, leb, [], ◌∷◌,
  ◌++◌, Option, none, some, Text, codes, text_eq, length, take, drop, arith,
}
use go_chatgpt_tasks.Clock.{Time, hour}
use go_chatgpt_tasks.Task.Errors.{sentinel, is, invalid_credentials}
use go_chatgpt_tasks.Task.Effect.{
  World, Result, ok, err, time_now, new_id, id_string, query, statement,
}
use go_chatgpt_tasks.Auth.Jwt.{Claims, Parsed, parsed, expired, malformed, Jwt, hmac_key, issue}
use go_chatgpt_tasks.Auth.Middleware.{bearer_prefix}
use go_chatgpt_tasks.Users.Domain.{
  User, normalised, checked_user, new_user, user_from_sqlc, user_to_insert_params,
}
use go_chatgpt_tasks.Users.Hasher.{
  Comparison, matched, mismatched, unreadable, Bcrypt, hash_password, compare_password,
}
use go_chatgpt_tasks.Users.Repo.{save_user, find_user_by_email}
use go_chatgpt_tasks.Sql.Tables.{UserRow}
use go_chatgpt_tasks.Sql.Users.{insert_user, get_user_by_email}
use go_chatgpt_tasks.Base.Parse.{trim_space, trim_left, trim_right}
use go_chatgpt_tasks.Users.Service.{
  UserService, RegisterInput, LoginInput, issue_for, with_token_for, save_new, register_hashed,
  register, sign_in, login,
}
use go_chatgpt_tasks.Users.Http.{
  bound_body, reply_with, user, to_user_response, register_request, me_request, serve_user,
}
use go_chatgpt_tasks.Users.Valid.{ValidUsers, serve_user-ValidUsers}
use go_chatgpt_tasks.Users.SignIn.{me-login, login-mixed_case}
use go_chatgpt_tasks.Tests.Sample.{all_done, world_of}

-- A hash is the salt with the password.
abbrev compare_salted : Text → Text → Comparison
compare_salted [] plain = unreadable (codes "hash too short")
compare_salted (salt ∷ s) plain = if text_eq s plain then matched else mismatched

abbrev pub salted : Bcrypt
salted = record { generate = λ cost salt plain. ok (salt ∷ plain); compare_hash = compare_salted }

-- A token has the claims in the open, the issuer with its length.
abbrev open_token : Claims → Text
open_token c = c.issued_at ∷ c.expires_at ∷ length c.issuer ∷ c.issuer ++ c.subject

abbrev with_key : Option Text → Parsed → Parsed
with_key none p = malformed
with_key (some k) p = p

abbrev parse_open : Text → (Bool → Option Text) → Time → Parsed
parse_open (issued ∷ expires ∷ n ∷ rest) key now = with_key (key true) (
    if ltb now expires
    then parsed
        (record {
          issuer = take n rest;
          subject = drop n rest;
          issued_at = issued;
          expires_at = expires;
        })
        true
    else expired)
parse_open _ key now = malformed

abbrev pub open_jwt : Jwt
open_jwt = record { sign = λ secret c. ok (open_token c); parse = parse_open }

abbrev pub ascii_lower : ℕ → ℕ
ascii_lower c = if leb b'A' c && leb c b'Z' then c + 32 else c

abbrev pub users_service : UserService
users_service = record {
  bcrypt = salted;
  cost = 0;
  jwt = open_jwt;
  manager = record { secret = codes "secret"; issuer = codes "tasks"; ttl = hour };
  lower = ascii_lower;
}

abbrev bob_input : RegisterInput
bob_input = record {
  email = codes " Bob@example.com";
  password = codes "correct horse";
  display_name = codes "Bob";
}

abbrev no_users : World
no_users = world_of all_done []

abbrev pub bob : User
bob = record {
  id = 1003;
  email = codes "bob@example.com";
  password_hash = 1 ∷ codes "correct horse";
  display_name = codes "Bob";
  created_at = no_users.env.clock 2;
  updated_at = no_users.env.clock 2;
}

abbrev user_row : UserRow
user_row = record {
  id = 1003;
  email = codes "bob@example.com";
  password_hash = 1 ∷ codes "correct horse";
  display_name = codes "Bob";
  created_at = no_users.env.clock 2;
  updated_at = no_users.env.clock 2;
}

abbrev pub bob_world : World
bob_world = record no_users { tick = 6; tables = record no_users.tables { users = user_row ∷ [] } }

abbrev pub token_at : ℕ → Text
token_at n = no_users.env.clock n ∷ (no_users.env.clock n + hour) ∷ 5 ∷ codes "tasks" ++ 1003 ∷ []

take-append : (s t : Text) → take (length s) (s ++ t) ≡ s
take-append [] t = refl
take-append (c ∷ s) t = ap (λ r. c ∷ r) (take-append s t)

drop-append : (s t : Text) → drop (length s) (s ++ t) ≡ t
drop-append [] t = refl
drop-append (c ∷ s) t = drop-append s t

pub open_jwt-reads :
    (secret raw : Text) (c : Claims) (now : Time)
    → open_jwt.sign secret c ≡ ok raw
    → now < c.expires_at
    → open_jwt.parse raw (hmac_key secret) now ≡ parsed c true
open_jwt-reads secret raw c now e current =
    subst (λ (r : Result Text). reads r) e
      (rw (lt-ltb, take-append c.issuer c.subject, drop-append c.issuer c.subject) refl)
  where
    reads : Result Text → Type 0
    reads (ok t) = parse_open t (hmac_key secret) now ≡ parsed c true
    reads (err m) = Unit

    lt-ltb : ltb now c.expires_at ≡ true
    lt-ltb = ground arith

serve_user-ValidUsers_example :
    ValidUsers ascii_lower
      (serve_user users_service (register_request (bound_body bob_input)) no_users).1.tables
serve_user-ValidUsers_example =
    serve_user-ValidUsers users_service (register_request (bound_body bob_input)) no_users (tt, tt)

abbrev pub bob_login : LoginInput
bob_login = record { email = codes "bob@example.com"; password = codes "correct horse" }

abbrev pub logged_in : World
logged_in = record bob_world { tick = 8 }

pub bob_logs_in : login users_service bob_login bob_world ≡ (ok (bob, token_at 7), logged_in)
unfolding register register_hashed save_new with_token_for issue_for issue hash_password new_user
    checked_user normalised trim_space trim_left trim_right find_user_by_email query statement
    save_user insert_user get_user_by_email user_to_insert_params time_now new_id id_string is login
    sign_in compare_password user_from_sqlc
bob_logs_in = refl

bob_alone : DistinctUsers bob_world.tables.users
bob_alone = (refl, refl, tt)

bob_valid : ValidUsers ascii_lower bob_world.tables
unfolding normalised trim_space trim_left trim_right
bob_valid = (
  (record { is_normalised = (bob_input.email, refl); has_at = refl; has_hash = refl }, tt),
  bob_alone,
)

me-login_example :
    (serve_user users_service (me_request (bearer_prefix ++ token_at 7)) logged_in).0
    ≡ reply_with 200 (user (to_user_response bob))
me-login_example =
    me-login users_service bob_login bob_world logged_in bob (token_at 7) open_jwt-reads bob_alone
      bob_logs_in refl refl (omega arith) refl

abbrev first : Text → ℕ
first [] = 0
first (c ∷ s) = c

abbrev as_typed : LoginInput
as_typed = record { email = codes "Bob@example.com"; password = codes "correct horse" }

login-mixed_case_example :
    (login users_service as_typed bob_world).0 ≡ err (sentinel invalid_credentials)
login-mixed_case_example =
    login-mixed_case users_service as_typed bob_world (λ c. ground arith) bob_valid
      (λ e. absurd (omega (arith, ap first e))) refl
