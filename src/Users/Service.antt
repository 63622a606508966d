-- ===== src/Users/Service.antt =====
-- internal/user/service.go: Register, Login and GetByID, with the hasher and the token issuer that
-- internal/bootstrap/wire.go gives it.
use go_chatgpt_tasks.Base.{ℕ, if◌then◌else◌, Text, codes}
use go_chatgpt_tasks.Task.Errors.{
  sentinel, wrap, is, user_not_found, email_already_exists, invalid_credentials,
}
use go_chatgpt_tasks.Task.Domain.{Uuid}
use go_chatgpt_tasks.Task.Effect.{
  Result, ok, err, M, ◌>>=◌, ◌>>◌, pure, fail, try, with_context, id_string,
}
use go_chatgpt_tasks.Auth.Jwt.{Jwt, Manager, issue}
use go_chatgpt_tasks.Users.Domain.{User, new_user}
use go_chatgpt_tasks.Users.Hasher.{Bcrypt, hash_password, compare_password}
use go_chatgpt_tasks.Users.Repo.{save_user, find_user_by_id, find_user_by_email}

pub record UserService : Type 0 where
  pub bcrypt : Bcrypt
  pub cost : ℕ
  pub jwt : Jwt
  pub manager : Manager
  pub lower : ℕ → ℕ

pub record RegisterInput : Type 0 where
  pub email : Text
  pub password : Text
  pub display_name : Text

pub record LoginInput : Type 0 where
  pub email : Text
  pub password : Text

-- The check before a registration.
abbrev pub free_address : Result User → M (Unit {0})
free_address (ok u) = fail (sentinel email_already_exists)
free_address (err e) =
    if is e user_not_found then pure tt else fail (wrap (codes "find by email") e)

unfoldable pub issue_for : UserService → Uuid → M Text
issue_for s id = with_context (codes "issue token") (id_string id >>= issue s.jwt s.manager)

-- The end of Register and of Login.
unfoldable pub with_token_for : UserService → User → M (User × Text)
with_token_for s u = issue_for s u.id >>= λ token. pure (u, token)

unfoldable pub save_new : UserService → User → M (User × Text)
save_new s u = with_context (codes "save user") (save_user u) >> with_token_for s u

-- Register from the hash on.
unfoldable pub register_hashed : UserService → RegisterInput → Text → M (User × Text)
register_hashed s x hash = new_user s.lower x.email hash x.display_name >>= save_new s

unfoldable pub register : UserService → RegisterInput → M (User × Text)
register s x =
    (try (find_user_by_email x.email) >>= free_address)
    >> (with_context (codes "hash password") (hash_password s.bcrypt s.cost x.password)
        >>= register_hashed s x)

abbrev pub known_user : Result User → M User
known_user (ok u) = pure u
known_user (err e) =
    if is e user_not_found
    then fail (sentinel invalid_credentials)
    else fail (wrap (codes "find by email") e)

-- Any error of Compare is answered alike.
abbrev pub accepted : Result (Unit {0}) → M (Unit {0})
accepted (ok u) = pure u
accepted (err e) = fail (sentinel invalid_credentials)

-- Login from the user on.
unfoldable pub sign_in : UserService → Text → User → M (User × Text)
sign_in s password u =
    accepted (compare_password s.bcrypt u.password_hash password) >> with_token_for s u

unfoldable pub login : UserService → LoginInput → M (User × Text)
login s x = (try (find_user_by_email x.email) >>= known_user) >>= sign_in s x.password

unfoldable pub get_by_id : Uuid → M User
get_by_id id = find_user_by_id id
