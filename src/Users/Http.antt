-- ===== src/Users/Http.antt =====
-- internal/user/handler_http.go, dto_http.go and routes.go. Gin's binding of a body, with its rules
-- on the fields, and the rendering of a response as JSON are left out.
use go_chatgpt_tasks.Base.{ℕ, ◌||◌, if◌then◌else◌, Option, none, some, Text, codes, is_empty}
use go_chatgpt_tasks.Clock.{Time}
use go_chatgpt_tasks.Task.Errors.{
  Error, is, message, user_not_found, email_already_exists, invalid_email, invalid_password,
  invalid_display_name, invalid_credentials,
}
use go_chatgpt_tasks.Task.Domain.{Uuid}
use go_chatgpt_tasks.Task.Effect.{World, Result, ok, err}
use go_chatgpt_tasks.Auth.Middleware.{Decision, denied, granted, authenticate}
use go_chatgpt_tasks.Users.Domain.{User}
use go_chatgpt_tasks.Users.Service.{
  UserService, RegisterInput, LoginInput, register, login, get_by_id,
}

-- `response`; created_at is rendered as text.
pub record UserView : Type 0 where
  pub id : Uuid
  pub email : Text
  pub display_name : Text
  pub created_at : Time

abbrev pub to_user_response : User → UserView
to_user_response u = record {
  id = u.id;
  email = u.email;
  display_name = u.display_name;
  created_at = u.created_at;
}

pub data UserBody : Type 0 where
  error : Text → UserBody
  user : UserView → UserBody
  auth : UserView → Text → UserBody

pub record UserResponse : Type 0 where
  pub status : ℕ
  pub body : UserBody

abbrev pub reply_with : ℕ → UserBody → UserResponse
reply_with status body = record { status = status; body = body }

unfoldable pub write_user_error : Error → UserResponse
write_user_error e =
    if is e invalid_credentials
    then reply_with 401 (error (codes "invalid credentials"))
    else if is e email_already_exists
    then reply_with 409 (error (codes "email already exists"))
    else if is e user_not_found
    then reply_with 404 (error (codes "user not found"))
    else if is e invalid_email || (is e invalid_password || is e invalid_display_name)
    then reply_with 400 (error (message e))
    else reply_with 500 (error (codes "internal error"))

-- What ShouldBindJSON makes of a body.
pub data Binding (A : Type 0) : Type 0 where
  refused_body : Text → Binding A
  bound_body : A → Binding A

abbrev pub answer_with : {A : Type 0} → (A → UserResponse) → Result A × World → UserResponse × World
answer_with f (ok a, w) = (f a, w)
answer_with f (err e, w) = (write_user_error e, w)

-- toAuthResponse.
abbrev pub auth_response : ℕ → User × Text → UserResponse
auth_response status (u, token) = reply_with status (auth (to_user_response u) token)

unfoldable pub post_register : UserService → Binding RegisterInput → World → UserResponse × World
post_register s (refused_body e) w = (reply_with 400 (error e), w)
post_register s (bound_body x) w = answer_with (auth_response 201) (register s x w)

unfoldable pub post_login : UserService → Binding LoginInput → World → UserResponse × World
post_login s (refused_body e) w = (reply_with 400 (error e), w)
post_login s (bound_body x) w = answer_with (auth_response 200) (login s x w)

abbrev pub profile_of : Option Uuid → World → UserResponse × World
profile_of none w = (reply_with 401 (error (codes "invalid subject")), w)
profile_of (some id) w =
    answer_with (λ u. reply_with 200 (user (to_user_response u))) (get_by_id id w)

-- `me`, on the subject that the middleware has stored.
unfoldable pub me : Text → World → UserResponse × World
me subject w =
    if is_empty subject
    then (reply_with 401 (error (codes "unauthenticated")), w)
    else profile_of (w.env.uuid_parse subject) w

abbrev pub guarded : (Text → World → UserResponse × World) → Decision × World → UserResponse × World
guarded f (denied e, w) = (reply_with 401 (error e), w)
guarded f (granted subject, w) = f subject w

-- The routes; GET /users/me has the middleware in front.
pub data UserRequest : Type 0 where
  register_request : Binding RegisterInput → UserRequest
  login_request : Binding LoginInput → UserRequest
  me_request : Text → UserRequest

unfoldable pub serve_user : UserService → UserRequest → World → UserResponse × World
serve_user s (register_request b) = post_register s b
serve_user s (login_request b) = post_login s b
serve_user s (me_request header) = λ w. guarded me (authenticate s.jwt s.manager header w)
