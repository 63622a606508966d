-- ===== src/Users/Writes.antt =====
-- internal/user: what the handlers keep of the tables, if a registration that is stored keeps it.
use go_chatgpt_tasks.Base.{
  ℕ, ◌≡◌, refl, sym, subst, inl, inr, Bool, true, false, not, ◌||◌, Option, none, some, Text,
  is_empty, Bool-cases, arith,
}
use go_chatgpt_tasks.Task.Domain.{Uuid}
use go_chatgpt_tasks.Sql.Tables.{Tables, UserRow}
use go_chatgpt_tasks.Sql.Users.{insert_user}
use go_chatgpt_tasks.Task.Effect.{World, Result, ok, err, M}
use go_chatgpt_tasks.Task.Effect.Keeps.{
  Any, Keeps, keeps_pure, keeps_fail, keeps_bind, keeps_then, keeps_context, keeps_now, keeps_id,
  keeps_try, keeps_statement, OnStatement,
}
use go_chatgpt_tasks.Auth.Jwt.{Claims}
use go_chatgpt_tasks.Auth.Middleware.{
  Decision, denied, granted, access_of, with_token, authenticate, cut_prefix, bearer_prefix,
}
use go_chatgpt_tasks.Users.Domain.{
  User, has_char, normalised, checked_user, new_user, user_to_insert_params,
}
use go_chatgpt_tasks.Users.Repo.{with_inserted, save_user, saved_or_taken}
use go_chatgpt_tasks.Users.Service.{
  UserService, RegisterInput, register, register_hashed, save_new, login, get_by_id,
}
use go_chatgpt_tasks.Users.Http.{
  refused_body, bound_body, UserResponse, answer_with, auth_response, post_register, post_login, me,
  profile_of, guarded, UserRequest, register_request, login_request, me_request, serve_user,
}
use go_chatgpt_tasks.Users.Keeps.{
  find_user_by_email-Keeps, find_user_by_id-Keeps, free_address-Keeps, hash_password-Keeps,
  with_token_for-Keeps, login-Keeps, verify-Keeps,
}

-- A stored address is what some text is normalised to, and has an @; there is a password hash.
pub record ValidUser (lower : ℕ → ℕ) (r : UserRow) : Type 0 where
  pub is_normalised : (raw : Text) × (r.email ≡ normalised lower raw)
  pub has_at : has_char b'@' r.email ≡ true
  pub has_hash : is_empty r.password_hash ≡ false

module _ (lower : ℕ → ℕ) where
  checked_user-Keeps :
      (P : Tables → Type 0) (raw hash name : Text)
      → Keeps P
          (checked_user (normalised lower raw) hash name)
          (λ u. ValidUser lower (user_to_insert_params u))
  unfolding checked_user user_to_insert_params
  checked_user-Keeps P raw hash name =
      elim (Bool-cases
        (is_empty (normalised lower raw) || not (has_char b'@' (normalised lower raw)))) [
          | inl e ↦ rw e (keeps_fail P _)
          | inr e ↦ elim (Bool-cases (is_empty hash)) [
            | inl f ↦ rw (e, f) (keeps_fail P _)
            | inr f ↦
                rw (e, f)
                  (keeps_bind P _ _ (keeps_now P) λ now _. keeps_bind P _ _ (keeps_id P) λ id _.
                    keeps_pure P _
                      (record { is_normalised = (raw, refl); has_at = ground arith; has_hash = f }))
          ]
        ]

  new_user-Keeps :
      (P : Tables → Type 0) (email hash name : Text)
      → Keeps P (new_user lower email hash name) (λ u. ValidUser lower (user_to_insert_params u))
  unfolding new_user
  new_user-Keeps P email hash name = checked_user-Keeps P email hash name

-- Storing a valid user keeps a property of the tables.
abbrev pub OnSaving : (ℕ → ℕ) → (Tables → Type 0) → User → Tables → Type 0
OnSaving lower P u t =
    ValidUser lower (user_to_insert_params u)
    → P t
    → OnStatement P Any (with_inserted t (insert_user (user_to_insert_params u) t.users))

module _ (s : UserService) (P : Tables → Type 0)
    (saves : (u : User) (t : Tables) → OnSaving s.lower P u t) where
  save_user-Keeps :
      (u : User) → ValidUser s.lower (user_to_insert_params u) → Keeps P (save_user u) Any
  unfolding save_user
  save_user-Keeps u valid =
      keeps_bind P {Q = Any} _ _
        (keeps_context P _ _ (keeps_statement P _ λ t h. saves u t valid h)) saved
    where
      saved : (b : Bool) → Unit {0} → Keeps P (saved_or_taken b) Any
      saved true q = keeps_pure P _ tt
      saved false q = keeps_fail P _

  save_new-Keeps :
      (u : User) → ValidUser s.lower (user_to_insert_params u) → Keeps P (save_new s u) Any
  unfolding save_new
  save_new-Keeps u valid =
      keeps_then P _ _ (keeps_context P _ _ (save_user-Keeps u valid)) (with_token_for-Keeps P s u)

  register_hashed-Keeps : (x : RegisterInput) (hash : Text) → Keeps P (register_hashed s x hash) Any
  unfolding register_hashed
  register_hashed-Keeps x hash =
      keeps_bind P _ _ (new_user-Keeps s.lower P x.email hash x.display_name)
        λ u valid. save_new-Keeps u valid

  register-Keeps : (x : RegisterInput) → Keeps P (register s x) Any
  unfolding register
  register-Keeps x =
      keeps_then P _ _
        (keeps_bind P _ _ (keeps_try P _ (find_user_by_email-Keeps P x.email))
          λ found _. free_address-Keeps P found)
        (keeps_bind P _ _ (keeps_context P _ _ (hash_password-Keeps P s.bcrypt s.cost x.password))
          λ hash _. register_hashed-Keeps x hash)

answer_with-tables :
    {A : Type 0} (f : A → UserResponse) (x : Result A × World)
    → (answer_with f x).1.tables ≡ x.1.tables
answer_with-tables f (ok a, w) = refl
answer_with-tables f (err e, w) = refl

module _ (P : Tables → Type 0) where
  answered-kept :
      {A : Type 0} (f : A → UserResponse) (m : M A) (w : World)
      → Keeps P m Any
      → P w.tables
      → P (answer_with f (m w)).1.tables
  answered-kept f m w k h = subst P (sym (answer_with-tables f (m w))) (k.apply w h).0

  profile-kept : (o : Option Uuid) (w : World) → P w.tables → P (profile_of o w).1.tables
  unfolding get_by_id
  profile-kept none w h = h
  profile-kept (some id) w h = answered-kept _ (get_by_id id) w (find_user_by_id-Keeps P id) h

  me-kept : (subject : Text) (w : World) → P w.tables → P (me subject w).1.tables
  unfolding me
  me-kept subject w h = elim (Bool-cases (is_empty subject)) [
    | inl e ↦ rw e h
    | inr e ↦ rw e (profile-kept (w.env.uuid_parse subject) w h)
  ]

  guarded-kept : (x : Decision × World) → P x.1.tables → P (guarded me x).1.tables
  guarded-kept (denied e, w) h = h
  guarded-kept (granted subject, w) h = me-kept subject w h

  authenticate-kept :
      (s : UserService) (header : Text) (w : World)
      → P w.tables
      → P (authenticate s.jwt s.manager header w).1.tables
  unfolding authenticate
  authenticate-kept s header w h = go (cut_prefix bearer_prefix header)
    where
      read : (x : Result Claims × World) → P x.1.tables → P (access_of x).1.tables
      read (ok c, v) k = k
      read (err e, v) k = k

      go : (o : Option Text) → P (with_token s.jwt s.manager o w).1.tables
      go none = h
      go (some raw) = read _ ((verify-Keeps P s.jwt s.manager raw).apply w h).0

-- The handlers keep a property that storing a valid user keeps.
pub serve_user-Keeps :
    (s : UserService) (P : Tables → Type 0)
    → ((u : User) (t : Tables) → OnSaving s.lower P u t)
    → (q : UserRequest) (w : World) → P w.tables
    → P (serve_user s q w).1.tables
unfolding serve_user post_register post_login
serve_user-Keeps s P saves (register_request (refused_body e)) w h = h
serve_user-Keeps s P saves (register_request (bound_body x)) w h =
    answered-kept P (auth_response 201) (register s x) w (register-Keeps s P saves x) h
serve_user-Keeps s P saves (login_request (refused_body e)) w h = h
serve_user-Keeps s P saves (login_request (bound_body x)) w h =
    answered-kept P (auth_response 200) (login s x) w (login-Keeps P s x) h
serve_user-Keeps s P saves (me_request header) w h =
    guarded-kept P _ (authenticate-kept P s header w h)
