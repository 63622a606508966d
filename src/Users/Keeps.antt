-- ===== src/Users/Keeps.antt =====
-- internal/user: the parts of the use cases that write nothing.
use go_chatgpt_tasks.Base.{ℕ, inl, inr, true, false, Option, none, some, Text, Bool-cases}
use go_chatgpt_tasks.Task.Errors.{is, user_not_found}
use go_chatgpt_tasks.Task.Domain.{Uuid}
use go_chatgpt_tasks.Sql.Tables.{Tables, UserRow}
use go_chatgpt_tasks.Task.Effect.{Result, ok, err, id_string, lift_result}
use go_chatgpt_tasks.Task.Effect.Keeps.{
  Any, Any-On, Keeps, keeps_pure, keeps_fail, keeps_bind, keeps_then, keeps_context, keeps_now,
  keeps_try, keeps_query,
}
use go_chatgpt_tasks.Auth.Jwt.{
  Jwt, Manager, Parsed, parsed, expired, malformed, issue, verified, verify,
}
use go_chatgpt_tasks.Users.Domain.{User}
use go_chatgpt_tasks.Users.Hasher.{Bcrypt, hash_password}
use go_chatgpt_tasks.Users.Repo.{found_user, find_user_by_id, find_user_by_email}
use go_chatgpt_tasks.Users.Service.{
  UserService, LoginInput, free_address, issue_for, with_token_for, sign_in, known_user, accepted,
  login,
}

-- Any property of the tables.
module _ (P : Tables → Type 0) where
  found_user-Keeps : (o : Option UserRow) → Keeps P (found_user o) Any
  found_user-Keeps none = keeps_fail P _
  found_user-Keeps (some r) = keeps_pure P _ tt

  pub find_user_by_email-Keeps : (email : Text) → Keeps P (find_user_by_email email) Any
  unfolding find_user_by_email
  find_user_by_email-Keeps email =
      keeps_bind P {Q = Any} _ _ (keeps_context P _ _ (keeps_query P _ (λ t h. tt)))
        λ o _. found_user-Keeps o

  pub find_user_by_id-Keeps : (id : Uuid) → Keeps P (find_user_by_id id) Any
  unfolding find_user_by_id
  find_user_by_id-Keeps id =
      keeps_bind P {Q = Any} _ _ (keeps_context P _ _ (keeps_query P _ (λ t h. tt)))
        λ o _. found_user-Keeps o

  pub free_address-Keeps : (r : Result User) → Keeps P (free_address r) Any
  free_address-Keeps (ok u) = keeps_fail P _
  free_address-Keeps (err e) = elim (Bool-cases (is e user_not_found)) [
    | inl h ↦ rw h (keeps_pure P _ tt)
    | inr h ↦ rw h (keeps_fail P _)
  ]

  known_user-Keeps : (r : Result User) → Keeps P (known_user r) Any
  known_user-Keeps (ok u) = keeps_pure P _ tt
  known_user-Keeps (err e) = elim (Bool-cases (is e user_not_found)) [
    | inl h ↦ rw h (keeps_fail P _)
    | inr h ↦ rw h (keeps_fail P _)
  ]

  pub hash_password-Keeps :
      (b : Bcrypt) (cost : ℕ) (plain : Text) → Keeps P (hash_password b cost plain) Any
  unfolding hash_password
  hash_password-Keeps b cost plain = keeps_context P _ _ (record { apply = λ w h. (h, Any-On _) })

  lift_result-Keeps : {A : Type 0} (r : Result A) → Keeps P (lift_result r) Any
  lift_result-Keeps (ok a) = keeps_pure P _ tt
  lift_result-Keeps (err e) = keeps_fail P _

  id_string-Keeps : (id : Uuid) → Keeps P (id_string id) Any
  unfolding id_string
  id_string-Keeps id = record { apply = λ w h. (h, tt) }

  issue-Keeps : (j : Jwt) (m : Manager) (subject : Text) → Keeps P (issue j m subject) Any
  unfolding issue
  issue-Keeps j m subject =
      keeps_bind P _ _ (keeps_now P) λ now _. keeps_context P _ _ (lift_result-Keeps _)

  pub issue_for-Keeps : (s : UserService) (id : Uuid) → Keeps P (issue_for s id) Any
  unfolding issue_for
  issue_for-Keeps s id =
      keeps_context P _ _
        (keeps_bind P _ _ (id_string-Keeps id) λ subject _. issue-Keeps s.jwt s.manager subject)

  accepted-Keeps : (r : Result (Unit {0})) → Keeps P (accepted r) Any
  accepted-Keeps (ok u) = keeps_pure P _ tt
  accepted-Keeps (err e) = keeps_fail P _

  pub with_token_for-Keeps : (s : UserService) (u : User) → Keeps P (with_token_for s u) Any
  unfolding with_token_for
  with_token_for-Keeps s u = keeps_bind P _ _ (issue_for-Keeps s u.id) λ t _. keeps_pure P (u, t) tt

  sign_in-Keeps :
      (s : UserService) (password : Text) (u : User) → Keeps P (sign_in s password u) Any
  unfolding sign_in
  sign_in-Keeps s password u = keeps_then P _ _ (accepted-Keeps _) (with_token_for-Keeps s u)

  pub login-Keeps : (s : UserService) (x : LoginInput) → Keeps P (login s x) Any
  unfolding login
  login-Keeps s x =
      keeps_bind P _ _
        (keeps_bind P _ _ (keeps_try P _ (find_user_by_email-Keeps x.email))
          λ found _. known_user-Keeps found)
        λ u _. sign_in-Keeps s x.password u

  verified-Keeps : (p : Parsed) → Keeps P (verified p) Any
  verified-Keeps (parsed c true) = keeps_pure P _ tt
  verified-Keeps (parsed c false) = keeps_fail P _
  verified-Keeps expired = keeps_fail P _
  verified-Keeps malformed = keeps_fail P _

  pub verify-Keeps : (j : Jwt) (m : Manager) (raw : Text) → Keeps P (verify j m raw) Any
  unfolding verify
  verify-Keeps j m raw = keeps_bind P _ _ (keeps_now P) λ now _. verified-Keeps _
