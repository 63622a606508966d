-- ===== src/Users/SignIn.antt =====
-- internal/user and internal/platform/auth: who has registered can log in, and is known by the token.
use go_chatgpt_tasks.Base.{
  ℕ, suc, ◌+◌, ◌-◌, ◌<◌, ◌≡◌, ◌≢◌, refl, sym, subst, ap, ◌∙◌, inl, inr, true, false, List, [], ◌∷◌,
  ◌++◌, map, All, Option, none, some, Text, codes, is_empty, Bool-cases, Option-cases, arith,
  text_eq→eq,
}
use go_chatgpt_tasks.Clock.{Time, time_to_pg}
use go_chatgpt_tasks.Task.Errors.{sentinel, is, invalid_credentials, user_not_found}
use go_chatgpt_tasks.Sql.Tables.{Tables, UserRow, find_where}
use go_chatgpt_tasks.Sql.Tables.Laws.{All-find_where, find_where_sound}
use go_chatgpt_tasks.Base.Parse.{trim_space}
use go_chatgpt_tasks.Sql.Users.{has_email, get_user_by_email, get_user_by_id}
use go_chatgpt_tasks.Sql.Users.Laws.{DistinctUsers, get_user-by_id}
use go_chatgpt_tasks.Task.Effect.{
  World, Result, ok, err, done, ◌>>=◌, try, statement, query, tock, time_now,
}
use go_chatgpt_tasks.Task.Effect.Ends.{Ends, Ends-after, Ends-wrapped, Ends-statement}
use go_chatgpt_tasks.Auth.Jwt.{
  Claims, Jwt, Manager, parsed, numeric_date, claims_at, hmac_key, verify,
}
use go_chatgpt_tasks.Users.Domain.{User, normalised, user_from_sqlc, user_to_insert_params}
use go_chatgpt_tasks.Users.Repo.{found_user, find_user_by_id, find_user_by_email}
use go_chatgpt_tasks.Users.Service.{
  UserService, LoginInput, with_token_for, known_user, accepted, sign_in, login, get_by_id,
}
use go_chatgpt_tasks.Users.Registered.{Issued, Registered, with_token_for-Issued}
use go_chatgpt_tasks.Users.Writes.{ValidUser}
use go_chatgpt_tasks.Users.Valid.{ValidUsers}
use go_chatgpt_tasks.Auth.Middleware.{granted, bearer_prefix, authenticate}
use go_chatgpt_tasks.Users.Http.{
  UserResponse, reply_with, user, to_user_response, answer_with, me, me_request, serve_user,
}

-- After a registration that has succeeded, login with the address of the user that it returned, which
-- is the address that was sent, trimmed and in lower case, and with its password returns that user, its
-- times rounded down to microseconds, and a token, if the hasher accepts the passwords that it has
-- hashed, the signer signs, and the database answers.
unfoldable pub stored_user : User → User
stored_user u = record u {
  created_at = time_to_pg u.created_at;
  updated_at = time_to_pg u.updated_at;
}

-- The user that a login finds.
Found : Text → World → User → World → Type 0
Found email w u v =
    (row : UserRow) × (get_user_by_email email w.tables.users ≡ some row)
    × (u ≡ user_from_sqlc row)
    × (v.tables ≡ w.tables)

find_user-Found : (email : Text) (w : World) → Ends (Found email w) (find_user_by_email email w)
unfolding find_user_by_email query Found user_to_insert_params user_from_sqlc
find_user-Found email w =
    let Read : Option UserRow → Tables → Type 0 =
      λ o t. (o ≡ get_user_by_email email w.tables.users) × (t ≡ w.tables) in
    Ends-after (λ o v. Read o v.tables) (Found email w) found_user _
      (Ends-wrapped (λ o v. Read o v.tables) (codes "query user by email") _
        (Ends-statement Read (λ t. some (get_user_by_email email t.users, t)) w (refl, refl)))
      known
  where
    known :
        (o : Option UserRow) (v : World)
        → (o ≡ get_user_by_email email w.tables.users) × (v.tables ≡ w.tables)
        → Ends (Found email w) (found_user o v)
    known none v h = tt
    known (some r) v h = (r, sym h.0, refl, h.1)

known_user-Found :
    (email : Text) (w : World) (x : Result User × World)
    → Ends (Found email w) x
    → Ends (Found email w) ((try (λ _. x) >>= known_user) w)
known_user-Found email w (ok u, v) h = h
known_user-Found email w (err e, v) h = elim (Bool-cases (is e user_not_found)) [
  | inl i ↦ rw i tt
  | inr i ↦ rw i tt
]

accepted-tables : (r : Result (Unit {0})) (w : World) → Ends (λ _ v. v ≡ w) (accepted r w)
accepted-tables (ok q) w = refl
accepted-tables (err e) w = tt

-- Who a login lets in.
LoggedIn : UserService → Text → World → User × Text → World → Type 0
LoggedIn s email w r v =
    (row : UserRow) × (get_user_by_email email w.tables.users ≡ some row)
    × (r.0 ≡ user_from_sqlc row)
    × (v.tables ≡ w.tables)
    × Issued s r.0.id r.1 v

login-LoggedIn :
    (s : UserService) (x : LoginInput) (w : World) → Ends (LoggedIn s x.email w) (login s x w)
unfolding login sign_in LoggedIn Found
login-LoggedIn s x w =
    Ends-after (Found x.email w) _ (sign_in s x.password) _
      (known_user-Found x.email w _ (find_user-Found x.email w))
      λ u v found.
        Ends-after (λ _ v'. v' ≡ v) _ (λ _. with_token_for s u) _ (accepted-tables _ v)
          λ _ v' same. issued u v v' found same _ (with_token_for-Issued s u v')
  where
    issued :
        (u : User) (v v' : World)
        → Found x.email w u v
        → v' ≡ v
        → (y : Result (User × Text) × World)
        → Ends (λ r z. (r.0 ≡ u) × (z.tables ≡ v'.tables) × Issued s r.0.id r.1 z) y
        → Ends (LoggedIn s x.email w) y
    issued u v v' found same (ok r, z) h =
        let (row, got, is_row, kept) = found in
        (row, got, h.0 ∙ is_row, h.1 ∙ ap (λ (z : World). z.tables) same ∙ kept, h.2)
    issued u v v' found same (err e, z) h = tt

verify_current :
    (j : Jwt) (m : Manager) (raw : Text) (c : Claims) (w : World)
    → j.parse raw (hmac_key m.secret) (w.env.clock w.tick) ≡ parsed c true
    → verify j m raw w ≡ (ok c, tock w)
unfolding verify time_now
verify_current j m raw c w e = rw e

get_by_id-found :
    (u : User) (row : UserRow) (w : World)
    → u ≡ user_from_sqlc row
    → get_user_by_id row.id w.tables.users ≡ some row
    → w.env.reply w.tick ≡ done
    → (get_by_id u.id w).0 ≡ ok u
unfolding get_by_id find_user_by_id query statement user_from_sqlc
get_by_id-found u row w is_row e answers = rw (is_row, answers, e) refl

answer_with-ok :
    {A : Type 0} (f : A → UserResponse) (x : Result A × World) (a : A)
    → x.0 ≡ ok a
    → (answer_with f x).0 ≡ f a
answer_with-ok f (r, w) a e = rw e refl

module _ (s : UserService) (x : LoginInput) (w w' : World) (u : User) (t : Text)
    (reads : (secret raw : Text) (c : Claims) (now : Time)
      → s.jwt.sign secret c ≡ ok raw
      → now < c.expires_at
      → s.jwt.parse raw (hmac_key secret) now ≡ parsed c true)
    (logged : login s x w ≡ (ok (u, t), w'))
    (current : w'.env.clock w'.tick
      < numeric_date (w'.env.clock (w'.tick - 1) + s.manager.ttl)) where
  logged_in : LoggedIn s x.email w (u, t) w'
  logged_in = subst (Ends (LoggedIn s x.email w)) logged (login-LoggedIn s x w)

  -- The middleware knows the user by the token.
  pub authenticate-login :
      authenticate s.jwt s.manager (bearer_prefix ++ t) w'
      ≡ (granted (w'.env.uuid_string u.id), tock w')
  unfolding authenticate LoggedIn
  authenticate-login =
      let (row, found, is_row, same, (n, ticked, signed)) = logged_in in
      let before : w'.tick - 1 ≡ n = omega arith in
      let c : Claims = claims_at s.manager (w'.env.uuid_string u.id) (w'.env.clock n) in
      let read : s.jwt.parse t (hmac_key s.manager.secret) (w'.env.clock w'.tick) ≡ parsed c true =
        reads s.manager.secret t c (w'.env.clock w'.tick) signed (
          subst (λ k. w'.env.clock w'.tick < numeric_date (w'.env.clock k + s.manager.ttl)) before
            current) in
      rw (verify_current s.jwt s.manager t c w' read) refl

-- With the token of a login, GET /users/me shows the user who logged in: if signed claims are read
-- back until they expire, the lifetime of the token is not over, identifiers are printed as texts
-- that are not empty and read back, no two users have an identifier in common, and the database
-- answers.
pub me-login :
    (s : UserService) (x : LoginInput) (w w' : World) (u : User) (t : Text)
    → ((secret raw : Text) (c : Claims) (now : Time)
        → s.jwt.sign secret c ≡ ok raw
        → now < c.expires_at
        → s.jwt.parse raw (hmac_key secret) now ≡ parsed c true)
    → DistinctUsers w.tables.users
    → login s x w ≡ (ok (u, t), w')
    → is_empty (w'.env.uuid_string u.id) ≡ false
    → w'.env.uuid_parse (w'.env.uuid_string u.id) ≡ some u.id
    → w'.env.clock w'.tick < numeric_date (w'.env.clock (w'.tick - 1) + s.manager.ttl)
    → w'.env.reply (suc w'.tick) ≡ done
    → (serve_user s (me_request (bearer_prefix ++ t)) w').0
      ≡ reply_with 200 (user (to_user_response u))
unfolding serve_user me LoggedIn get_user_by_id user_to_insert_params
me-login s x w w' u t reads distinct logged nonempty printed current answers =
    let (row, found, is_row, same, _) =
      subst (Ends (LoggedIn s x.email w)) logged (login-LoggedIn s x w) in
    rw (authenticate-login s x w w' u t reads logged current, nonempty, printed)
      (answer_with-ok (λ (v : User). reply_with 200 (user (to_user_response v))) _ u
        (get_by_id-found u row (tock w') is_row
          (rw same (get_user-by_id w.tables.users x.email row distinct found)) answers))

map_idem :
    (lower : ℕ → ℕ) (s : Text)
    → ((c : ℕ) → lower (lower c) ≡ lower c)
    → map lower (map lower s) ≡ map lower s
map_idem lower [] h = refl
map_idem lower (c ∷ s) h = ground (arith, h c, map_idem lower s h)

stored-lower :
    (lower : ℕ → ℕ) (r : UserRow)
    → ((c : ℕ) → lower (lower c) ≡ lower c)
    → ValidUser lower r
    → map lower r.email ≡ r.email
unfolding normalised
stored-lower lower r idem v =
    let (raw, e) = v.is_normalised in
    ap (map lower) e ∙ map_idem lower (trim_space raw) idem ∙ sym e

mixed-absent :
    (lower : ℕ → ℕ) (email : Text) (users : List UserRow)
    → ((c : ℕ) → lower (lower c) ≡ lower c)
    → All (ValidUser lower) users
    → map lower email ≢ email
    → get_user_by_email email users ≡ none
unfolding get_user_by_email
mixed-absent lower email users idem valid mixed =
    elim (Option-cases (find_where (has_email email) users)) [
      | inl e ↦ e
      | inr (r, e) ↦
          let same : r.email ≡ email =
            text_eq→eq r.email email (find_where_sound (has_email email) users r e) in
          absurd (
            mixed (
              subst (λ t. map lower t ≡ t) same
                (stored-lower lower r idem (All-find_where (ValidUser lower) _ users r e valid))))
    ]

-- Login with an address that is not in lower case ends with ErrInvalidCredentials, also if a user has
-- registered with it, where every stored user is valid, lower case stays as it is in lower case, and
-- the database answers.
pub login-mixed_case :
    (s : UserService) (x : LoginInput) (w : World)
    → ((c : ℕ) → s.lower (s.lower c) ≡ s.lower c)
    → ValidUsers s.lower w.tables
    → map s.lower x.email ≢ x.email
    → w.env.reply w.tick ≡ done
    → (login s x w).0 ≡ err (sentinel invalid_credentials)
unfolding login find_user_by_email query statement is
login-mixed_case s x w idem valid mixed answers =
    rw (answers, mixed-absent s.lower x.email w.tables.users idem valid.0 mixed) refl
