-- ===== src/Users/Registered.antt =====
-- internal/user/service.go: what Register leaves, and the tokens that are issued.
use go_chatgpt_tasks.Base.{
  ℕ, suc, ◌≡◌, refl, sym, subst, inl, inr, Bool, true, false, not, ◌||◌, List, some, Text, codes,
  is_empty, Bool-cases,
}
use go_chatgpt_tasks.Task.Domain.{Uuid}
use go_chatgpt_tasks.Sql.Tables.{Tables, UserRow}
use go_chatgpt_tasks.Sql.Users.{get_user_by_email}
use go_chatgpt_tasks.Sql.Users.Laws.{OnInsert, insert_user-OnInsert}
use go_chatgpt_tasks.Task.Effect.{
  World, Result, ok, err, M, ◌>>=◌, id_string, try, lift_result, tock, time_now, new_id, wrapped,
  with_context,
}
use go_chatgpt_tasks.Task.Effect.Ends.{
  Ends, OnAnswer, Ends-trivial, Ends-after, Ends-wrapped, Ends-statement,
}
use go_chatgpt_tasks.Auth.Jwt.{Claims, claims_at, issue}
use go_chatgpt_tasks.Users.Domain.{
  User, checked_user, new_user, has_char, normalised, user_to_insert_params,
}
use go_chatgpt_tasks.Users.Hasher.{hash_password, cost_or_default}
use go_chatgpt_tasks.Users.Repo.{with_inserted, saved_or_taken, save_user, find_user_by_email}
use go_chatgpt_tasks.Users.Service.{
  UserService, RegisterInput, free_address, issue_for, with_token_for, save_new, register_hashed,
  register,
}

-- The row of a user is found by the address.
abbrev pub Stored : User → Tables → Type 0
Stored u t = get_user_by_email u.email t.users ≡ some (user_to_insert_params u)

save_user-Stored : (u : User) (w : World) → Ends (λ _ v. Stored u v.tables) (save_user u w)
unfolding save_user user_to_insert_params
save_user-Stored u w =
    Ends-after Saved (λ _ v. Stored u v.tables) saved_or_taken _
      (Ends-wrapped Saved (codes "insert user") _ (
        Ends-statement (λ b t. b ≡ true → Stored u t) _ w
          (inserted w.tables _ (insert_user-OnInsert _ w.tables.users))))
      left
  where
    Saved : Bool → World → Type 0
    Saved b v = b ≡ true → Stored u v.tables

    inserted :
        (t : Tables) (x : Bool × List UserRow)
        → OnInsert (user_to_insert_params u) t.users x
        → OnAnswer (λ b t'. b ≡ true → Stored u t') (with_inserted t x)
    inserted t (true, users) i = λ _. i.by_email
    inserted t (false, users) i = λ e. cc

    left : (b : Bool) (v : World) → Saved b v → Ends (λ _ v. Stored u v.tables) (saved_or_taken b v)
    left true v h = h refl
    left false v h = tt

-- A token for an identifier, issued at the time before the last.
abbrev pub Issued : UserService → Uuid → Text → World → Type 0
Issued s id token v =
    (n : ℕ) × (suc n ≡ v.tick)
    × (s.jwt.sign s.manager.secret (claims_at s.manager (v.env.uuid_string id) (v.env.clock n))
        ≡ ok token)

issue_for-Issued :
    (s : UserService) (id : Uuid) (w : World)
    → Ends (λ t v. (v.tables ≡ w.tables) × Issued s id t v) (issue_for s id w)
unfolding issue_for issue id_string time_now
issue_for-Issued s id w = go (s.jwt.sign s.manager.secret claims) refl
  where
    claims : Claims
    claims = claims_at s.manager (w.env.uuid_string id) (w.env.clock w.tick)

    go :
        (r : Result Text)
        → s.jwt.sign s.manager.secret claims ≡ r
        → Ends
            (λ t v. (v.tables ≡ w.tables) × Issued s id t v)
            (wrapped (codes "issue token") (wrapped (codes "sign token") (lift_result r (tock w))))
    go (ok t) e = (refl, (w.tick, refl, e))
    go (err m) e = tt

pub with_token_for-Issued :
    (s : UserService) (u : User) (w : World)
    → Ends (λ r v. (r.0 ≡ u) × (v.tables ≡ w.tables) × Issued s r.0.id r.1 v) (with_token_for s u w)
unfolding with_token_for
with_token_for-Issued s u w =
    Ends-after (λ t v. (v.tables ≡ w.tables) × Issued s u.id t v) _ (λ t v. (ok (u, t), v)) _
      (issue_for-Issued s u.id w) (λ t v h. (refl, h.0, h.1))

-- The hash of a password, by the service's hasher.
abbrev pub HashOf : UserService → Text → Text → Type 0
HashOf s plain hash = (n : ℕ) × (s.bcrypt.generate (cost_or_default s.cost) n plain ≡ ok hash)

hash_password-HashOf :
    (s : UserService) (plain : Text) (w : World)
    → Ends (λ h v. HashOf s plain h) (hash_password s.bcrypt s.cost plain w)
unfolding hash_password
hash_password-HashOf s plain w = go (s.bcrypt.generate (cost_or_default s.cost) w.tick plain) refl
  where
    go :
        (r : Result Text)
        → s.bcrypt.generate (cost_or_default s.cost) w.tick plain ≡ r
        → Ends (λ h v. HashOf s plain h) (wrapped (codes "bcrypt hash") (r, tock w))
    go (ok h) e = (w.tick, e)
    go (err m) e = tt

new_user-hash :
    (lower : ℕ → ℕ) (email hash name : Text) (w : World)
    → Ends (λ u v. u.password_hash ≡ hash) (new_user lower email hash name w)
unfolding new_user checked_user time_now new_id
new_user-hash lower email hash name w =
    elim (Bool-cases
      (is_empty (normalised lower email) || not (has_char b'@' (normalised lower email)))) [
        | inl e ↦ rw e tt
        | inr e ↦ elim (Bool-cases (is_empty hash)) [
          | inl f ↦ rw (e, f) tt
          | inr f ↦ rw (e, f) refl
        ]
      ]

-- What a registration leaves.
abbrev pub Registered : UserService → Text → User × Text → World → Type 0
Registered s password r v = Stored r.0 v.tables × HashOf s password r.0.password_hash

save_new-Registered :
    (s : UserService) (password : Text) (u : User) (w : World)
    → HashOf s password u.password_hash
    → Ends (Registered s password) (save_new s u w)
unfolding save_new
save_new-Registered s password u w hashed =
    Ends-after (λ _ v. Stored u v.tables) _ (λ _. with_token_for s u) _
      (Ends-wrapped (λ _ v. Stored u v.tables) _ _ (save_user-Stored u w))
      λ _ v stored. issued v stored (with_token_for s u v) (with_token_for-Issued s u v)
  where
    issued :
        (v : World)
        → Stored u v.tables
        → (x : Result (User × Text) × World)
        → Ends (λ r v'. (r.0 ≡ u) × (v'.tables ≡ v.tables) × Issued s r.0.id r.1 v') x
        → Ends (Registered s password) x
    issued v stored (ok r, v') h = rw (h.0, h.1) (stored, hashed)
    issued v stored (err e, v') h = tt

register_hashed-Registered :
    (s : UserService) (x : RegisterInput) (h : Text) (w : World)
    → HashOf s x.password h
    → Ends (Registered s x.password) (register_hashed s x h w)
unfolding register_hashed
register_hashed-Registered s x h w hashed =
    Ends-after (λ u _. u.password_hash ≡ h) _ (save_new s) _
      (new_user-hash s.lower x.email h x.display_name w)
      λ u v e. save_new-Registered s x.password u v (subst (HashOf s x.password) (sym e) hashed)

hash-Registered :
    (s : UserService) (x : RegisterInput) (w : World)
    → Ends (Registered s x.password) (
        (with_context (codes "hash password") (hash_password s.bcrypt s.cost x.password)
            >>= register_hashed s x)
          w)
hash-Registered s x w =
    Ends-after (λ h _. HashOf s x.password h) (Registered s x.password) (register_hashed s x)
      (with_context (codes "hash password") (hash_password s.bcrypt s.cost x.password) w)
      (Ends-wrapped (λ h _. HashOf s x.password h) (codes "hash password")
        (hash_password s.bcrypt s.cost x.password w) (hash_password-HashOf s x.password w))
      (λ h v hashed. register_hashed-Registered s x h v hashed)

pub register-Registered :
    (s : UserService) (x : RegisterInput) (w : World)
    → Ends (Registered s x.password) (register s x w)
unfolding register
register-Registered s x w =
    let free : M (Unit {0}) = try (find_user_by_email x.email) >>= free_address in
    Ends-after (λ _ _. Unit {0}) (Registered s x.password)
      (λ _.
        with_context (codes "hash password") (hash_password s.bcrypt s.cost x.password)
        >>= register_hashed s x)
      (free w) (Ends-trivial (free w)) (λ _ v _. hash-Registered s x v)
