-- ===== src/Sql/Tables/Laws.antt =====
-- What the statements' loops over rows do to a property of every row, to a lookup and to a count.
use go_chatgpt_tasks.Base.{
  ℕ, zero, suc, take, drop, select, ◌+◌, ◌≤◌, ◌≡◌, refl, inl, inr, Bool, true, false, List, [], ◌∷◌,
  ◌++◌, some, All, count, arith, Bool-cases,
}
use go_chatgpt_tasks.Sql.Tables.{update_where, find_where, insert_by, order_by}

module _ {ℓ κ} {A : Type ℓ} (G : A → Type κ) where
  pub All-append : (xs ys : List A) → All G xs → All G ys → All G (xs ++ ys)
  All-append [] ys h k = k
  All-append (x ∷ xs) ys h k = (h.0, All-append xs ys h.1 k)

  pub All-update_where :
      (p : A → Bool) (f : A → A) (xs : List A)
      → ((x : A) → p x ≡ true → G x → G (f x))
      → All G xs
      → All G (update_where p f xs)
  All-update_where p f [] k h = tt
  All-update_where p f (x ∷ xs) k h = elim (Bool-cases (p x)) [
    | inl e ↦ rw e (k x e h.0, All-update_where p f xs k h.1)
    | inr e ↦ rw e (h.0, All-update_where p f xs k h.1)
  ]

  pub All-find_where :
      (p : A → Bool) (xs : List A) (x : A) → find_where p xs ≡ some x → All G xs → G x
  All-find_where p [] x e h = ground arith
  All-find_where p (y ∷ ys) x e h = ground (arith, All-find_where p ys x)

module _ {ℓ} {A : Type ℓ} where
  -- A row outside the update is found as it was.
  pub find_where-update_where_other :
      (p q : A → Bool) (f : A → A) (xs : List A)
      → ((x : A) → q x ≡ true → p x ≡ false)
      → ((x : A) → p x ≡ true → q (f x) ≡ false)
      → find_where q (update_where p f xs) ≡ find_where q xs
  find_where-update_where_other p q f [] apart stays = refl
  find_where-update_where_other p q f (x ∷ xs) apart stays =
      ground (arith, apart x, stays x, find_where-update_where_other p q f xs apart stays)

  pub find_where-append :
      (p : A → Bool) (xs ys : List A) (x : A)
      → find_where p xs ≡ some x
      → find_where p (xs ++ ys) ≡ some x
  find_where-append p [] ys x e = ground arith
  find_where-append p (y ∷ xs) ys x e = ground (arith, find_where-append p xs ys x)

  pub find_where_sound :
      (p : A → Bool) (xs : List A) (x : A) → find_where p xs ≡ some x → p x ≡ true
  find_where_sound p [] x e = ground arith
  find_where_sound p (y ∷ xs) x e = ground (arith, find_where_sound p xs x)

  pub count-append : (p : A → Bool) (xs ys : List A) → count p (xs ++ ys) ≡ count p xs + count p ys
  count-append p [] ys = omega arith
  count-append p (x ∷ xs) ys = ground (arith, count-append p xs ys)

  -- An update that makes no row pass a test does not raise its count.
  pub count-update_where_le :
      (p q : A → Bool) (f : A → A) (xs : List A)
      → ((x : A) → p x ≡ true → q (f x) ≡ true → q x ≡ true)
      → count q (update_where p f xs) ≤ count q xs
  count-update_where_le p q f [] k = omega arith
  count-update_where_le p q f (x ∷ xs) k = ground (arith, k x, count-update_where_le p q f xs k)

  -- An update raises a count by no more than the number of rows that it touches.
  pub count-update_where_touched :
      (p q : A → Bool) (f : A → A) (xs : List A)
      → count q (update_where p f xs) ≤ count q xs + count p xs
  count-update_where_touched p q f [] = omega arith
  count-update_where_touched p q f (x ∷ xs) = ground (arith, count-update_where_touched p q f xs)

module _ {ℓ κ κ'} {A : Type ℓ} (G : A → Type κ) (H : A → Type κ') where
  pub All-select :
      (p : A → Bool) (xs : List A)
      → ((x : A) → p x ≡ true → G x → H x)
      → All G xs
      → All H (select p xs)
  All-select p [] k h = tt
  All-select p (x ∷ xs) k h = elim (Bool-cases (p x)) [
    | inl e ↦ rw e (k x e h.0, All-select p xs k h.1)
    | inr e ↦ rw e (All-select p xs k h.1)
  ]

module _ {ℓ κ} {A : Type ℓ} (G : A → Type κ) where
  pub All-take : (n : ℕ) (xs : List A) → All G xs → All G (take n xs)
  All-take zero xs h = tt
  All-take (suc n) [] h = tt
  All-take (suc n) (x ∷ xs) h = (h.0, All-take n xs h.1)

  All-insert_by :
      (before : A → A → Bool) (a : A) (xs : List A) → G a → All G xs → All G (insert_by before a xs)
  unfolding insert_by
  All-insert_by before a [] g h = (g, tt)
  All-insert_by before a (x ∷ xs) g h = elim (Bool-cases (before a x)) [
    | inl e ↦ rw e (g, h)
    | inr e ↦ rw e (h.0, All-insert_by before a xs g h.1)
  ]

  pub All-order_by : (before : A → A → Bool) (xs : List A) → All G xs → All G (order_by before xs)
  unfolding order_by
  All-order_by before [] h = tt
  All-order_by before (x ∷ xs) h = All-insert_by before x _ h.0 (All-order_by before xs h.1)

  pub All-drop : (n : ℕ) (xs : List A) → All G xs → All G (drop n xs)
  All-drop zero xs h = h
  All-drop (suc n) [] h = tt
  All-drop (suc n) (x ∷ xs) h = All-drop n xs h.1
