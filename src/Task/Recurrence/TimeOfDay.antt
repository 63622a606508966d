-- ===== src/Task/Recurrence/TimeOfDay.antt =====
-- internal/task/recurrence.go: the bounds of what parseLocalTime returns.
use go_chatgpt_tasks.Base.{ℕ, ◌<◌, ◌≡◌, inl, inr, ◌&&◌, ◌==◌, [], ◌∷◌, Text, Bool-cases, arith}
use go_chatgpt_tasks.Base.Parse.{is_digit}
use go_chatgpt_tasks.Task.Errors.{Sentinel}
use go_chatgpt_tasks.Task.Transitions.{Outcome, ok}
use go_chatgpt_tasks.Task.Recurrence.{parse_local_time, in_day, minutes, after_colon}

err_neq : {A : Type 0} {x : A} {s : Sentinel} → Outcome.err s ≡ ok x → ⊥
err_neq q = cc

in_day-bounds : (a b h m : ℕ) → in_day a b ≡ ok (h, m) → (h < 24) × (m < 60)
in_day-bounds a b h m e = ground (arith, e)

minutes-bounds : (a : ℕ) (s : Text) (h m : ℕ) → minutes a s ≡ ok (h, m) → (h < 24) × (m < 60)
minutes-bounds a [] h m e = cc
minutes-bounds a (d ∷ []) h m e = cc
minutes-bounds a (d ∷ f ∷ c ∷ s) h m e = cc
minutes-bounds a (d ∷ f ∷ []) h m e = elim (Bool-cases (is_digit d && is_digit f)) [
  | inl g ↦ in_day-bounds a _ h m (rw g at e)
  | inr g ↦ absurd (err_neq (rw g at e))
]

after_colon-bounds :
    (a : ℕ) (s : Text) (h m : ℕ) → after_colon a s ≡ ok (h, m) → (h < 24) × (m < 60)
after_colon-bounds a [] h m e = cc
after_colon-bounds a (c ∷ s) h m e = elim (Bool-cases (c == b':')) [
  | inl g ↦ minutes-bounds a s h m (rw g at e)
  | inr g ↦ absurd (err_neq (rw g at e))
]

-- A time of day that parseLocalTime returns is one.
pub parse_local_time-bounds :
    (s : Text) (h m : ℕ) → parse_local_time s ≡ ok (h, m) → (h < 24) × (m < 60)
unfolding parse_local_time
parse_local_time-bounds [] h m e = cc
parse_local_time-bounds (a ∷ []) h m e = cc
parse_local_time-bounds (a ∷ b ∷ s) h m e = elim (Bool-cases (is_digit a)) [
  | inr f ↦ absurd (err_neq (rw f at e))
  | inl f ↦ elim (Bool-cases (is_digit b)) [
    | inl g ↦ after_colon-bounds _ s h m (rw (f, g) at e)
    | inr g ↦ after_colon-bounds _ (b ∷ s) h m (rw (f, g) at e)
  ]
]
