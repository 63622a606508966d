-- ===== src/Base/Int.antt =====
-- Signed numbers over the native ℕ. `negsuc n` is -(n + 1). `omega` reads them through their parts.
use Prim.Native.Nat.{ℕ, suc, ◌+◌, ◌-◌, ◌*◌, ◌%◌, ◌^◌, ◌≤◌, ◌<◌}
use mathlib.Core.Path.{◌≡◌}
use mathlib.Core.Bool.{Bool}
use native.Mathlib.Omega.{arith}
use go_chatgpt_tasks.Base.Tests.{leb, ltb, if◌then◌else◌}

pub data ℤ : Type 0 where
  pos negsuc : ℕ → ℤ

abbrev pub pos_part : ℤ → ℕ
pos_part (pos n) = n
pos_part (negsuc n) = 0

abbrev pub neg_part : ℤ → ℕ
neg_part (pos n) = 0
neg_part (negsuc n) = suc n

-- The difference of two numbers.
abbrev pub sub_ℕ : ℕ → ℕ → ℤ
sub_ℕ a b = if leb b a then pos (a - b) else negsuc (b - a - 1)

infixl 65 ◌+ℤ◌
infixl 70 ◌*ℤ◌
infix 50 ◌≤ℤ◌
unfoldable pub ◌+ℤ◌ : ℤ → ℤ → ℤ
a +ℤ b = sub_ℕ (pos_part a + pos_part b) (neg_part a + neg_part b)

unfoldable pub ◌*ℤ◌ : ℤ → ℤ → ℤ
a *ℤ b =
    sub_ℕ (pos_part a * pos_part b + neg_part a * neg_part b)
      (pos_part a * neg_part b + neg_part a * pos_part b)

abbrev pub ◌≤ℤ◌ : ℤ → ℤ → Type 0
a ≤ℤ b = pos_part a + neg_part b ≤ pos_part b + neg_part a

abbrev pub leb_ℤ : ℤ → ℤ → Bool
leb_ℤ a b = leb (pos_part a + neg_part b) (pos_part b + neg_part a)

abbrev pub ltb_ℤ : ℤ → ℤ → Bool
ltb_ℤ a b = ltb (pos_part a + neg_part b) (pos_part b + neg_part a)

-- A sum, by its parts.
pub +ℤ_parts :
    (a b : ℤ)
    → pos_part (a +ℤ b) + (neg_part a + neg_part b) ≡ pos_part a + pos_part b + neg_part (a +ℤ b)
unfolding ◌+ℤ◌
+ℤ_parts a b = ground arith

-- Numbers with the same difference of parts are equal.
pub eq_of_parts : (a b : ℤ) → pos_part a + neg_part b ≡ pos_part b + neg_part a → a ≡ b
eq_of_parts a b h = ground arith

-- The int64 that an integer wraps to.
unfoldable pub wrap_int64 : ℤ → ℤ
wrap_int64 n =
    let r = (pos_part n + (2 ^ 64 - neg_part n % 2 ^ 64)) % 2 ^ 64 in
    if ltb r (2 ^ 63) then pos r else sub_ℕ r (2 ^ 64)

-- An int64 is its own wrapping.
pub wrap_int64-id : (n : ℤ) → pos_part n < 2 ^ 63 → neg_part n ≤ 2 ^ 63 → wrap_int64 n ≡ n
unfolding wrap_int64
wrap_int64-id (pos n) h k = ground arith
wrap_int64-id (negsuc n) h k = ground arith

-- The int32 that an integer wraps to.
unfoldable pub wrap_int32 : ℤ → ℤ
wrap_int32 n =
    let r = (pos_part n + (2 ^ 32 - neg_part n % 2 ^ 32)) % 2 ^ 32 in
    if ltb r (2 ^ 31) then pos r else sub_ℕ r (2 ^ 32)

pub wrap_int32-id : (n : ℤ) → pos_part n < 2 ^ 31 → neg_part n ≤ 2 ^ 31 → wrap_int32 n ≡ n
unfolding wrap_int32
wrap_int32-id (pos n) h k = ground arith
wrap_int32-id (negsuc n) h k = ground arith
