-- ===== src/Users/Hasher.antt =====
-- internal/user/hasher_bcrypt.go. The library bcrypt is a parameter.
use go_chatgpt_tasks.Base.{ℕ, ◌==◌, if◌then◌else◌, Text, codes}
use go_chatgpt_tasks.Task.Errors.{sentinel, foreign, wrap, invalid_credentials}
use go_chatgpt_tasks.Task.Effect.{Result, ok, err, M, with_context, tock}

pub data Comparison : Type 0 where
  matched mismatched : Comparison
  unreadable : Text → Comparison

-- GenerateFromPassword at a cost, with the salt of a draw, and CompareHashAndPassword.
pub record Bcrypt : Type 0 where
  pub generate : ℕ → ℕ → Text → Result Text
  pub compare_hash : Text → Text → Comparison

abbrev default_cost : ℕ
default_cost = 10

-- NewBcryptHasher, as far as it chooses the cost.
abbrev pub cost_or_default : ℕ → ℕ
cost_or_default cost = if cost == 0 then default_cost else cost

unfoldable pub hash_password : Bcrypt → ℕ → Text → M Text
hash_password b cost plain =
    with_context (codes "bcrypt hash") λ w. (b.generate (cost_or_default cost) w.tick plain, tock w)

abbrev pub compared : Comparison → Result (Unit {0})
compared matched = ok tt
compared mismatched = err (sentinel invalid_credentials)
compared (unreadable m) = err (wrap (codes "bcrypt compare") (foreign m))

unfoldable pub compare_password : Bcrypt → Text → Text → Result (Unit {0})
compare_password b hashed plain = compared (b.compare_hash hashed plain)
