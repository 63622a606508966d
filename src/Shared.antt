-- ===== src/Shared.antt =====
-- internal/shared/pagination.go: the limit and the offset of a listing.
pub mod Ids
use go_chatgpt_tasks.Base.{ℕ, ◌≤◌, ◌≡◌, if◌then◌else◌, ltb, arith}
use go_chatgpt_tasks.Base.Int.{ℤ, pos, pos_part, leb_ℤ, ◌≤ℤ◌}

-- A value of NewPagination, whose numbers are not negative.
pub record Pagination : Type 0 where
  pub limit : ℕ
  pub offset : ℕ

abbrev default_limit : ℕ
default_limit = 20

abbrev max_limit : ℕ
max_limit = 100

-- The two tests on the limit, in their order.
abbrev clamp_limit : ℤ → ℕ
clamp_limit limit =
    let l = if leb_ℤ limit (pos 0) then default_limit else pos_part limit in
    if ltb max_limit l then max_limit else l

abbrev clamp_offset : ℤ → ℕ
clamp_offset offset = pos_part offset

unfoldable pub new_pagination : ℤ → ℤ → Pagination
new_pagination limit offset = record { limit = clamp_limit limit; offset = clamp_offset offset }

-- NewPagination gives a limit from 1 to 100.
pub new_pagination-bounds :
    (limit offset : ℤ)
    → (1 ≤ (new_pagination limit offset).limit) × ((new_pagination limit offset).limit ≤ 100)
unfolding new_pagination
new_pagination-bounds limit offset = (ground arith, ground arith)

-- NewPagination keeps a limit from 1 to 100 and an offset that is not negative.
pub new_pagination-same :
    (limit offset : ℤ)
    → pos 1 ≤ℤ limit
    → limit ≤ℤ pos 100
    → pos 0 ≤ℤ offset
    → (pos (new_pagination limit offset).limit ≡ limit)
      × (pos (new_pagination limit offset).offset ≡ offset)
unfolding new_pagination
new_pagination-same limit offset low high start = (ground arith, ground arith)
