-- ===== src/Task/Llm/Json.antt =====
-- What json.Unmarshal puts into an `any`: the values that internal/task/llm.go inspects. A float64
-- that JSON can hold is finite, so it is mantissa * 2 ^ exponent for two integers. An object's
-- members have different names.
use go_chatgpt_tasks.Base.{
  ℕ, suc, ◌*◌, ◌/◌, ◌%◌, ◌^◌, Bool, ◌&&◌, ◌==◌, ltb, leb, if◌then◌else◌, Option, none, some, Text,
  text_eq,
}
use go_chatgpt_tasks.Base.Int.{ℤ, sub_ℕ, pos, negsuc, pos_part, neg_part}

pub record Float64 : Type 0 where
  pub mantissa : ℤ
  pub exponent : ℤ

mutual
  pub data Json : Type 0 where
    null : Json
    boolean : Bool → Json
    number : Float64 → Json
    string : Text → Json
    array : Items → Json
    object : Members → Json

  pub data Items : Type 0 where
    nil : Items
    cons : Json → Items → Items

  pub data Members : Type 0 where
    end : Members
    member : Text → Json → Members → Members

-- object[key].
unfoldable pub get : Text → Members → Option Json
get key end = none
get key (member k v ms) = if text_eq k key then some v else get key ms

-- Whether m * 2 ^ e is a whole number in the range of int64, which is when a conversion to int64 and
-- back gives the same number.
abbrev scaled : ℤ → ℕ → ℤ
scaled m k = sub_ℕ (pos_part m * k) (neg_part m * k)

abbrev in_int64 : ℤ → Bool
in_int64 (pos n) = ltb n (2 ^ 63)
in_int64 (negsuc n) = ltb n (2 ^ 63)

abbrev divided : ℤ → ℕ → ℤ
divided m k = sub_ℕ (pos_part m / k) (neg_part m / k)

abbrev divides : ℕ → ℤ → Bool
divides k m = (pos_part m % k == 0) && (neg_part m % k == 0)

unfoldable pub is_int64 : Float64 → Bool
is_int64 x = elim x.exponent [
  | pos e ↦ in_int64 (scaled x.mantissa (2 ^ e))
  | negsuc e ↦ divides (2 ^ suc e) x.mantissa && in_int64 (divided x.mantissa (2 ^ suc e))
]

-- The nesting of arrays and objects.
abbrev pub max : ℕ → ℕ → ℕ
max a b = if leb a b then b else a

unfoldable mutual
  pub depth : Json → ℕ
  depth (array xs) = suc (depth_items xs)
  depth (object ms) = suc (depth_members ms)
  depth _ = 0

  pub depth_items : Items → ℕ
  depth_items nil = 0
  depth_items (cons x xs) = max (depth x) (depth_items xs)

  pub depth_members : Members → ℕ
  depth_members end = 0
  depth_members (member k v ms) = max (depth v) (depth_members ms)
