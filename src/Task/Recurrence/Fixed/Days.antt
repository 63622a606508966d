-- ===== src/Task/Recurrence/Fixed/Days.antt =====
-- internal/task/recurrence.go: the arithmetic of dates and offsets.
use go_chatgpt_tasks.Base.{ℕ, ◌+◌, ◌*◌, ◌≤◌, ◌<◌, ◌≡◌, ◌≢◌, arith}
use go_chatgpt_tasks.Base.Int.{ℤ, pos, negsuc, pos_part, neg_part}
use go_chatgpt_tasks.Clock.{Time, second, minute}
use go_chatgpt_tasks.Task.Recurrence.Location.{
  ahead, behind, day_length, day_of, hour_of, minute_of, wall_clock,
}
use go_chatgpt_tasks.Task.Recurrence.{shifted}

pub wall_clock-fields :
    (d h m : ℕ)
    → h < 24
    → m < 60
    → (day_of (wall_clock d h m) ≡ d)
      × ((hour_of (wall_clock d h m) ≡ h) × (minute_of (wall_clock d h m) ≡ m))
wall_clock-fields d h m a b = (omega arith, (omega arith, omega arith))

pub wall_clock_unique :
    (l d h m : ℕ)
    → day_of l ≡ d
    → hour_of l ≡ h
    → minute_of l ≡ m
    → (wall_clock d h m ≤ l) × (l < wall_clock d h m + minute)
wall_clock_unique l d h m a b c = (omega arith, omega arith)

pub ahead-behind : (l : ℕ) (o : ℤ) → pos_part o * second ≤ l → ahead (behind l o) o ≡ l
ahead-behind l (pos n) h = omega arith
ahead-behind l (negsuc n) h = omega arith

-- Half an hour or more from a time, its wall clock is at least a minute away.
pub shifted-apart :
    (l k : ℕ) (o : ℤ)
    → (pos_part o + 7200) * second ≤ l
    → k ≢ 4
    → l ≤ ahead (shifted (behind l o) k) o
    → ahead (shifted (behind l o) k) o < l + minute
    → ⊥
shifted-apart l k (pos n) a ne b c = omega (arith, a, ne, b, c)
shifted-apart l k (negsuc n) a ne b c = omega (arith, a, ne, b, c)

-- The bounds of a date on the day of `after`, and `n` days later.
abbrev pub InRange : ℤ → Time → ℕ → ℕ → ℕ → Type 0
InRange o after h m n =
    (pos_part o ≤ 86400)
    × ((neg_part o ≤ 86400) × ((4 * day_length ≤ after) × ((h < 24) × ((m < 60) × (1 ≤ n)))))

abbrev pub today : ℤ → Time → ℕ
today o after = day_of (ahead after o)

pub today-late : (o : ℤ) (after h m n : ℕ) → InRange o after h m n → 2 ≤ today o after
today-late (pos k) after h m n r = omega (arith, r)
today-late (negsuc k) after h m n r = omega (arith, r)

pub today-near :
    (o : ℤ) (after h m n : ℕ)
    → InRange o after h m n
    → behind (wall_clock (today o after) h m) o ≤ after + n * day_length
today-near (pos k) after h m n r = omega (arith, r)
today-near (negsuc k) after h m n r = omega (arith, r)

pub later-after :
    (o : ℤ) (after h m n : ℕ)
    → InRange o after h m n
    → after < behind (wall_clock (today o after + n) h m) o
later-after (pos k) after h m n r = omega (arith, r)
later-after (negsuc k) after h m n r = omega (arith, r)

pub later-near :
    (o : ℤ) (after h m n : ℕ)
    → InRange o after h m n
    → behind (wall_clock (today o after) h m) o ≤ after
    → behind (wall_clock (today o after + n) h m) o ≤ after + n * day_length
later-near (pos k) after h m n r le = omega (arith, r, le)
later-near (negsuc k) after h m n r le = omega (arith, r, le)
