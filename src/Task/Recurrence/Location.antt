-- ===== src/Task/Recurrence/Location.antt =====
-- time.Location, and what internal/task/recurrence.go asks of it. The time zone database is a
-- parameter. A local time is the nanoseconds that the wall clock shows since its year 1; a date is
-- the number of its day.
use go_chatgpt_tasks.Base.{
  ◌^◌, ℕ, zero, ◌+◌, ◌-◌, ◌*◌, ◌/◌, ◌%◌, Bool, true, false, ◌||◌, ltb, leb, if◌then◌else◌,
}
use go_chatgpt_tasks.Base.Int.{ℤ, pos, pos_part, neg_part}
use go_chatgpt_tasks.Clock.{Time, second, minute, hour}

-- The zone in use from `start` up to `end`: its offset in seconds east of UTC.
pub record Span : Type 0 where
  pub offset : ℤ
  pub start : Time
  pub end : Time

-- Location.lookup.
pub record Zone : Type 0 where
  pub lookup : Time → Span
  pub beyond : ℕ → ℤ → ℕ → ℕ → Time

-- The days of the calendar: time.Date counts them in 64 bits of seconds, without wrapping.
abbrev pub calendar : ℕ
calendar = 2 ^ 40

-- A time and an offset: no time stands before year 1.
abbrev pub ahead : Time → ℤ → ℕ
ahead t o = t + pos_part o * second - neg_part o * second

abbrev pub behind : ℕ → ℤ → Time
behind l o = l + neg_part o * second - pos_part o * second

-- t.In(tz), and the fields of its wall clock.
unfoldable pub local_of : Zone → Time → ℕ
local_of z t = ahead t (z.lookup t).offset

abbrev pub day_length : ℕ
day_length = 24 * hour

abbrev pub day_of : ℕ → ℕ
day_of l = l / day_length

abbrev pub hour_of : ℕ → ℕ
hour_of l = l % day_length / hour

abbrev pub minute_of : ℕ → ℕ
minute_of l = l % hour / minute

-- The offset that time.Date takes for a wall clock: that of the zone found at the same number in
-- UTC, or, if the time is then not in that zone, that of the zone the time is in.
abbrev pub is_zero_offset : ℤ → Bool
is_zero_offset (pos zero) = true
is_zero_offset _ = false

abbrev pub settled : Zone → ℕ → Span → ℤ
settled z l s =
    let utc = behind l s.offset in
    if ltb utc s.start || leb s.end utc then (z.lookup utc).offset else s.offset

abbrev pub wall_clock : ℕ → ℕ → ℕ → ℕ
wall_clock day h m = day * day_length + h * hour + m * minute

-- time.Date(year, month, day, h, m, 0, 0, tz) for the date whose number is `day`.
unfoldable pub date : Zone → ℕ → ℕ → ℕ → Time
date z day h m =
    let l = wall_clock day h m in
    let s = z.lookup l in if is_zero_offset s.offset then l else behind l (settled z l s)
