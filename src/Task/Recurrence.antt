-- ===== src/Task/Recurrence.antt =====
-- internal/task/recurrence.go: rules such as "FREQ=WEEKLY;INTERVAL=2", and the next time at which a
-- job falls due.
pub mod Location
mod TimeOfDay
pub mod RoundTrip
pub mod WallClock
pub mod Fixed
use go_chatgpt_tasks.Base.{
  ℕ, ◌+◌, ◌-◌, ◌*◌, ◌/◌, ◌%◌, Bool, true, false, not, ◌&&◌, ◌||◌, ◌==◌, ltb, if◌then◌else◌, List,
  [], ◌∷◌, Option, none, some, Text, codes, text_eq,
}
use go_chatgpt_tasks.Base.Int.{ℤ, pos, pos_part, ltb_ℤ, leb_ℤ, ◌*ℤ◌, wrap_int64}
use go_chatgpt_tasks.Base.Parse.{split, cut, trim_space, to_upper, is_digit, atoi}
use go_chatgpt_tasks.Clock.{Time, hour, minute}
use go_chatgpt_tasks.Task.Errors.{invalid_recurrence}
use go_chatgpt_tasks.Task.Transitions.{Outcome, ok, err}
use go_chatgpt_tasks.Task.Recurrence.Location.{
  Zone, calendar, local_of, day_of, hour_of, minute_of, date,
}

pub record Rule : Type 0 where
  pub freq : Text
  pub interval : ℤ

abbrev pub first_rule : Rule
first_rule = record { freq = []; interval = pos 1 }

-- One part of a rule, `rule` being what the parts before it have made.
abbrev pub with_interval : Rule → Option ℤ → Outcome Rule
with_interval rule none = err invalid_recurrence
with_interval rule (some n) =
    if ltb_ℤ n (pos 1) then err invalid_recurrence else ok (record rule { interval = n })

abbrev pub parse_pair : Rule → Option (Text × Text) → Outcome Rule
parse_pair rule none = err invalid_recurrence
parse_pair rule (some (key, value)) =
    if text_eq (to_upper key) (codes "FREQ")
    then ok (record rule { freq = to_upper value })
    else if text_eq (to_upper key) (codes "INTERVAL")
    then with_interval rule (atoi value)
    else err invalid_recurrence

unfoldable pub parse_part : Rule → Text → Outcome Rule
parse_part rule part = parse_pair rule (cut b'=' (trim_space part))

abbrev pub with_rule : Outcome Rule → (Rule → Outcome Rule) → Outcome Rule
with_rule (ok r) f = f r
with_rule (err s) f = err s

unfoldable pub parse_parts : List Text → Rule → Outcome Rule
parse_parts [] rule = ok rule
parse_parts (p ∷ ps) rule = with_rule (parse_part rule p) (parse_parts ps)

abbrev pub is_freq : Text → Bool
is_freq f = text_eq f (codes "DAILY") || text_eq f (codes "WEEKLY")

abbrev pub checked : Rule → Outcome Rule
checked rule = if not (is_freq rule.freq) then err invalid_recurrence else ok rule

unfoldable pub parse_rule : Text → Outcome Rule
parse_rule s = with_rule (parse_parts (split b';' s) first_rule) checked

-- parseLocalTime: what time.Parse("15:04", s) accepts, an hour of one or two digits and a minute of
-- two.
abbrev pub in_day : ℕ → ℕ → Outcome (ℕ × ℕ)
in_day h m = if ltb h 24 && ltb m 60 then ok (h, m) else err invalid_recurrence

abbrev pub digit : ℕ → ℕ
digit c = c - b'0'

abbrev pub minutes : ℕ → Text → Outcome (ℕ × ℕ)
minutes h (d ∷ e ∷ []) =
    if is_digit d && is_digit e then in_day h (digit d * 10 + digit e) else err invalid_recurrence
minutes h _ = err invalid_recurrence

abbrev pub after_colon : ℕ → Text → Outcome (ℕ × ℕ)
after_colon h [] = err invalid_recurrence
after_colon h (c ∷ s) = if c == b':' then minutes h s else err invalid_recurrence

unfoldable pub parse_local_time : Text → Outcome (ℕ × ℕ)
parse_local_time [] = err invalid_recurrence
parse_local_time (a ∷ []) = err invalid_recurrence
parse_local_time (a ∷ b ∷ s) =
    if not (is_digit a)
    then err invalid_recurrence
    else if is_digit b
    then after_colon (digit a * 10 + digit b) s
    else after_colon (digit a) (b ∷ s)

pub data DstNote : Type 0 where
  no_note shifted_forward ambiguous_first : DstNote

-- The same year, day of the year, hour and minute.
abbrev pub same_wall : Zone → ℕ → ℕ → ℕ → Time → Bool
same_wall z day h m other =
    day_of (local_of z other) == day
    && (hour_of (local_of z other) == h && minute_of (local_of z other) == m)

abbrev pub half_hour : ℕ
half_hour = 30 * minute

-- candidate.Add(delta) for the deltas from -2h to 2h, and those from 30m to 2h.
abbrev pub shifted : Time → ℕ → Time
shifted t k = t + k * half_hour - 2 * hour

unfoldable pub earliest_of : Zone → ℕ → ℕ → ℕ → Time → List ℕ → Time → Time
earliest_of z day h m candidate [] earliest = earliest
earliest_of z day h m candidate (k ∷ ks) earliest =
    let other = shifted candidate k in
    earliest_of z day h m candidate ks
      (if same_wall z day h m other && ltb other earliest then other else earliest)

unfoldable pub any_same : Zone → ℕ → ℕ → ℕ → Time → List ℕ → Bool
any_same z day h m candidate [] = false
any_same z day h m candidate (k ∷ ks) =
    same_wall z day h m (shifted candidate k) || any_same z day h m candidate ks

abbrev pub around : List ℕ
around = 0 ∷ 1 ∷ 2 ∷ 3 ∷ 4 ∷ 5 ∷ 6 ∷ 7 ∷ 8 ∷ []

abbrev pub later : List ℕ
later = 5 ∷ 6 ∷ 7 ∷ 8 ∷ []

-- wallDelta, where it is positive: `candidate` is moved forward by it.
abbrev pub moved_forward : Time → ℕ → ℕ → Time
moved_forward candidate wanted actual = candidate + (wanted - actual) * minute

abbrev pub resolve_found : Zone → Time → ℕ → ℕ → ℕ → Time → Time × DstNote
resolve_found z candidate day h m earliest =
    if not (earliest == candidate)
    then (earliest, ambiguous_first)
    else if any_same z day h m candidate later
    then (candidate, ambiguous_first)
    else (candidate, no_note)

unfoldable pub resolve_wall_time : Zone → Time → ℕ → ℕ → Time × DstNote
resolve_wall_time z candidate h m =
    let l = local_of z candidate in
    if not (hour_of l == h) || not (minute_of l == m)
    then (moved_forward candidate (h * 60 + m) (hour_of l * 60 + minute_of l), shifted_forward)
    else resolve_found z candidate (day_of l) h m
        (earliest_of z (day_of l) h m candidate around candidate)

-- `stepDays *= 7` wraps as an int does.
abbrev pub step_days : Rule → ℤ
step_days rule =
    if text_eq rule.freq (codes "WEEKLY")
    then wrap_int64 (rule.interval *ℤ pos 7)
    else rule.interval

-- time.Date on the day that is a step after another one. Where that day is before it or beyond the
-- calendar, the zone's record says what time.Date makes of it.
abbrev pub is_near : ℕ → ℤ → Bool
is_near day step = leb_ℤ (pos 0) step && ltb (day + pos_part step) calendar

abbrev pub date_after : Zone → ℕ → ℤ → ℕ → ℕ → Time
date_after z day step h m =
    if is_near day step then date z (day + pos_part step) h m else z.beyond day step h m

-- The date to resolve.
unfoldable pub candidate_of : Rule → Zone → Time → ℕ → ℕ → Time
candidate_of rule z after h m =
    let day = day_of (local_of z after) in
    if ltb after (date z day h m) then date z day h m else date_after z day (step_days rule) h m

abbrev pub valid_rule : Rule → Bool
valid_rule rule = not (ltb_ℤ rule.interval (pos 1)) && is_freq rule.freq

abbrev pub occurrence : Rule → Outcome (ℕ × ℕ) → Option Zone → Time → Outcome (Time × DstNote)
occurrence rule (err s) tz after = err invalid_recurrence
occurrence rule (ok hm) none after = err invalid_recurrence
occurrence rule (ok (h, m)) (some z) after =
    if not (valid_rule rule)
    then err invalid_recurrence
    else ok (resolve_wall_time z (candidate_of rule z after h m) h m)

-- NextOccurrence, whose `tz` may be nil.
unfoldable pub next_occurrence : Rule → Text → Option Zone → Time → Outcome (Time × DstNote)
next_occurrence rule local_time tz after = occurrence rule (parse_local_time local_time) tz after
