-- ===== src/Task/Recurrence/Fixed.antt =====
-- internal/task/recurrence.go: NextOccurrence in a zone whose offset never changes, such as UTC.
mod Days
use go_chatgpt_tasks.Base.{
  ℕ, zero, suc, ◌+◌, ◌-◌, ◌*◌, ◌/◌, ◌%◌, ◌≤◌, ◌<◌, ◌≡◌, ◌≢◌, refl, sym, ap, subst, ◌∙◌, inl, inr,
  ◌⊎◌, Bool, true, false, not, ◌&&◌, ◌||◌, ◌==◌, ltb, leb, if◌then◌else◌, List, [], ◌∷◌, All, some,
  Text, codes, text_eq, ◌^◌, Bool-cases, arith,
}
use go_chatgpt_tasks.Base.Int.{
  ℤ, pos, negsuc, pos_part, neg_part, ltb_ℤ, ◌*ℤ◌, wrap_int64, wrap_int64-id,
}
use go_chatgpt_tasks.Clock.{Time, second, minute, hour}
use go_chatgpt_tasks.Base.Parse.{is_digit}
use go_chatgpt_tasks.Task.Errors.{Sentinel}
use go_chatgpt_tasks.Task.Transitions.{Outcome, ok, err}
use go_chatgpt_tasks.Task.Recurrence.Location.{
  Zone, calendar, Span, ahead, behind, local_of, day_length, day_of, hour_of, minute_of, settled,
  is_zero_offset, wall_clock, date,
}
use go_chatgpt_tasks.Task.Recurrence.{
  Rule, parse_local_time, in_day, minutes, after_colon, DstNote, no_note, same_wall, half_hour,
  shifted, earliest_of, any_same, around, later, resolve_found, resolve_wall_time, step_days,
  is_near, candidate_of, valid_rule, occurrence, next_occurrence,
}
use go_chatgpt_tasks.Task.Recurrence.TimeOfDay.{parse_local_time-bounds}
use go_chatgpt_tasks.Task.Recurrence.Fixed.Days.{
  wall_clock-fields, wall_clock_unique, ahead-behind, shifted-apart, InRange, today, today-late,
  today-near, later-after, later-near,
}

==_refl : (a : ℕ) → (a == a) ≡ true
==_refl a = ground arith

same-near :
    (z : Zone) (d h m : ℕ) (t : Time)
    → same_wall z d h m t ≡ true
    → (wall_clock d h m ≤ local_of z t) × (local_of z t < wall_clock d h m + minute)
same-near z d h m t e =
    wall_clock_unique (local_of z t) d h m (ground (arith, e)) (ground (arith, e))
      (ground (arith, e))

-- The offsets of one zone, east or west by at most a day.
pub record FixedZone (z : Zone) (o : ℤ) : Type 0 where
  pub always : (t : Time) → (z.lookup t).offset ≡ o
  pub east : pos_part o ≤ 86400
  pub west : neg_part o ≤ 86400

module _ (z : Zone) (o : ℤ) (fixed : FixedZone z o) where
  local-fixed : (t : Time) → local_of z t ≡ ahead t o
  unfolding local_of
  local-fixed t = ap (ahead t) (fixed.always t)

  settled-fixed : (l : ℕ) (s : Span) → s.offset ≡ o → settled z l s ≡ o
  settled-fixed l s e =
      elim (Bool-cases (ltb (behind l s.offset) s.start || leb s.end (behind l s.offset))) [
        | inl f ↦ rw f (fixed.always _)
        | inr f ↦ rw f e
      ]

  date-fixed : (d h m : ℕ) → date z d h m ≡ behind (wall_clock d h m) o
  unfolding date
  date-fixed d h m =
      rw
        (
          settled-fixed (wall_clock d h m) (z.lookup (wall_clock d h m))
              (fixed.always (wall_clock d h m)),
          fixed.always (wall_clock d h m),
        )
        (go o)
    where
      go :
          (o : ℤ)
          → (if is_zero_offset o then wall_clock d h m else behind (wall_clock d h m) o)
            ≡ behind (wall_clock d h m) o
      go (pos zero) = omega arith
      go (pos (suc n)) = refl
      go (negsuc n) = refl

  -- A date after the first two days of the calendar.
  module _ (d h m : ℕ) (h_lt : h < 24) (m_lt : m < 60) (late : 2 ≤ d) where
    candidate : Time
    candidate = behind (wall_clock d h m) o

    candidate-local : local_of z candidate ≡ wall_clock d h m
    unfolding candidate
    candidate-local =
        local-fixed candidate ∙ ahead-behind (wall_clock d h m) o (omega (arith, fixed.east))

    -- Half an hour or more away, the wall clock is another one.
    shifted-other : (k : ℕ) → k ≢ 4 → k < 9 → same_wall z d h m (shifted candidate k) ≡ false
    unfolding candidate
    shifted-other k ne lt = elim (Bool-cases (same_wall z d h m (shifted candidate k))) [
      | inl e ↦
          let near = same-near z d h m _ e in
          absurd (
            shifted-apart (wall_clock d h m) k o (omega (arith, fixed.east)) ne
              (subst (λ x. wall_clock d h m ≤ x) (local-fixed _) near.0)
              (subst (λ x. x < wall_clock d h m + minute) (local-fixed _) near.1))
      | inr e ↦ e
    ]

    shifted-earlier :
        (k : ℕ)
        → k < 9
        → (same_wall z d h m (shifted candidate k) && ltb (shifted candidate k) candidate) ≡ false
    unfolding candidate
    shifted-earlier k lt = elim (Bool-cases (k == 4)) [
      | inl e ↦ no_earlier k (ground (arith, e))
      | inr e ↦ rw (shifted-other k (ground (arith, e)) lt) refl
    ]
      where
        no_earlier :
            (k : ℕ)
            → k ≡ 4
            → (same_wall z d h m (shifted candidate k) && ltb (shifted candidate k) candidate)
              ≡ false
        no_earlier k e = ground (arith, e)

    earliest_of-candidate :
        (ks : List ℕ) → All (λ k. k < 9) ks → earliest_of z d h m candidate ks candidate ≡ candidate
    unfolding earliest_of
    earliest_of-candidate [] a = refl
    earliest_of-candidate (k ∷ ks) a = rw (shifted-earlier k a.0) (earliest_of-candidate ks a.1)

    any_same-candidate :
        (ks : List ℕ) → All (λ k. (k < 9) × (k ≢ 4)) ks → any_same z d h m candidate ks ≡ false
    unfolding any_same
    any_same-candidate [] a = refl
    any_same-candidate (k ∷ ks) a = rw (shifted-other k a.0.1 a.0.0) (any_same-candidate ks a.1)

    resolve-candidate : resolve_wall_time z candidate h m ≡ (candidate, no_note)
    unfolding resolve_wall_time
    resolve-candidate =
        let f = wall_clock-fields d h m h_lt m_lt in
        rw (candidate-local, f.0, f.1.0, f.1.1)
          (rw
            (
              earliest_of-candidate around (omega arith),
              any_same-candidate later (omega arith),
              ==_refl h,
              ==_refl m,
              ==_refl candidate,
            )
            refl)

-- The days of a step that does not wrap.
abbrev pub days : Rule → ℕ
days rule =
    if text_eq rule.freq (codes "WEEKLY")
    then pos_part rule.interval * 7
    else pos_part rule.interval

weekly-step :
    (n : ℤ)
    → ltb_ℤ n (pos 1) ≡ false
    → pos_part n < 2 ^ 32
    → wrap_int64 (n *ℤ pos 7) ≡ pos (pos_part n * 7)
unfolding ◌*ℤ◌
weekly-step (negsuc n) v h = ground arith
weekly-step (pos n) v h = rw (times n) (wrap_int64-id (pos (n * 7)) (omega arith) (omega arith))
  where
    times : (n : ℕ) → pos n *ℤ pos 7 ≡ pos (n * 7)
    times n = ground arith

daily-step : (n : ℤ) → ltb_ℤ n (pos 1) ≡ false → n ≡ pos (pos_part n)
daily-step (pos n) v = refl
daily-step (negsuc n) v = ground arith

step_days-eq-days :
    (rule : Rule)
    → valid_rule rule ≡ true
    → pos_part rule.interval < 2 ^ 32
    → step_days rule ≡ pos (days rule)
step_days-eq-days rule v h = elim (Bool-cases (text_eq rule.freq (codes "WEEKLY"))) [
  | inl e ↦ rw e (weekly-step rule.interval (ground (arith, v)) h)
  | inr e ↦ rw e (daily-step rule.interval (ground (arith, v)))
]

days-positive : (rule : Rule) → valid_rule rule ≡ true → 1 ≤ days rule
days-positive rule v = ground (arith, v)

days-lt : (rule : Rule) → pos_part rule.interval < 2 ^ 32 → days rule < 2 ^ 35
days-lt rule h = ground arith

today-lt :
    (o : ℤ) (after : Time)
    → pos_part o ≤ 86400
    → after < 2 ^ 39 * day_length
    → today o after < 2 ^ 39 + 2
today-lt (pos n) after e h = omega arith
today-lt (negsuc n) after e h = omega arith

-- Where the wall clock shows the time that is asked for: on the day of `after`, or the rule's step
-- after it.
abbrev pub FallsOn : ℤ → Rule → ℕ → ℕ → Time → Time → Type 0
FallsOn o rule h m after t =
    (ahead t o ≡ wall_clock (today o after) h m)
    ⊎ (ahead t o ≡ wall_clock (today o after + days rule) h m)

-- In a zone with one offset, by a valid rule with an interval below 2 ^ 32 and from a time after the
-- first four days of the calendar and before its day 2 ^ 39, NextOccurrence returns a time without a
-- note: it is after `after`, by at most the interval in days or weeks, and the wall clock shows the
-- hour and minute that are asked for, on the same day or that many days or weeks later.
pub next_occurrence-fixed :
    (rule : Rule) (s : Text) (z : Zone) (o : ℤ) (after : Time) (h m : ℕ)
    → FixedZone z o
    → valid_rule rule ≡ true
    → parse_local_time s ≡ ok (h, m)
    → 4 * day_length ≤ after
    → after < 2 ^ 39 * day_length
    → pos_part rule.interval < 2 ^ 32
    → (t : Time) × ((next_occurrence rule s (some z) after ≡ ok (t, no_note))
        × ((after < t) × ((t ≤ after + days rule * day_length) × FallsOn o rule h m after t)))
unfolding next_occurrence candidate_of candidate
next_occurrence-fixed rule s z o after h m fixed v p late early small =
    elim (Bool-cases (ltb after (behind (wall_clock (today o after) h m) o))) [
      | inl e ↦ (
        behind (wall_clock (today o after) h m) o,
        (
          finds (today o after) late_day (chosen ∙ rw e refl),
          (
            ground (arith, e),
            (
              today-near o after h m (days rule) range,
              inl (ahead-behind _ o (omega (arith, fixed.east, late_day))),
            ),
          ),
        ),
      )
      | inr e ↦ (
        behind (wall_clock (today o after + days rule) h m) o,
        (
          finds (today o after + days rule) (omega (arith, late_day)) (chosen ∙ rw e refl),
          (
            later-after o after h m (days rule) range,
            (
              later-near o after h m (days rule) range (ground (arith, e)),
              inr (ahead-behind _ o (omega (arith, fixed.east, late_day))),
            ),
          ),
        ),
      )
    ]
  where
    hm : (h < 24) × (m < 60)
    hm = parse_local_time-bounds s h m p

    range : InRange o after h m (days rule)
    range = (fixed.east, (fixed.west, (late, (hm.0, (hm.1, days-positive rule v)))))

    late_day : 2 ≤ today o after
    late_day = today-late o after h m (days rule) range

    near : is_near (today o after) (pos (days rule)) ≡ true
    near = ground (arith, today-lt o after fixed.east early, days-lt rule small)

    chosen : candidate_of rule z after h m ≡ (
        if ltb after (behind (wall_clock (today o after) h m) o)
        then behind (wall_clock (today o after) h m) o
        else behind (wall_clock (today o after + days rule) h m) o)
    chosen =
        rw
          (
            local-fixed z o fixed after,
            date-fixed z o fixed (today o after) h m,
            step_days-eq-days rule v small,
            near,
            date-fixed z o fixed (today o after + days rule) h m,
          )
          refl

    finds :
        (d : ℕ)
        → 2 ≤ d
        → candidate_of rule z after h m ≡ behind (wall_clock d h m) o
        → occurrence rule (parse_local_time s) (some z) after
          ≡ ok (behind (wall_clock d h m) o, no_note)
    finds d l e = rw (p, v, e, resolve-candidate z o fixed d h m hm.0 hm.1 l) refl
