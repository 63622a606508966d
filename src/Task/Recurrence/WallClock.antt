-- ===== src/Task/Recurrence/WallClock.antt =====
-- internal/task/recurrence.go: the wall clock at the time that NextOccurrence finds, in any zone.
use go_chatgpt_tasks.Base.{
  ℕ, ◌≡◌, ◌≢◌, refl, inl, inr, true, not, ◌&&◌, ◌||◌, ◌==◌, ltb, List, [], ◌∷◌, some, Text, subst,
  Bool-cases, arith,
}
use go_chatgpt_tasks.Clock.{Time}
use go_chatgpt_tasks.Task.Errors.{invalid_recurrence}
use go_chatgpt_tasks.Task.Transitions.{Outcome, ok}
use go_chatgpt_tasks.Task.Recurrence.Location.{Zone, local_of, day_of, hour_of, minute_of}
use go_chatgpt_tasks.Task.Recurrence.{
  Rule, parse_local_time, DstNote, shifted_forward, same_wall, shifted, earliest_of, any_same,
  later, around, resolve_found, resolve_wall_time, candidate_of, occurrence, valid_rule,
  next_occurrence, valid_rule,
}

module _ (z : Zone) (day h m : ℕ) (candidate : Time) where
  -- The search for an earlier time keeps to the wall clock that is looked for.
  earliest_of-same :
      (ks : List ℕ) (earliest : Time)
      → same_wall z day h m earliest ≡ true
      → same_wall z day h m (earliest_of z day h m candidate ks earliest) ≡ true
  unfolding earliest_of
  earliest_of-same [] earliest e = e
  earliest_of-same (k ∷ ks) earliest e =
      elim (Bool-cases
        (same_wall z day h m (shifted candidate k) && ltb (shifted candidate k) earliest)) [
          | inl f ↦ rw f (earliest_of-same ks (shifted candidate k) (ground arith))
          | inr f ↦ rw f (earliest_of-same ks earliest e)
        ]

  found-same :
      (earliest : Time)
      → same_wall z day h m earliest ≡ true
      → same_wall z day h m (resolve_found z candidate day h m earliest).0 ≡ true
  found-same earliest e = elim (Bool-cases (earliest == candidate)) [
    | inl f ↦ elim (Bool-cases (any_same z day h m candidate later)) [
      | inl g ↦ ground arith
      | inr g ↦ ground arith
    ]
    | inr f ↦ ground arith
  ]

abbrev OnClock : Zone → ℕ → ℕ → Time → Type 0
OnClock z h m t = (hour_of (local_of z t) ≡ h) × (minute_of (local_of z t) ≡ m)

same-OnClock : (z : Zone) (day h m : ℕ) (t : Time) → same_wall z day h m t ≡ true → OnClock z h m t
same-OnClock z day h m t e = ground arith

resolve_wall_time-OnClock :
    (z : Zone) (candidate : Time) (h m : ℕ)
    → (resolve_wall_time z candidate h m).1 ≢ shifted_forward
    → OnClock z h m (resolve_wall_time z candidate h m).0
unfolding resolve_wall_time
resolve_wall_time-OnClock z candidate h m n =
    elim (Bool-cases
      (not (hour_of (local_of z candidate) == h) || not (minute_of (local_of z candidate) == m))) [
        | inl f ↦ absurd (n (rw f refl))
        | inr f ↦ rw f (
            same-OnClock z day h m _ (
              found-same z day h m candidate _
                (earliest_of-same z day h m candidate around candidate (ground arith))))
      ]
  where
    day : ℕ
    day = day_of (local_of z candidate)

-- What is found is what the candidate resolves to.
occurrence-resolved :
    (rule : Rule) (z : Zone) (after : Time) (h m : ℕ) (x : Time × DstNote)
    → occurrence rule (ok (h, m)) (some z) after ≡ ok x
    → resolve_wall_time z (candidate_of rule z after h m) h m ≡ x
occurrence-resolved rule z after h m x e = elim (Bool-cases (valid_rule rule)) [
  | inl f ↦ ok_inj (rw f at e)
  | inr f ↦ err_neq (rw f at e)
]
  where
    ok_inj : {a b : Time × DstNote} → Outcome.ok a ≡ ok b → a ≡ b
    ok_inj q = cc

    err_neq : {a b : Time × DstNote} → Outcome.err invalid_recurrence ≡ ok b → a ≡ b
    err_neq q = cc

-- Unless the time is noted as shifted forward, the wall clock of the zone, whatever its offsets,
-- shows the hour and the minute that are asked for.
pub next_occurrence-wall_clock :
    (rule : Rule) (s : Text) (z : Zone) (after t : Time) (n : DstNote) (h m : ℕ)
    → parse_local_time s ≡ ok (h, m)
    → next_occurrence rule s (some z) after ≡ ok (t, n)
    → n ≢ shifted_forward
    → (hour_of (local_of z t) ≡ h) × (minute_of (local_of z t) ≡ m)
unfolding next_occurrence
next_occurrence-wall_clock rule s z after t n h m p e k =
    let found = occurrence-resolved rule z after h m (t, n) (rw p at e) in
    subst (λ (x : Time × DstNote). x.1 ≢ shifted_forward → OnClock z h m x.0) found
      (resolve_wall_time-OnClock z (candidate_of rule z after h m) h m) k
