-- ===== src/Task/Recurrence/RoundTrip.antt =====
-- internal/task/recurrence.go: ParseRule on the text of a rule.
use go_chatgpt_tasks.Base.{
  ℕ, zero, suc, ◌+◌, ◌-◌, ◌*◌, ◌/◌, ◌%◌, ◌^◌, ◌<◌, ◌≡◌, refl, ap, ◌∙◌, inl, inr, true, false, ◌==◌,
  [], ◌∷◌, ◌++◌, All, some, Text, codes, is_empty, Bool-cases, arith,
}
use go_chatgpt_tasks.Base.Int.{pos}
use go_chatgpt_tasks.Base.Parse.{
  split, cut, trim_space, trim_left, trim_right, to_upper, is_digit, is_space, digits_from, atoi,
  positive_int,
}
use go_chatgpt_tasks.Task.Keys.{itoa, itoa_loop}
use go_chatgpt_tasks.Task.Transitions.{ok}
use go_chatgpt_tasks.Task.Recurrence.{
  Rule, first_rule, parse_part, parse_parts, parse_rule, with_interval,
}

-- A text that is not empty and whose characters are digits.
abbrev IsDigit : ℕ → Type 0
IsDigit c = is_digit c ≡ true

last-IsDigit : (n : ℕ) → IsDigit (b'0' + n % 10)
last-IsDigit n = ground arith

itoa_loop-digits : (f n : ℕ) (acc : Text) → All IsDigit acc → All IsDigit (itoa_loop f n acc)
unfolding itoa_loop
itoa_loop-digits zero n acc h = h
itoa_loop-digits (suc f) n acc h = elim (Bool-cases (n / 10 == 0)) [
  | inl e ↦ rw e (last-IsDigit n, h)
  | inr e ↦ rw e (itoa_loop-digits f (n / 10) _ (last-IsDigit n, h))
]

-- What is read back from the digits of `n` in front of other digits.
digits_from-itoa_loop :
    (f n : ℕ) (acc : Text) → n < f → digits_from 0 (itoa_loop f n acc) ≡ digits_from n acc
unfolding itoa_loop digits_from
digits_from-itoa_loop zero n acc lt = absurd (omega (arith, lt))
digits_from-itoa_loop (suc f) n acc lt = elim (Bool-cases (n / 10 == 0)) [
  | inl e ↦ rw (e, last-IsDigit n) (ap (λ k. digits_from k acc) (last n (ground (arith, e))))
  | inr e ↦ rw e (
      digits_from-itoa_loop f (n / 10) _ (ground arith)
      ∙ rw (last-IsDigit n) (ap (λ k. digits_from k acc) (next n)))
]
  where
    last : (k : ℕ) → k / 10 ≡ 0 → 0 * 10 + (b'0' + k % 10 - b'0') ≡ k
    last k e = omega (arith, e)

    next : (k : ℕ) → k / 10 * 10 + (b'0' + k % 10 - b'0') ≡ k
    next k = omega arith

digit_no_semicolon : (c : ℕ) → IsDigit c → (c == b';') ≡ false
digit_no_semicolon c h = ground arith

digit_no_space : (c : ℕ) → IsDigit c → is_space c ≡ false
digit_no_space c h = ground arith

split-digits : (s : Text) → All IsDigit s → split b';' s ≡ s ∷ []
unfolding split
split-digits [] h = refl
split-digits (c ∷ s) h = rw (split-digits s h.1) (rw (digit_no_semicolon c h.0) refl)

trim_right-digits : (s : Text) → All IsDigit s → trim_right s ≡ s
unfolding trim_right
trim_right-digits [] h = refl
trim_right-digits (c ∷ s) h = rw (trim_right-digits s h.1) (rw (digit_no_space c h.0) refl)

itoa_loop-full : (f n : ℕ) (c : ℕ) (acc : Text) → is_empty (itoa_loop f n (c ∷ acc)) ≡ false
unfolding itoa_loop
itoa_loop-full zero n c acc = refl
itoa_loop-full (suc f) n c acc = elim (Bool-cases (n / 10 == 0)) [
  | inl e ↦ rw e refl
  | inr e ↦ rw e (itoa_loop-full f (n / 10) _ _)
]

itoa-full : (n : ℕ) → is_empty (itoa n) ≡ false
unfolding itoa itoa_loop
itoa-full n = elim (Bool-cases (n / 10 == 0)) [
  | inl e ↦ rw e refl
  | inr e ↦ rw e (itoa_loop-full n (n / 10) _ _)
]

itoa-digits : (n : ℕ) → All IsDigit (itoa n)
unfolding itoa
itoa-digits n = itoa_loop-digits (suc n) n [] tt

digits_from-itoa : (n : ℕ) → digits_from 0 (itoa n) ≡ some n
unfolding itoa digits_from
digits_from-itoa n = digits_from-itoa_loop (suc n) n [] (omega arith)

atoi-digits :
    (s : Text) (n : ℕ)
    → is_empty s ≡ false
    → All IsDigit s
    → digits_from 0 s ≡ some n
    → n < 2 ^ 63
    → atoi s ≡ some (pos n)
unfolding atoi
atoi-digits [] n full h e lt = cc
atoi-digits (c ∷ s) n full h e lt = rw (no_minus c h.0, no_plus c h.0, e) (in_range n lt)
  where
    no_minus : (c : ℕ) → IsDigit c → (c == b'-') ≡ false
    no_minus c h = ground arith

    in_range : (n : ℕ) → n < 2 ^ 63 → positive_int (some n) ≡ some (pos n)
    in_range n lt = ground arith

    no_plus : (c : ℕ) → IsDigit c → (c == b'+') ≡ false
    no_plus c h = ground arith

atoi-itoa : (n : ℕ) → n < 2 ^ 63 → atoi (itoa n) ≡ some (pos n)
atoi-itoa n lt = atoi-digits (itoa n) n (itoa-full n) (itoa-digits n) (digits_from-itoa n) lt

-- The frequencies, and the text of a rule.
pub data Freq : Type 0 where
  daily weekly : Freq

abbrev pub freq_text : Freq → Text
freq_text daily = codes "DAILY"
freq_text weekly = codes "WEEKLY"

abbrev pub rule_text : Freq → ℕ → Text
rule_text f n = codes "FREQ=" ++ (freq_text f ++ (codes ";INTERVAL=" ++ itoa n))

interval_part :
    (r : Rule) (s : Text) (n : ℕ)
    → All IsDigit s
    → atoi s ≡ some (pos (suc n))
    → parse_part r (codes "INTERVAL=" ++ s) ≡ ok (record r { interval = pos (suc n) })
unfolding parse_part trim_space trim_left trim_right cut to_upper
interval_part r s n h e = rw (trim_right-digits s h, e) (set r n)
  where
    set :
        (r : Rule) (n : ℕ)
        → with_interval r (some (pos (suc n))) ≡ ok (record r { interval = pos (suc n) })
    set r n = ground arith

-- ParseRule reads the text of a rule back, if the interval is a positive int.
pub parse_rule-rule_text :
    (f : Freq) (n : ℕ)
    → suc n < 2 ^ 63
    → parse_rule (rule_text f (suc n)) ≡ ok (record { freq = freq_text f; interval = pos (suc n) })
unfolding parse_rule parse_parts split parse_part cut trim_space trim_right trim_left to_upper
parse_rule-rule_text daily n lt =
    rw
      (
        split-digits (itoa (suc n)) (itoa-digits (suc n)),
        interval_part (record first_rule { freq = codes "DAILY" }) (itoa (suc n)) n
            (itoa-digits (suc n)) (atoi-itoa (suc n) lt),
      )
      refl
parse_rule-rule_text weekly n lt =
    rw
      (
        split-digits (itoa (suc n)) (itoa-digits (suc n)),
        interval_part (record first_rule { freq = codes "WEEKLY" }) (itoa (suc n)) n
            (itoa-digits (suc n)) (atoi-itoa (suc n) lt),
      )
      refl
