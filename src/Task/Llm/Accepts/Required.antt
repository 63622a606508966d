-- ===== src/Task/Llm/Accepts/Required.antt =====
-- internal/task/llm.go, requiredFields: the fields that a schema requires.
use go_chatgpt_tasks.Base.{
  ◌≡◌, ◌≢◌, ◌⊎◌, refl, subst, inl, inr, true, false, All, Option, none, some, Text, codes, text_eq,
  text_eq→eq, text_eq_refl, Bool-cases, arith,
}
use go_chatgpt_tasks.Task.Llm.Json.{
  Json, null, boolean, number, string, array, object, Items, nil, cons, Members, end, member, get,
}
use go_chatgpt_tasks.Task.Llm.Validate.{
  strings_of, field_names, is_keyword, required_or, required_fields, explicit_properties,
}
use go_chatgpt_tasks.Task.Llm.Accepts.{
  NamedIn, at_head, further, FieldOf, first_field, later_field, NoKeyword, Requires, by_list,
  by_field,
}

text_eq-false : (s t : Text) → s ≢ t → text_eq s t ≡ false
text_eq-false s t h = elim (Bool-cases (text_eq s t)) [
  | inl e ↦ absurd (h (text_eq→eq s t e))
  | inr e ↦ e
]

text_eq-apart : (s t : Text) → text_eq s t ≡ false → s ≢ t
text_eq-apart s t e same =
    let again = subst (λ x. text_eq s x ≡ true) same (text_eq_refl s) in ground (arith, e, again)

keyword-none : (f : Text) → NoKeyword f → is_keyword f ≡ false
keyword-none f (a, b, c, d) =
    rw
      (
        text_eq-false f (codes "type") a,
        text_eq-false f (codes "required") b,
        text_eq-false f (codes "properties") c,
        text_eq-false f (codes "items") d,
      )
      refl

NoKeyword-of : (f : Text) → is_keyword f ≡ false → NoKeyword f
NoKeyword-of f e = (
  text_eq-apart f _ (ground (arith, e)),
  text_eq-apart f _ (ground (arith, e)),
  text_eq-apart f _ (ground (arith, e)),
  text_eq-apart f _ (ground (arith, e)),
)

-- Either the schema has the array, or its own fields count.
array_or :
    (r : Option Json)
    → ((xs : Items) × (r ≡ some (array xs))) ⊎ ((xs : Items) → r ≢ some (array xs))
array_or none = inr (λ xs e. cc)
array_or (some (array xs)) = inl (xs, refl)
array_or (some null) = inr (λ xs e. cc)
array_or (some (boolean b)) = inr (λ xs e. cc)
array_or (some (number x)) = inr (λ xs e. cc)
array_or (some (string s)) = inr (λ xs e. cc)
array_or (some (object o)) = inr (λ xs e. cc)

required_or-none :
    (r : Option Json) (ps : Option Members) (o : Members)
    → ((xs : Items) → r ≢ some (array xs))
    → required_or r ps o ≡ required_or none ps o
required_or-none none ps o h = refl
required_or-none (some (array xs)) ps o h = absurd (h xs refl)
required_or-none (some null) none o h = refl
required_or-none (some null) (some p) o h = refl
required_or-none (some (boolean b)) none o h = refl
required_or-none (some (boolean b)) (some p) o h = refl
required_or-none (some (number x)) none o h = refl
required_or-none (some (number x)) (some p) o h = refl
required_or-none (some (string s)) none o h = refl
required_or-none (some (string s)) (some p) o h = refl
required_or-none (some (object m)) none o h = refl
required_or-none (some (object m)) (some p) o h = refl

module _ (P : Text → Type 0) where
  All-NamedIn : (xs : Items) → All P (strings_of xs) → (f : Text) → NamedIn f xs → P f
  unfolding strings_of
  All-NamedIn nil h f x = elim x [ ]
  All-NamedIn (cons (string s) xs) h f (at_head _) = h.0
  All-NamedIn (cons (string s) xs) h f (further _ _ n) = All-NamedIn xs h.1 f n
  All-NamedIn (cons null xs) h f (further _ _ n) = All-NamedIn xs h f n
  All-NamedIn (cons (boolean b) xs) h f (further _ _ n) = All-NamedIn xs h f n
  All-NamedIn (cons (number x) xs) h f (further _ _ n) = All-NamedIn xs h f n
  All-NamedIn (cons (array ys) xs) h f (further _ _ n) = All-NamedIn xs h f n
  All-NamedIn (cons (object o) xs) h f (further _ _ n) = All-NamedIn xs h f n

  NamedIn-All : (xs : Items) → ((f : Text) → NamedIn f xs → P f) → All P (strings_of xs)
  unfolding strings_of
  NamedIn-All nil h = tt
  NamedIn-All (cons (string s) xs) h =
      (h s (at_head xs), NamedIn-All xs (λ f n. h f (further _ xs n)))
  NamedIn-All (cons null xs) h = NamedIn-All xs (λ f n. h f (further _ xs n))
  NamedIn-All (cons (boolean b) xs) h = NamedIn-All xs (λ f n. h f (further _ xs n))
  NamedIn-All (cons (number x) xs) h = NamedIn-All xs (λ f n. h f (further _ xs n))
  NamedIn-All (cons (array ys) xs) h = NamedIn-All xs (λ f n. h f (further _ xs n))
  NamedIn-All (cons (object o) xs) h = NamedIn-All xs (λ f n. h f (further _ xs n))

  All-FieldOf :
      (ms : Members)
      → All P (field_names ms)
      → (f : Text) → FieldOf f ms
      → is_keyword f ≡ false
      → P f
  unfolding field_names
  All-FieldOf end h f x e = elim x [ ]
  All-FieldOf (member k v ms) h f (first_field _ _) e = (rw e at h).0
  All-FieldOf (member k v ms) h f (later_field _ _ _ n) e = elim (Bool-cases (is_keyword k)) [
    | inl x ↦ All-FieldOf ms (rw x at h) f n e
    | inr x ↦ All-FieldOf ms (rw x at h).1 f n e
  ]

  FieldOf-All :
      (ms : Members)
      → ((f : Text) → FieldOf f ms → is_keyword f ≡ false → P f)
      → All P (field_names ms)
  unfolding field_names
  FieldOf-All end h = tt
  FieldOf-All (member k v ms) h =
      let rest = FieldOf-All ms (λ f n. h f (later_field k v ms n)) in
      elim (Bool-cases (is_keyword k)) [
        | inl x ↦ rw x rest
        | inr x ↦ rw x (h k (first_field v ms) x, rest)
      ]

  required_or-Requires :
      (r : Option Json) (ps : Option Members) (o : Members)
      → All P (required_or r ps o)
      → (f : Text) → Requires r ps o f
      → P f
  required_or-Requires r ps o h f (by_list xs e n) = All-NamedIn xs (rw e at h) f n
  required_or-Requires r ps o h f (by_field unlisted e n k) =
      All-FieldOf o (rw (e) at (rw (required_or-none r ps o unlisted) at h)) f n (keyword-none f k)

  none_or : (ps : Option Members) → (ps ≡ none) ⊎ ((p : Members) × (ps ≡ some p))
  none_or none = inl refl
  none_or (some p) = inr (p, refl)

  Requires-required_or :
      (r : Option Json) (ps : Option Members) (o : Members)
      → ((f : Text) → Requires r ps o f → P f)
      → All P (required_or r ps o)
  Requires-required_or r ps o h = elim (array_or r) [
    | inl (xs, e) ↦ rw e (NamedIn-All xs (λ f n. h f (by_list xs e n)))
    | inr unlisted ↦ rw (required_or-none r ps o unlisted) (elim (none_or ps) [
      | inl e ↦ rw e (FieldOf-All o (λ f n k. h f (by_field unlisted e n (NoKeyword-of f k))))
      | inr (p, e) ↦ rw e tt
    ])
  ]

  pub required-Requires :
      (o : Members)
      → All P (required_fields o)
      → (f : Text) → Requires (get (codes "required") o) (explicit_properties o) o f
      → P f
  unfolding required_fields
  required-Requires o = required_or-Requires (get (codes "required") o) (explicit_properties o) o

  pub Requires-required :
      (o : Members)
      → ((f : Text) → Requires (get (codes "required") o) (explicit_properties o) o f → P f)
      → All P (required_fields o)
  unfolding required_fields
  Requires-required o = Requires-required_or (get (codes "required") o) (explicit_properties o) o
