-- ===== src/Task/Llm/Accepts/Complete.antt =====
-- internal/task/llm.go: validateJSONValue lets every value pass that the schema accepts, when the
-- fuel is above the schema's depth.
use go_chatgpt_tasks.Base.{
  ℕ, zero, suc, ◌≤◌, ◌<◌, ◌+◌, ◌≡◌, refl, subst, ◌∙◌, inl, inr, true, List, [], ◌∷◌, ◌++◌, All,
  Option, none, some, Text, codes, text_eq, text_eq→eq, Bool-cases, arith,
}
use go_chatgpt_tasks.Task.Keys.{itoa}
use go_chatgpt_tasks.Task.Llm.Json.{
  Json, null, boolean, number, string, array, object, Items, Members, end, member, get, depth,
  depth_members, max,
}
use go_chatgpt_tasks.Task.Llm.Validate.{
  Check, valid, same_type, matches_json_type, schema_type, explicit_properties, or_else,
  object_or_none, required_fields, check_required, check_items, check_properties, check_fields,
  check_array, check_typed, check_value, validate_json_value,
}
use go_chatgpt_tasks.Task.Llm.Accepts.Leaf.{HasType-leaf, HasType-matches}
use go_chatgpt_tasks.Task.Llm.Accepts.Required.{Requires-required}
use go_chatgpt_tasks.Task.Llm.Accepts.{
  is_plain, is_leaf_type, is_object_type, HasField, Accepts, anything, alike, leaf, list, fields,
  ItemsAccepted, unchecked, no_items, items, FieldsAccepted, no_fields, absent, present,
}

max-left : (a b : ℕ) → a ≤ max a b
max-left a b = ground arith

max-right : (a b : ℕ) → b ≤ max a b
max-right a b = ground arith

get-depth : (k : Text) (ms : Members) (s : Json) → get k ms ≡ some s → depth s ≤ depth_members ms
unfolding get depth
get-depth k end s e = ground arith
get-depth k (member j v ms) s e = elim (Bool-cases (text_eq j k)) [
  | inl hit ↦
      subst (λ x. depth x ≤ max (depth v) (depth_members ms)) (some_inj (rw hit at e))
        (max-left (depth v) (depth_members ms))
  | inr miss ↦
      omega (arith, get-depth k ms s (rw miss at e), max-right (depth v) (depth_members ms))
]
  where
    some_inj : {x y : Json} → some x ≡ some y → x ≡ y
    some_inj h = cc

properties-depth :
    (o : Members) → depth_members (or_else (explicit_properties o) o) ≤ depth_members o
unfolding explicit_properties depth
properties-depth o = go (get (codes "properties") o) (get-depth (codes "properties") o)
  where
    go :
        (x : Option Json)
        → ((s : Json) → x ≡ some s → depth s ≤ depth_members o)
        → depth_members (or_else (object_or_none x) o) ≤ depth_members o
    go none h = omega arith
    go (some null) h = omega arith
    go (some (boolean b)) h = omega arith
    go (some (number x)) h = omega arith
    go (some (string s)) h = omega arith
    go (some (array xs)) h = omega arith
    go (some (object ms)) h = omega (arith, h (object ms) refl)

HasField-required :
    (fs : List Text) (got : Members) (p : Text)
    → All (HasField got) fs
    → check_required fs got p ≡ valid
unfolding check_required
HasField-required [] got p h = refl
HasField-required (f ∷ fs) got p h = ground (arith, HasField-required fs got p h.1)

module _ (check : Json → Json → Text → Check) where
  plain_complete :
      (s v : Json) (p : Text)
      → is_plain s ≡ true
      → same_type s v ≡ true
      → check_value check s v p ≡ valid
  unfolding check_value
  plain_complete null v p h k = cc
  plain_complete (object o) v p h k = cc
  plain_complete (boolean b) v p h k = rw k
  plain_complete (number x) v p h k = rw k
  plain_complete (string s) v p h k = rw k
  plain_complete (array xs) v p h k = rw k

  leaf_complete :
      (o : Members) (t : Text) (v : Json) (p : Text)
      → is_leaf_type t ≡ true
      → matches_json_type t v ≡ true
      → check_typed check o t v p ≡ valid
  unfolding check_typed
  leaf_complete o [] v p h k = cc
  leaf_complete o (c ∷ t) v p h k = ground arith

  -- The items, from the one at index `i` on, where there is a schema for them.
  abbrev check_rest : Option Json → Items → ℕ → Text → Check
  check_rest none xs i p = valid
  check_rest (some s) xs i p = check_items check s xs i p

  typed-array :
      (o : Members) (t : Text) (xs : Items) (p : Text)
      → t ≡ codes "array"
      → check_typed check o t (array xs) p ≡ check_rest (get (codes "items") o) xs 0 p
  unfolding check_typed matches_json_type
  typed-array o t xs p e = rw e (go (get (codes "items") o))
    where
      go : (s : Option Json) → check_array check s (array xs) p ≡ check_rest s xs 0 p
      go none = refl
      go (some s) = refl

  typed-object :
      (o : Members) (t : Text) (got : Members) (p : Text)
      → t ≡ codes "object"
      → check_typed check o t (object got) p ≡ check_fields check o (object got) p
  unfolding check_typed matches_json_type
  typed-object o t got p e = rw e refl

  typed-fields :
      (o : Members) (t : Text) (got : Members) (p : Text)
      → is_object_type t ≡ true
      → check_typed check o t (object got) p ≡ check_fields check o (object got) p
  unfolding check_typed matches_json_type
  typed-fields o [] got p h = refl
  typed-fields o (c ∷ t) got p h =
      typed-object o (c ∷ t) got p (text_eq→eq (c ∷ t) (codes "object") h)

mutual
  unfolding validate_json_value check_value check_fields check_items check_properties depth

  complete :
      {s v : Json} (a : Accepts s v) (f : ℕ) (p : Text)
      → depth s < f
      → validate_json_value f s v p ≡ valid
  complete a zero p lt = elim lt [ ]
  complete (anything v) (suc f) p lt = refl
  complete (alike s v plain same) (suc f) p lt =
      plain_complete (validate_json_value f) s v p plain same
  complete (leaf o v h) (suc f) p lt =
      leaf_complete (validate_json_value f) o (schema_type o) v p (HasType-leaf (schema_type o) v h)
        (HasType-matches (schema_type o) v h)
  complete (list o xs t is) (suc f) p lt =
      typed-array (validate_json_value f) o (schema_type o) xs p t
      ∙ items_complete is f 0 p (λ s e. omega (arith, lt, get-depth (codes "items") o s e))
  complete (fields o got t has fs) (suc f) p lt =
      typed-fields (validate_json_value f) o (schema_type o) got p t
      ∙ rw (HasField-required (required_fields o) got p (Requires-required (HasField got) o has))
          (fields_complete fs f p (omega (arith, lt, properties-depth o)))

  items_complete :
      {os : Option Json} {xs : Items} (a : ItemsAccepted os xs) (f i : ℕ) (p : Text)
      → ((s : Json) → os ≡ some s → depth s < f)
      → check_rest (validate_json_value f) os xs i p ≡ valid
  items_complete (unchecked xs) f i p lt = refl
  items_complete (no_items t) f i p lt = refl
  items_complete (items t x xs a rest) f i p lt =
      rw (complete a f (p ++ (b'[' ∷ (itoa i ++ b']' ∷ []))) (lt t refl))
        (items_complete rest f (i + 1) p lt)

  fields_complete :
      {ps got : Members} (a : FieldsAccepted ps got) (f : ℕ) (p : Text)
      → depth_members ps < f
      → check_properties (validate_json_value f) ps got p ≡ valid
  fields_complete (no_fields got) f p lt = refl
  fields_complete (absent k s ps got e rest) f p lt =
      rw e (fields_complete rest f p (omega (arith, lt, max-right (depth s) (depth_members ps))))
  fields_complete (present k s v ps got e a rest) f p lt =
      rw
        (
          e,
          complete a f (p ++ (b'.' ∷ k)) (omega (arith, lt, max-left (depth s) (depth_members ps))),
        )
        (fields_complete rest f p (omega (arith, lt, max-right (depth s) (depth_members ps))))

pub validate_complete :
    (s v : Json) (p : Text) → Accepts s v → validate_json_value (suc (depth s)) s v p ≡ valid
validate_complete s v p a = complete a (suc (depth s)) p (omega arith)
