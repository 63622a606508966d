-- ===== src/Task/Llm/Accepts/Sound.antt =====
-- internal/task/llm.go: values that validateJSONValue lets pass.
use go_chatgpt_tasks.Base.{
  ℕ, zero, suc, ◌+◌, ◌≡◌, refl, ◌∙◌, inl, inr, true, List, [], ◌∷◌, ◌++◌, All, Option, none, some,
  Text, codes, text_eq, text_eq→eq, Bool-cases, Option-cases, arith,
}
use go_chatgpt_tasks.Task.Llm.Json.{
  Json, null, boolean, number, string, array, object, Items, nil, cons, Members, end, member, get,
}
use go_chatgpt_tasks.Task.Llm.Validate.{
  Check, valid, invalid, no_fuel, and_then, matches_json_type, schema_type, required_fields,
  check_required, check_items, check_present, check_properties, check_fields, check_array,
  check_typed, check_value, validate_json_value,
}
use go_chatgpt_tasks.Task.Llm.Accepts.Leaf.{matches-HasType}
use go_chatgpt_tasks.Task.Llm.Accepts.Required.{required-Requires}
use go_chatgpt_tasks.Task.Llm.Accepts.{
  is_object_type, HasField, Accepts, anything, alike, leaf, list, fields, ItemsAccepted, unchecked,
  no_items, items, FieldsAccepted, no_fields, absent, present,
}

and_then-valid : (a b : Check) → and_then a b ≡ valid → (a ≡ valid) × (b ≡ valid)
and_then-valid valid b h = (refl, h)
and_then-valid (invalid e) b h = cc
and_then-valid no_fuel b h = cc

required-HasField :
    (fs : List Text) (got : Members) (p : Text)
    → check_required fs got p ≡ valid
    → All (HasField got) fs
unfolding check_required
required-HasField [] got p h = tt
required-HasField (f ∷ fs) got p h = elim (Option-cases (get f got)) [
  | inl e ↦ ground arith
  | inr (v, e) ↦ ((v, e), required-HasField fs got p (ground arith))
]

-- What a validator accepts, if the one that it calls for the parts is sound.
module _ (check : Json → Json → Text → Check)
    (sound : (s v : Json) (p : Text) → check s v p ≡ valid → Accepts s v) where
  items_sound :
      (s : Json) (xs : Items) (i : ℕ) (p : Text)
      → check_items check s xs i p ≡ valid
      → ItemsAccepted (some s) xs
  unfolding check_items
  items_sound s nil i p h = no_items s
  items_sound s (cons x xs) i p h =
      let (a, b) = and_then-valid _ _ h in
      items s x xs (sound s x _ a) (items_sound s xs (i + 1) p b)

  properties_sound :
      (ps got : Members) (p : Text)
      → check_properties check ps got p ≡ valid
      → FieldsAccepted ps got
  unfolding check_properties
  properties_sound end got p h = no_fields got
  properties_sound (member k s ps) got p h =
      let (a, b) = and_then-valid (check_present check s (get k got) (p ++ (b'.' ∷ k))) _ h in
      elim (Option-cases (get k got)) [
        | inl e ↦ absent k s ps got e (properties_sound ps got p b)
        | inr (v, e) ↦
            present k s v ps got e (sound s v (p ++ (b'.' ∷ k)) (rw e at a))
              (properties_sound ps got p b)
      ]

  fields-sound :
      (o : Members) (v : Json) (p : Text)
      → is_object_type (schema_type o) ≡ true
      → check_fields check o v p ≡ valid
      → Accepts (object o) v
  unfolding check_fields
  fields-sound o (object got) p t h =
      let (a, b) = and_then-valid _ _ h in
      fields o got t
        (required-Requires (HasField got) o (required-HasField (required_fields o) got p a))
        (properties_sound _ got p b)
  fields-sound o null p t h = cc
  fields-sound o (boolean b) p t h = cc
  fields-sound o (number x) p t h = cc
  fields-sound o (string s) p t h = cc
  fields-sound o (array xs) p t h = cc

  array-sound :
      (o : Members) (v : Json) (p : Text)
      → schema_type o ≡ codes "array"
      → matches_json_type (codes "array") v ≡ true
      → check_array check (get (codes "items") o) v p ≡ valid
      → Accepts (object o) v
  unfolding matches_json_type
  array-sound o (array xs) p t m h = list o xs t (items_of (get (codes "items") o) h)
    where
      items_of : (s : Option Json) → check_array check s (array xs) p ≡ valid → ItemsAccepted s xs
      items_of none h = unchecked xs
      items_of (some s) h = items_sound s xs 0 p h
  array-sound o null p t m h = cc
  array-sound o (boolean b) p t m h = cc
  array-sound o (number x) p t m h = cc
  array-sound o (string s) p t m h = cc
  array-sound o (object ms) p t m h = cc

  typed-sound :
      (o : Members) (t : Text) (v : Json) (p : Text)
      → schema_type o ≡ t
      → check_typed check o t v p ≡ valid
      → Accepts (object o) v
  unfolding check_typed
  typed-sound o [] v p e h = fields-sound o v p (rw e) h
  typed-sound o (c ∷ t) v p e h = elim (Bool-cases (matches_json_type (c ∷ t) v)) [
    | inr no_match ↦ cc (rw no_match at h)
    | inl match ↦ elim (Bool-cases (text_eq (c ∷ t) (codes "array"))) [
      | inl arr ↦
          let name = text_eq→eq (c ∷ t) (codes "array") arr in
          array-sound o v p (e ∙ name) (rw name at match) (rw (match, arr) at h)
      | inr not_arr ↦ elim (Bool-cases (text_eq (c ∷ t) (codes "object"))) [
        | inl obj ↦ fields-sound o v p (rw e obj) (rw (match, not_arr, obj) at h)
        | inr not_obj ↦ leaf o v (rw e (matches-HasType (c ∷ t) v not_arr not_obj match))
      ]
    ]
  ]

  value-sound : (s v : Json) (p : Text) → check_value check s v p ≡ valid → Accepts s v
  unfolding check_value
  value-sound (object o) v p h = typed-sound o (schema_type o) v p refl h
  value-sound null v p h = anything v
  value-sound (boolean b) v p h = alike (boolean b) v refl (ground arith)
  value-sound (number x) v p h = alike (number x) v refl (ground arith)
  value-sound (string s) v p h = alike (string s) v refl (ground arith)
  value-sound (array xs) v p h = alike (array xs) v refl (ground arith)

pub validate-sound :
    (f : ℕ) (s v : Json) (p : Text) → validate_json_value f s v p ≡ valid → Accepts s v
unfolding validate_json_value
validate-sound zero s v p h = cc
validate-sound (suc f) s v p h = value-sound (validate_json_value f) (validate-sound f) s v p h
