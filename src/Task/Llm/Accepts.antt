-- ===== src/Task/Llm/Accepts.antt =====
-- internal/task/llm.go: the subset of JSON Schema that validateJSONValue is meant to check, as a
-- relation between a schema and a value, and the validator against it.
mod Leaf
mod Required
mod Sound
mod Complete
pub mod Output
use go_chatgpt_tasks.Base.{
  ℕ, zero, suc, ◌≤◌, ◌<◌, ◌+◌, ◌≡◌, ◌≢◌, refl, sym, ◌∙◌, inl, inr, Bool, true, false, not, ◌&&◌,
  ◌||◌, List, [], ◌∷◌, ◌++◌, All, Option, none, some, Text, codes, text_eq, text_eq→eq, is_empty,
  Bool-cases, Option-cases, arith,
}
use go_chatgpt_tasks.Task.Llm.Json.{
  Float64, is_int64, Json, null, boolean, number, string, array, object, Items, nil, cons, Members,
  end, member, get, depth, depth_members,
}
use go_chatgpt_tasks.Task.Llm.Validate.{
  Check, valid, invalid, no_fuel, and_then, same_type, matches_json_type, schema_type,
  explicit_properties, or_else, object_or_none, required_fields, check_required, check_items,
  check_present, check_properties, check_fields, check_array, check_typed, check_value,
  validate_json_value,
}

-- A schema that is neither an object nor null: it stands for its own type.
abbrev pub is_plain : Json → Bool
is_plain null = false
is_plain (object o) = false
is_plain _ = true

abbrev pub is_leaf_type : Text → Bool
is_leaf_type [] = false
is_leaf_type (c ∷ t) =
    not (text_eq (c ∷ t) (codes "array")) && not (text_eq (c ∷ t) (codes "object"))

abbrev pub is_object_type : Text → Bool
is_object_type [] = true
is_object_type (c ∷ t) = text_eq (c ∷ t) (codes "object")

abbrev pub HasField : Members → Text → Type 0
HasField got f = (v : Json) × (get f got ≡ some v)

-- The values that are not made of others, with the names of their types.
pub data HasType : Text → Json → Type 0 where
  a_string : (s : Text) → HasType (codes "string") (string s)
  a_number : (x : Float64) → HasType (codes "number") (number x)
  an_integer : (x : Float64) → is_int64 x ≡ true → HasType (codes "integer") (number x)
  a_boolean : (b : Bool) → HasType (codes "boolean") (boolean b)
  a_null : HasType (codes "null") null

-- The texts in an array, and the fields of an object.
pub data NamedIn (f : Text) : Items → Type 0 where
  at_head : (xs : Items) → NamedIn f (cons (string f) xs)
  further : (x : Json) (xs : Items) → NamedIn f xs → NamedIn f (cons x xs)

pub data FieldOf (f : Text) : Members → Type 0 where
  first_field : (v : Json) (ms : Members) → FieldOf f (member f v ms)
  later_field : (k : Text) (v : Json) (ms : Members) → FieldOf f ms → FieldOf f (member k v ms)

abbrev pub NoKeyword : Text → Type 0
NoKeyword f =
    (f ≢ codes "type") × (f ≢ codes "required") × (f ≢ codes "properties") × (f ≢ codes "items")

-- A schema requires the fields that its array "required" names, or, if it has neither that array nor
-- an object "properties", those that it has itself, apart from its keywords.
pub data Requires (listed : Option Json) (properties : Option Members) (o : Members) (f : Text)
    : Type 0 where
  by_list : (xs : Items) → listed ≡ some (array xs) → NamedIn f xs → Requires listed properties o f
  by_field :
      ((xs : Items) → listed ≢ some (array xs))
      → properties ≡ none
      → FieldOf f o
      → NoKeyword f
      → Requires listed properties o f

mutual
  -- A null schema accepts anything; a plain one, the values of its own type; an object, by its type:
  -- a leaf, an array whose items are accepted, or an object that has the required fields and whose
  -- fields, where the schema has a property of that name, are accepted.
  pub data Accepts : Json → Json → Type 0 where
    anything : (v : Json) → Accepts null v
    alike : (s v : Json) → is_plain s ≡ true → same_type s v ≡ true → Accepts s v
    leaf : (o : Members) (v : Json) → HasType (schema_type o) v → Accepts (object o) v
    list :
        (o : Members) (xs : Items)
        → schema_type o ≡ codes "array"
        → ItemsAccepted (get (codes "items") o) xs
        → Accepts (object o) (array xs)
    fields :
        (o got : Members)
        → is_object_type (schema_type o) ≡ true
        → ((f : Text)
            → Requires (get (codes "required") o) (explicit_properties o) o f
            → HasField got f)
        → FieldsAccepted (or_else (explicit_properties o) o) got
        → Accepts (object o) (object got)

  pub data ItemsAccepted : Option Json → Items → Type 0 where
    unchecked : (xs : Items) → ItemsAccepted none xs
    no_items : (s : Json) → ItemsAccepted (some s) nil
    items :
        (s x : Json) (xs : Items)
        → Accepts s x
        → ItemsAccepted (some s) xs
        → ItemsAccepted (some s) (cons x xs)

  pub data FieldsAccepted : Members → Members → Type 0 where
    no_fields : (got : Members) → FieldsAccepted end got
    absent :
        (k : Text) (s : Json) (ps got : Members)
        → get k got ≡ none
        → FieldsAccepted ps got
        → FieldsAccepted (member k s ps) got
    present :
        (k : Text) (s v : Json) (ps got : Members)
        → get k got ≡ some v
        → Accepts s v
        → FieldsAccepted ps got
        → FieldsAccepted (member k s ps) got
