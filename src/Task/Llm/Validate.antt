-- ===== src/Task/Llm/Validate.antt =====
-- internal/task/llm.go: ValidateOutput. json.Unmarshal is a parameter, whose result is a value or
-- an error. Go walks a map in any order; here an object's members are walked in their order, which
-- makes a difference to the message of an error alone.
use go_chatgpt_tasks.Base.{
  ℕ, zero, suc, ◌+◌, Bool, true, false, ◌||◌, not, if◌then◌else◌, List, [], ◌∷◌, ◌++◌, Option, none,
  some, Text, codes, text_eq, is_empty,
}
use go_chatgpt_tasks.Task.Errors.{Error, sentinel, detail, invalid_llm_output}
use go_chatgpt_tasks.Task.Keys.{itoa}
use go_chatgpt_tasks.Task.Llm.Json.{
  Json, null, boolean, number, string, array, object, Items, nil, cons, Members, end, member, get,
  is_int64, depth,
}

-- The result of validateJSONValue: nil, an error with its text, or too little fuel.
pub data Check : Type 0 where
  valid : Check
  invalid : Text → Check
  no_fuel : Check

-- `if err != nil { return err }`.
abbrev pub and_then : Check → Check → Check
and_then valid c = c
and_then (invalid e) c = invalid e
and_then no_fuel c = no_fuel

-- reflect.TypeOf(schema) == reflect.TypeOf(value), for a schema that is no object and not null.
abbrev pub same_type : Json → Json → Bool
same_type (boolean a) (boolean b) = true
same_type (number a) (number b) = true
same_type (string a) (string b) = true
same_type (array a) (array b) = true
same_type (object a) (object b) = true
same_type null null = true
same_type _ _ = false

abbrev is_object : Json → Bool
is_object (object ms) = true
is_object _ = false

abbrev is_array : Json → Bool
is_array (array xs) = true
is_array _ = false

abbrev is_string : Json → Bool
is_string (string s) = true
is_string _ = false

abbrev is_number : Json → Bool
is_number (number x) = true
is_number _ = false

abbrev is_integer : Json → Bool
is_integer (number x) = is_int64 x
is_integer _ = false

abbrev is_boolean : Json → Bool
is_boolean (boolean b) = true
is_boolean _ = false

abbrev is_null : Json → Bool
is_null null = true
is_null _ = false

unfoldable pub matches_json_type : Text → Json → Bool
matches_json_type t v =
    if text_eq t (codes "object")
    then is_object v
    else if text_eq t (codes "array")
    then is_array v
    else if text_eq t (codes "string")
    then is_string v
    else if text_eq t (codes "number")
    then is_number v
    else if text_eq t (codes "integer")
    then is_integer v
    else if text_eq t (codes "boolean")
    then is_boolean v
    else if text_eq t (codes "null")
    then is_null v
    else false

-- `schemaType, _ := object["type"].(string)`.
abbrev string_or_empty : Option Json → Text
string_or_empty (some (string s)) = s
string_or_empty _ = []

unfoldable pub schema_type : Members → Text
schema_type o = string_or_empty (get (codes "type") o)

-- `properties, hasProperties := object["properties"].(map[string]any)`, and the object itself
-- where there are none.
abbrev pub object_or_none : Option Json → Option Members
object_or_none (some (object ms)) = some ms
object_or_none _ = none

unfoldable pub explicit_properties : Members → Option Members
explicit_properties o = object_or_none (get (codes "properties") o)

abbrev pub or_else : Option Members → Members → Members
or_else none o = o
or_else (some ps) o = ps

unfoldable pub strings_of : Items → List Text
strings_of nil = []
strings_of (cons (string s) xs) = s ∷ strings_of xs
strings_of (cons _ xs) = strings_of xs

abbrev pub is_keyword : Text → Bool
is_keyword f =
    text_eq f (codes "type")
    || (text_eq f (codes "required")
        || (text_eq f (codes "properties") || text_eq f (codes "items")))

unfoldable pub field_names : Members → List Text
field_names end = []
field_names (member k v ms) = let rest = field_names ms in if is_keyword k then rest else k ∷ rest

abbrev pub required_or : Option Json → Option Members → Members → List Text
required_or (some (array xs)) ps o = strings_of xs
required_or _ (some ps) o = []
required_or _ none o = field_names o

unfoldable pub required_fields : Members → List Text
required_fields o = required_or (get (codes "required") o) (explicit_properties o) o

-- fmt's %q of a text without characters to escape.
abbrev quoted : Text → Text
quoted s = b'"' ∷ (s ++ (b'"' ∷ []))

unfoldable pub check_required : List Text → Members → Text → Check
check_required [] got path = valid
check_required (f ∷ fs) got path = elim (get f got) [
  | none ↦ invalid (path ++ codes " missing field " ++ quoted f)
  | some v ↦ check_required fs got path
]

-- The loops, with validateJSONValue at the fuel that is left.
module _ (check : Json → Json → Text → Check) where
  unfoldable pub check_items : Json → Items → ℕ → Text → Check
  check_items schema nil i path = valid
  check_items schema (cons x xs) i path =
      and_then (check schema x (path ++ (b'[' ∷ (itoa i ++ b']' ∷ []))))
        (check_items schema xs (i + 1) path)

  abbrev pub check_present : Json → Option Json → Text → Check
  check_present schema none path = valid
  check_present schema (some v) path = check schema v path

  unfoldable pub check_properties : Members → Members → Text → Check
  check_properties end got path = valid
  check_properties (member k s ps) got path =
      and_then (check_present s (get k got) (path ++ (b'.' ∷ k))) (check_properties ps got path)

  -- From `got, ok := value.(map[string]any)` on.
  unfoldable pub check_fields : Members → Json → Text → Check
  check_fields o (object got) path =
      and_then (check_required (required_fields o) got path)
        (check_properties (or_else (explicit_properties o) o) got path)
  check_fields o v path = invalid (path ++ codes " must be object")

  -- The branch `schemaType == "array"`: the value is an array here.
  abbrev pub check_array : Option Json → Json → Text → Check
  check_array (some s) (array xs) path = check_items s xs 0 path
  check_array _ v path = valid

  -- From `if schemaType != ""` on.
  unfoldable pub check_typed : Members → Text → Json → Text → Check
  check_typed o [] v path = check_fields o v path
  check_typed o (c ∷ t) v path =
      if not (matches_json_type (c ∷ t) v)
      then invalid (path ++ codes " must be " ++ (c ∷ t))
      else if text_eq (c ∷ t) (codes "array")
      then check_array (get (codes "items") o) v path
      else if text_eq (c ∷ t) (codes "object")
      then check_fields o v path
      else valid

  unfoldable pub check_value : Json → Json → Text → Check
  check_value (object o) v path = check_typed o (schema_type o) v path
  check_value null v path = valid
  check_value s v path = if same_type s v then valid else invalid (path ++ codes " has wrong type")

-- validateJSONValue. Every call goes down in the schema.
unfoldable pub validate_json_value : ℕ → Json → Json → Text → Check
validate_json_value zero s v path = no_fuel
validate_json_value (suc f) s v path = check_value (validate_json_value f) s v path

abbrev pub error_of : Check → Option Error
error_of valid = none
error_of (invalid e) = some (detail (sentinel invalid_llm_output) e)
error_of no_fuel = some (detail (sentinel invalid_llm_output) (codes "no fuel"))

-- ValidateOutput: `none` is nil.
abbrev pub validate_parsed : Option Json → Option Json → Option Error
validate_parsed none content =
    some (detail (sentinel invalid_llm_output) (codes "invalid configured schema"))
validate_parsed (some s) none =
    some (detail (sentinel invalid_llm_output) (codes "response is not valid JSON"))
validate_parsed (some s) (some v) = error_of (validate_json_value (suc (depth s)) s v (b'$' ∷ []))

unfoldable pub validate_output : (Text → Option Json) → Text → Text → Option Error
validate_output unmarshal schema content =
    if is_empty schema then none else validate_parsed (unmarshal schema) (unmarshal content)
