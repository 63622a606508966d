-- ===== src/Task/Llm/Accepts/Leaf.antt =====
-- internal/task/llm.go, matchesJSONType: the values that are not made of others.
use go_chatgpt_tasks.Base.{
  ◌≡◌, refl, sym, subst, inl, inr, true, false, Text, codes, text_eq, text_eq→eq, Bool-cases, arith,
}
use go_chatgpt_tasks.Task.Llm.Json.{Json, null, boolean, number, string, array, object}
use go_chatgpt_tasks.Task.Llm.Validate.{matches_json_type}
use go_chatgpt_tasks.Task.Llm.Accepts.{
  is_leaf_type, HasType, a_string, a_number, an_integer, a_boolean, a_null,
}

named : {t u : Text} {v : Json} → text_eq t u ≡ true → HasType u v → HasType t v
named {t} {u} {v} e h = subst (λ x. HasType x v) (sym (text_eq→eq t u e)) h

pub HasType-matches : (t : Text) (v : Json) → HasType t v → matches_json_type t v ≡ true
unfolding matches_json_type
HasType-matches t v (a_string s) = refl
HasType-matches t v (a_number x) = refl
HasType-matches t v (an_integer x e) = e
HasType-matches t v (a_boolean b) = refl
HasType-matches t v a_null = refl

pub HasType-leaf : (t : Text) (v : Json) → HasType t v → is_leaf_type t ≡ true
HasType-leaf t v (a_string s) = refl
HasType-leaf t v (a_number x) = refl
HasType-leaf t v (an_integer x e) = refl
HasType-leaf t v (a_boolean b) = refl
HasType-leaf t v a_null = refl

pub matches-HasType :
    (t : Text) (v : Json)
    → text_eq t (codes "array") ≡ false
    → text_eq t (codes "object") ≡ false
    → matches_json_type t v ≡ true
    → HasType t v
unfolding matches_json_type
matches-HasType t null a o m = named (ground arith) a_null
matches-HasType t (boolean b) a o m = named (ground arith) (a_boolean b)
matches-HasType t (string s) a o m = named (ground arith) (a_string s)
matches-HasType t (array xs) a o m = absurd (ground arith)
matches-HasType t (object ms) a o m = absurd (ground arith)
matches-HasType t (number x) a o m = elim (Bool-cases (text_eq t (codes "number"))) [
  | inl e ↦ named e (a_number x)
  | inr e ↦ named (ground arith) (an_integer x (ground arith))
]
