-- ===== src/Task/Llm/Accepts/Output.antt =====
-- internal/task/llm.go: what ValidateOutput returns.
use go_chatgpt_tasks.Base.{
  suc, ◌≡◌, ◌↔◌, ◌⊎◌, refl, ap, inl, inr, [], ◌∷◌, Option, none, some, Text,
}
use go_chatgpt_tasks.Task.Llm.Json.{Json, depth}
use go_chatgpt_tasks.Task.Llm.Validate.{
  Check, valid, invalid, no_fuel, error_of, validate_parsed, validate_output,
}
use go_chatgpt_tasks.Task.Llm.Accepts.{Accepts}
use go_chatgpt_tasks.Task.Llm.Accepts.Sound.{validate-sound}
use go_chatgpt_tasks.Task.Llm.Accepts.Complete.{validate_complete}

-- Both texts are JSON, and the schema accepts the content.
abbrev pub AcceptsText : (Text → Option Json) → Text → Text → Type 0
AcceptsText unmarshal schema content =
    (s : Json) × (v : Json) × (unmarshal schema ≡ some s)
    × (unmarshal content ≡ some v)
    × Accepts s v

no_error : (c : Check) → error_of c ≡ none → c ≡ valid
no_error valid h = refl
no_error (invalid e) h = cc
no_error no_fuel h = cc

parsed-accepts :
    (s v : Option Json)
    → validate_parsed s v ≡ none
    → (x : Json) × (y : Json) × (s ≡ some x) × (v ≡ some y) × Accepts x y
parsed-accepts none v h = cc
parsed-accepts (some s) none h = cc
parsed-accepts (some s) (some v) h =
    (s, v, refl, refl, validate-sound (suc (depth s)) s v (b'$' ∷ []) (no_error _ h))

accepts-parsed :
    (unmarshal : Text → Option Json) (schema content : Text)
    → AcceptsText unmarshal schema content
    → validate_parsed (unmarshal schema) (unmarshal content) ≡ none
accepts-parsed unmarshal schema content (s, v, p, q, a) =
    rw (p, q) (ap error_of (validate_complete s v (b'$' ∷ []) a))

-- ValidateOutput returns nil exactly when no schema is configured, or both texts are JSON and the
-- schema accepts the content.
pub validate_output-eq-none_iff :
    (unmarshal : Text → Option Json) (schema content : Text)
    → (validate_output unmarshal schema content ≡ none)
      ↔ ((schema ≡ []) ⊎ AcceptsText unmarshal schema content)
unfolding validate_output
validate_output-eq-none_iff unmarshal [] content = (λ h. inl refl, λ h. refl)
validate_output-eq-none_iff unmarshal (c ∷ cs) content = (
  λ h. inr (parsed-accepts _ _ h),
  λ h. elim h [ inl e ↦ absurd (cc e) | inr a ↦ accepts-parsed unmarshal (c ∷ cs) content a ],
)
