-- ===== src/Policy/Arguments/Declared.antt =====
-- The request that arguments.py builds depends on the arguments that the tool declares, and on nothing else.
use toollayer_ai.Base.{◌≡◌, refl, inl, inr, String, List, [], ◌∷◌, Elem}
use toollayer_ai.Json.{Fields}
use toollayer_ai.Contracts.Errors.{Result, ok, err, ◌>>=◌}
use toollayer_ai.Contracts.Models.{ArgumentBinding, ToolDefinition}
use toollayer_ai.Policy.Arguments.{
  Parts, read_pointer, place_value, place_all, first_parts, prepare_request,
}

>>=-same {κ ℓ} :
    {A : Type κ} {B : Type ℓ} (m : Result A) (f g : A → Result B)
    → ((a : A) → f a ≡ g a)
    → (m >>= f) ≡ (m >>= g)
>>=-same (err e) f g h = refl
>>=-same (ok a) f g h = h a

-- The arguments have the same value, or none, at the pointer of each binding.
abbrev pub Agree : List ArgumentBinding → Fields → Fields → Type 0
Agree bindings a b =
    (binding : ArgumentBinding)
    → Elem binding bindings
    → read_pointer a binding.argument_pointer ≡ read_pointer b binding.argument_pointer

place_all-Agree :
    (a b : Fields) (bindings : List ArgumentBinding) (parts : Parts)
    → Agree bindings a b
    → place_all a bindings parts ≡ place_all b bindings parts
unfolding place_all
place_all-Agree a b [] parts h = refl
place_all-Agree a b (binding ∷ bindings) parts h = rw (h binding (inl refl)) (
    >>=-same (place_value binding (read_pointer b binding.argument_pointer) parts)
      (λ next. place_all a bindings next) (λ next. place_all b bindings next)
      (λ next. place_all-Agree a b bindings next (λ other i. h other (inr i))))

-- Arguments that agree at the pointers of the tool's bindings give the same request or the same error,
-- whatever else they hold.
pub prepare_request-Agree :
    (tool : ToolDefinition) (a b : Fields) (base_url : String)
    → Agree tool.operation.bindings a b
    → prepare_request tool a base_url ≡ prepare_request tool b base_url
unfolding prepare_request
prepare_request-Agree tool a b base_url h =
    rw (place_all-Agree a b tool.operation.bindings (first_parts tool.operation) h) refl
