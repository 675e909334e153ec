-- ===== src/Policy/Arguments/Headers.antt =====
-- The headers of a request that arguments.py builds.
use toollayer_ai.Base.{
  ◌≡◌, refl, inl, inr, String, Bool, true, false, not, ◌||◌, Option, none, some, List, [], ◌∷◌,
  ◌++◌, arith, All, All-append, Elem,
}
use toollayer_ai.Json.{Json, null, bool, int, float, str, arr, obj, Fields}
use toollayer_ai.Contracts.Errors.{ok, >>=-eq-ok, guard-eq-ok}
use toollayer_ai.Contracts.Models.{
  BindingTarget, path, query, header, body, ArgumentBinding, ToolDefinition, has_char,
}
use toollayer_ai.Policy.Arguments.{
  argument_error, read_pointer, write_pointer, scalar, has_control, header_value, Parts,
  placeholder, body_so_far, place, place_value, place_all, PreparedRequest, protocol_headers,
  finish, first_parts, prepare_request,
}
use toollayer_ai.Policy.UrlText.{occurs}

-- The header is declared by one of the bindings, and its value holds no carriage return, line break or NUL.
abbrev pub IsDeclared : List ArgumentBinding → String × String → Type 0
IsDeclared bindings pair =
    ((binding : ArgumentBinding) × Elem binding bindings
      × (binding.target ≡ header)
      × (binding.target_name ≡ pair.0))
    × (has_control pair.1 ≡ false)

header_value-clean :
    (value : Json) (text : String) → header_value value ≡ ok text → has_control text ≡ false
unfolding header_value
header_value-clean value text h =
    let (s, read, h₁) = >>=-eq-ok (scalar value) _ h in
    let (clean, h₂) = guard-eq-ok (not (has_control s)) argument_error _ h₁ in
    let e : s ≡ text = ground arith in rw (← e) (not-true (has_control s) clean)
  where
    not-true : (b : Bool) → not b ≡ true → b ≡ false
    not-true true k = cc k
    not-true false k = refl

module _ (declared : List ArgumentBinding) where
  place-IsDeclared :
      (binding : ArgumentBinding) (target : BindingTarget) (value : Json) (parts next : Parts)
      → binding.target ≡ target
      → Elem binding declared
      → All (IsDeclared declared) parts.header_pairs
      → place target binding.target_name value parts ≡ ok next
      → All (IsDeclared declared) next.header_pairs
  unfolding place
  place-IsDeclared binding path value parts next e i before h =
      let name = binding.target_name in
      let (_, h₁) = guard-eq-ok (occurs (placeholder name) parts.url_path) argument_error _ h in
      let (text, _, h₂) = >>=-eq-ok (scalar value) _ h₁ in
      let same : parts.header_pairs ≡ next.header_pairs = ground arith in rw (← same) before
  place-IsDeclared binding query value parts next e i before h =
      let (text, _, h₁) = >>=-eq-ok (scalar value) _ h in
      let same : parts.header_pairs ≡ next.header_pairs = ground arith in rw (← same) before
  place-IsDeclared binding header value parts next e i before h =
      let (text, read, h₁) = >>=-eq-ok (header_value value) _ h in
      let same : parts.header_pairs ++ (binding.target_name, text) ∷ [] ≡ next.header_pairs =
        ground arith in
      rw (← same) (
        All-append (IsDeclared declared) parts.header_pairs ((binding.target_name, text) ∷ [])
          before (((binding, i, e, refl), header_value-clean value text read), tt))
  place-IsDeclared binding body value parts next e i before h =
      let (written, _, h₁) =
        >>=-eq-ok (write_pointer (body_so_far parts.body_fields) binding.target_name value) _ h in
      let same : parts.header_pairs ≡ next.header_pairs = ground arith in rw (← same) before

  place_value-IsDeclared :
      (binding : ArgumentBinding) (value : Option Json) (parts next : Parts)
      → Elem binding declared
      → All (IsDeclared declared) parts.header_pairs
      → place_value binding value parts ≡ ok next
      → All (IsDeclared declared) next.header_pairs
  place_value-IsDeclared binding none parts next i before h =
      let same : parts ≡ next = ground arith in rw (← same) before
  place_value-IsDeclared binding (some null) parts next i before h =
      let same : parts ≡ next = ground arith in rw (← same) before
  place_value-IsDeclared binding (some (bool b)) parts next i before h =
      place-IsDeclared binding binding.target (bool b) parts next refl i before h
  place_value-IsDeclared binding (some (int n)) parts next i before h =
      place-IsDeclared binding binding.target (int n) parts next refl i before h
  place_value-IsDeclared binding (some (float finite text)) parts next i before h =
      place-IsDeclared binding binding.target (float finite text) parts next refl i before h
  place_value-IsDeclared binding (some (str s)) parts next i before h =
      place-IsDeclared binding binding.target (str s) parts next refl i before h
  place_value-IsDeclared binding (some (arr xs)) parts next i before h =
      place-IsDeclared binding binding.target (arr xs) parts next refl i before h
  place_value-IsDeclared binding (some (obj fs)) parts next i before h =
      place-IsDeclared binding binding.target (obj fs) parts next refl i before h

  place_all-IsDeclared :
      (arguments : Fields) (bindings : List ArgumentBinding) (parts next : Parts)
      → ((b : ArgumentBinding) → Elem b bindings → Elem b declared)
      → All (IsDeclared declared) parts.header_pairs
      → place_all arguments bindings parts ≡ ok next
      → All (IsDeclared declared) next.header_pairs
  unfolding place_all
  place_all-IsDeclared arguments [] parts next sub before h =
      let same : parts ≡ next = ground arith in rw (← same) before
  place_all-IsDeclared arguments (binding ∷ bindings) parts next sub before h =
      let value = read_pointer arguments binding.argument_pointer in
      let (mid, placed, h₁) = >>=-eq-ok (place_value binding value parts) _ h in
      place_all-IsDeclared arguments bindings mid next (λ b i. sub b (inr i))
        (place_value-IsDeclared binding value parts mid (sub binding (inl refl)) before placed) h₁

-- Besides those that the service sets itself, each header of a request is declared by a header binding of the
-- tool, and no argument brings a carriage return, a line break or a NUL into it.
pub prepare_request-IsDeclared :
    (tool : ToolDefinition) (arguments : Fields) (base_url : String) (request : PreparedRequest)
    → prepare_request tool arguments base_url ≡ ok request
    → (headers : List (String × String)) × (request.headers
        ≡ protocol_headers request.content_type ++ headers)
      × All (IsDeclared tool.operation.bindings) headers
unfolding prepare_request finish
prepare_request-IsDeclared tool arguments base_url request h =
    let bindings = tool.operation.bindings in
    let (parts, placed, h₁) =
      >>=-eq-ok (place_all arguments bindings (first_parts tool.operation)) _ h in
    let (_, h₂) =
      guard-eq-ok (not (has_char b'{' parts.url_path || has_char b'}' parts.url_path))
        argument_error _ h₁ in
    (
      parts.header_pairs,
      ground arith,
      place_all-IsDeclared bindings arguments bindings (first_parts tool.operation) parts (λ b i. i)
          tt placed,
    )
