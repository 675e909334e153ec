-- ===== src/Policy/Arguments/Containment.antt =====
-- What an argument can bring into the path of a request that arguments.py builds.
use Prim.Native.Char.{code}
use Prim.Native.String.{count}
use text.Mathlib.Text.{starts_with}
use text.Mathlib.TextLemmas.{nil-append, cons-append}
use toollayer_ai.Base.{
  ℕ, ◌-◌, ◌/◌, ◌%◌, ◌≡◌, refl, inl, inr, String, Bool, true, false, not, ◌&&◌, ◌||◌, Option, none,
  some, List, [], ◌∷◌, arith, eqb, ltb, Bool-cases, if◌then◌else◌,
}
use toollayer_ai.Json.{Json, null, bool, int, float, str, arr, obj, Fields}
use toollayer_ai.Contracts.Errors.{ok, >>=-eq-ok, guard-eq-ok}
use toollayer_ai.Contracts.CanonicalJson.{◌⧺◌}
use toollayer_ai.Contracts.Models.{
  BindingTarget, path, query, header, body, ArgumentBinding, ToolDefinition, has_char,
}
use toollayer_ai.Policy.UrlText.{
  replace_from, replace, occurs, all_chars, is_unreserved, hex_digit, utf8, percent, quote,
}
use toollayer_ai.Policy.Arguments.{
  argument_error, read_pointer, write_pointer, scalar, header_value, Parts, placeholder,
  body_so_far, place, place_value, place_all, PreparedRequest, finish, first_parts, prepare_request,
}

one : (b : Bool) → b ≡ true → (b && true) ≡ true
one b h = rw h refl

module _ (p : ℕ → Bool) where
  all_chars-append :
      (s t : String) → all_chars p s ≡ true → all_chars p t ≡ true → all_chars p (s ⧺ t) ≡ true
  unfolding all_chars
  all_chars-append String.[] t h k = rw nil-append k
  all_chars-append (String.◌∷◌ c s) t h k = rw cons-append (ground (arith, all_chars-append s t))

  all_chars-if :
      (b : Bool) (s t : String)
      → all_chars p s ≡ true
      → all_chars p t ≡ true
      → all_chars p (if b then s else t) ≡ true
  all_chars-if true s t h k = h
  all_chars-if false s t h k = k

  all_chars-replace_from :
      (skip : ℕ) (old new s : String)
      → all_chars p new ≡ true
      → all_chars p s ≡ true
      → all_chars p (replace_from skip old new s) ≡ true
  unfolding replace_from all_chars
  all_chars-replace_from skip old new String.[] h k = refl
  all_chars-replace_from skip old new (String.◌∷◌ c s) h k =
      let hit = starts_with (String.◌∷◌ c s) old in
      let left = if ltb 0 skip then skip - 1 else if hit then count old - 1 else 0 in
      let rest = all_chars-replace_from left old new s h (ground arith) in
      all_chars-if (ltb 0 skip) _ _ rest (
        all_chars-if hit _ _ (all_chars-append new (replace_from left old new s) h rest)
          (ground arith))

  -- The test holds of the characters that a percent-encoded text is made of.
  abbrev pub Encoded : Type 0
  Encoded = ((c : ℕ) → is_unreserved c ≡ true → p c ≡ true) × (p b'%' ≡ true)

  all_chars-hex_digit : (n : ℕ) → Encoded → all_chars p (hex_digit n) ≡ true
  unfolding all_chars
  all_chars-hex_digit n (free, sign) = all_chars-if (eqb n 0) _ _ (one _ (free 48 refl)) (
      all_chars-if (eqb n 1) _ _ (one _ (free 49 refl)) (
        all_chars-if (eqb n 2) _ _ (one _ (free 50 refl)) (
          all_chars-if (eqb n 3) _ _ (one _ (free 51 refl)) (
            all_chars-if (eqb n 4) _ _ (one _ (free 52 refl)) (
              all_chars-if (eqb n 5) _ _ (one _ (free 53 refl)) (
                all_chars-if (eqb n 6) _ _ (one _ (free 54 refl)) (
                  all_chars-if (eqb n 7) _ _ (one _ (free 55 refl)) (
                    all_chars-if (eqb n 8) _ _ (one _ (free 56 refl)) (
                      all_chars-if (eqb n 9) _ _ (one _ (free 57 refl)) (
                        all_chars-if (eqb n 10) _ _ (one _ (free 65 refl)) (
                          all_chars-if (eqb n 11) _ _ (one _ (free 66 refl)) (
                            all_chars-if (eqb n 12) _ _ (one _ (free 67 refl)) (
                              all_chars-if (eqb n 13) _ _ (one _ (free 68 refl)) (
                                all_chars-if (eqb n 14) _ _ (one _ (free 69 refl))
                                  (one _ (free 70 refl))))))))))))))))

  all_chars-percent : (bytes : List ℕ) → Encoded → all_chars p (percent bytes) ≡ true
  unfolding percent all_chars
  all_chars-percent [] e = refl
  all_chars-percent (byte ∷ bytes) e = all_chars-append "%" _ (ground (arith, e.1)) (
      all_chars-append (hex_digit (byte / 16)) _ (all_chars-hex_digit (byte / 16) e) (
        all_chars-append (hex_digit (byte % 16)) (percent bytes) (all_chars-hex_digit (byte % 16) e)
          (all_chars-percent bytes e)))

  all_chars-quote : (s : String) → Encoded → all_chars p (quote s) ≡ true
  unfolding quote all_chars
  all_chars-quote String.[] e = refl
  all_chars-quote (String.◌∷◌ c s) e = elim (Bool-cases (is_unreserved (code c))) [
    | inl plain ↦ rw plain (rw (e.0 (code c) plain) (all_chars-quote s e))
    | inr other ↦ rw other (
        all_chars-append (percent (utf8 (code c))) (quote s) (all_chars-percent (utf8 (code c)) e)
          (all_chars-quote s e))
  ]

  place-all_chars :
      (target : BindingTarget) (name : String) (value : Json) (parts next : Parts)
      → Encoded
      → all_chars p parts.url_path ≡ true
      → place target name value parts ≡ ok next
      → all_chars p next.url_path ≡ true
  unfolding place
  place-all_chars path name value parts next e before h =
      let (_, h₁) = guard-eq-ok (occurs (placeholder name) parts.url_path) argument_error _ h in
      let (text, _, h₂) = >>=-eq-ok (scalar value) _ h₁ in
      let same : replace (placeholder name) (quote text) parts.url_path ≡ next.url_path =
        ground arith in
      rw (← same) (
        all_chars-replace_from 0 (placeholder name) (quote text) parts.url_path
          (all_chars-quote text e) before)
  place-all_chars query name value parts next e before h =
      let (text, _, h₁) = >>=-eq-ok (scalar value) _ h in
      let same : parts.url_path ≡ next.url_path = ground arith in rw (← same) before
  place-all_chars header name value parts next e before h =
      let (text, _, h₁) = >>=-eq-ok (header_value value) _ h in
      let same : parts.url_path ≡ next.url_path = ground arith in rw (← same) before
  place-all_chars body name value parts next e before h =
      let (written, _, h₁) =
        >>=-eq-ok (write_pointer (body_so_far parts.body_fields) name value) _ h in
      let same : parts.url_path ≡ next.url_path = ground arith in rw (← same) before

  place_value-all_chars :
      (binding : ArgumentBinding) (value : Option Json) (parts next : Parts)
      → Encoded
      → all_chars p parts.url_path ≡ true
      → place_value binding value parts ≡ ok next
      → all_chars p next.url_path ≡ true
  place_value-all_chars binding none parts next e before h =
      let same : parts ≡ next = ground arith in rw (← same) before
  place_value-all_chars binding (some null) parts next e before h =
      let same : parts ≡ next = ground arith in rw (← same) before
  place_value-all_chars binding (some (bool b)) parts next e before h =
      place-all_chars binding.target binding.target_name (bool b) parts next e before h
  place_value-all_chars binding (some (int n)) parts next e before h =
      place-all_chars binding.target binding.target_name (int n) parts next e before h
  place_value-all_chars binding (some (float finite text)) parts next e before h =
      place-all_chars binding.target binding.target_name (float finite text) parts next e before h
  place_value-all_chars binding (some (str s)) parts next e before h =
      place-all_chars binding.target binding.target_name (str s) parts next e before h
  place_value-all_chars binding (some (arr xs)) parts next e before h =
      place-all_chars binding.target binding.target_name (arr xs) parts next e before h
  place_value-all_chars binding (some (obj fs)) parts next e before h =
      place-all_chars binding.target binding.target_name (obj fs) parts next e before h

  place_all-all_chars :
      (arguments : Fields) (bindings : List ArgumentBinding) (parts next : Parts)
      → Encoded
      → all_chars p parts.url_path ≡ true
      → place_all arguments bindings parts ≡ ok next
      → all_chars p next.url_path ≡ true
  unfolding place_all
  place_all-all_chars arguments [] parts next e before h =
      let same : parts ≡ next = ground arith in rw (← same) before
  place_all-all_chars arguments (binding ∷ bindings) parts next e before h =
      let value = read_pointer arguments binding.argument_pointer in
      let (mid, placed, h₁) = >>=-eq-ok (place_value binding value parts) _ h in
      place_all-all_chars arguments bindings mid next e
        (place_value-all_chars binding value parts mid e before placed) h₁

  -- Whatever test holds of the unreserved characters, of "%" and of the characters of the tool's path
  -- template holds of all characters of a request's path: a "?" or a "#", say, stands in the path only if it
  -- stands in the template.
  pub prepare_request-all_chars :
      (tool : ToolDefinition) (arguments : Fields) (base_url : String) (request : PreparedRequest)
      → Encoded
      → all_chars p tool.operation.path_template ≡ true
      → prepare_request tool arguments base_url ≡ ok request
      → all_chars p request.url_path ≡ true
  unfolding prepare_request finish
  prepare_request-all_chars tool arguments base_url request e template h =
      let bindings = tool.operation.bindings in
      let (parts, placed, h₁) =
        >>=-eq-ok (place_all arguments bindings (first_parts tool.operation)) _ h in
      let (_, h₂) =
        guard-eq-ok (not (has_char b'{' parts.url_path || has_char b'}' parts.url_path))
          argument_error _ h₁ in
      let same : parts.url_path ≡ request.url_path = ground arith in
      rw (← same) (
        place_all-all_chars arguments bindings (first_parts tool.operation) parts e template placed)
