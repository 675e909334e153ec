-- ===== src/OpenApi/Schemas/Closed.antt =====
-- The schemas that schema_conversion.py makes: closed, with known keywords, and of bounded depth.
use toollayer_ai.Base.{
  ℕ, zero, suc, ◌≡◌, refl, sym, subst, ◌∙◌, inl, inr, String, Bool, true, false, not, [], ◌==◌,
  eq_iff, All, contains, contains→In, arith, Bool-cases,
}
use toollayer_ai.Json.{
  Json, null, bool, int, float, str, arr, obj, Fields, end, field, find, get, put,
}
use toollayer_ai.Contracts.CanonicalJson.{◌⧺◌}
use toollayer_ai.OpenApi.Errors.{
  invalid_document, unsupported_feature, ok, ◌>>=◌, >>=-eq-ok, guard-eq-ok,
}
use toollayer_ai.OpenApi.Schemas.{
  max_schema_depth, has, all_types, declared_type, apply_nullable, apply_annotations, apply_enum,
  apply_default, copy_supported, apply_exclusive, apply_exclusive_bounds, string_keywords,
  number_keywords, array_keywords, reject_unknown, Step, convert_properties, read_required,
  required_items, texts, closed_source, properties_of, convert_object, convert_array,
  convert_compound, convert_by_type, composed, convert_fields, convert_from, convert_schema,
  is_null,
}
use toollayer_ai.OpenApi.Schemas.Sound.{
  Sound, Assignable, find-put_other, find-put_self, Sound-put, Sound-ok, nullable-Sound,
  annotations-Sound, enum-Sound, default-Sound, copy_supported-Sound, exclusive-Sound,
}
use toollayer_ai.OpenApi.Schemas.Shapes.{
  ObjectShape, scalar_types, Shape, IsClosed, Gives, properties-AllSchemas, required-All,
  scalar_type, declared_type-known,
}

-- A schema of the type, with its keywords and its shape.
abbrev Shaped : (Fields → Type 0) → String → Fields → Type 0
Shaped P declared fs = Sound declared fs × Shape P declared fs

module _ (P : Fields → Type 0) (equal : Json → Json → Bool) (again : Step)
    (gives : Gives P again) where
  object-Shaped :
      (schema fs out : Fields) (pointer : String)
      → Sound "object" fs
      → convert_object equal again schema pointer fs ≡ ok out
      → Shaped P "object" out
  unfolding convert_object contains
  object-Shaped schema fs out pointer is h =
      let (source, e₁, h₁) = >>=-eq-ok (properties_of pointer (get "properties" schema)) _ h in
      let (closed, h₂) =
        guard-eq-ok (closed_source equal (get "additionalProperties" schema))
          (unsupported_feature pointer) _ h₁ in
      let (properties, e₃, h₃) = >>=-eq-ok (convert_properties again source pointer end) _ h₂ in
      let (entries, e₄, h₄) = >>=-eq-ok (required_items pointer (find "required" schema)) _ h₃ in
      let (required, e₅, h₅) = >>=-eq-ok (read_required entries properties pointer []) _ h₄ in
      let one = put "properties" (obj properties) fs in
      let two = put "required" (arr (texts required)) one in
      let three = put "additionalProperties" (bool false) two in
      let sound =
        Sound-put "object" "additionalProperties" (bool false) two (refl, refl)
          (Sound-put "object" "required" (arr (texts required)) one (refl, refl)
            (Sound-put "object" "properties" (obj properties) fs (refl, refl) is)) in
      let all = properties-AllSchemas P again source end properties pointer gives tt e₃ in
      let names = required-All entries properties pointer [] required tt e₅ in
      let shape : ObjectShape P three = (
        properties,
        required,
        find-put_other "additionalProperties" "properties" (bool false) two refl
            ∙ find-put_other "required" "properties" (arr (texts required)) one refl
            ∙ find-put_self "properties" (obj properties) fs,
        find-put_other "additionalProperties" "required" (bool false) two refl
            ∙ find-put_self "required" (arr (texts required)) one,
        find-put_self "additionalProperties" (bool false) two,
        all,
        names,
      ) in
      let same : three ≡ out = ground arith in
      subst (Shaped P "object") same (sound, inl (refl, shape))

  array-Shaped :
      (schema fs out : Fields) (pointer : String)
      → Sound "array" fs
      → convert_array again schema pointer fs ≡ ok out
      → Shaped P "array" out
  unfolding convert_array contains
  array-Shaped schema fs out pointer is h =
      let (copied, e₁, h₁) = >>=-eq-ok (copy_supported array_keywords schema pointer fs) _ h in
      let (given, h₂) =
        guard-eq-ok (not (is_null (get "items" schema))) (unsupported_feature pointer) _ h₁ in
      let (element, e₃, h₃) = >>=-eq-ok (again (get "items" schema) (pointer ⧺ "/items")) _ h₂ in
      let sound =
        copy_supported-Sound "array" pointer array_keywords schema fs copied
          ((refl, refl), ((refl, refl), tt)) is e₁ in
      let same : put "items" (obj element) copied ≡ out = ground arith in
      subst (Shaped P "array") same (
        Sound-put "array" "items" (obj element) copied (refl, refl) sound,
        inr (
            inl (
              refl,
              (
                element,
                find-put_self "items" (obj element) copied,
                gives (get "items" schema) (pointer ⧺ "/items") element e₃,
              ),
            )),
      )

  scalar-Shaped :
      (declared : String) (fs out : Fields)
      → contains scalar_types declared ≡ true
      → Sound declared out
      → Shaped P declared out
  scalar-Shaped declared fs out scalar sound = (sound, inr (inr scalar))

  string-Shaped :
      (schema fs out : Fields) (pointer : String)
      → Sound "string" fs
      → copy_supported string_keywords schema pointer fs ≡ ok out
      → Shaped P "string" out
  unfolding contains
  string-Shaped schema fs out pointer is h = scalar-Shaped "string" fs out refl (
      copy_supported-Sound "string" pointer string_keywords schema fs out
        ((refl, refl), ((refl, refl), ((refl, refl), ((refl, refl), tt)))) is h)

  number-Shaped :
      (declared : String) (schema fs out : Fields) (pointer : String)
      → contains scalar_types declared ≡ true
      → All (Assignable declared) number_keywords
      → Assignable declared "exclusiveMinimum" × Assignable declared "exclusiveMaximum"
      → Sound declared fs
      → (copy_supported number_keywords schema pointer fs >>= apply_exclusive_bounds schema pointer)
        ≡ ok out
      → Shaped P declared out
  unfolding apply_exclusive_bounds
  number-Shaped declared schema fs out pointer scalar ks (low, high) is h =
      let (copied, e₁, h₁) = >>=-eq-ok (copy_supported number_keywords schema pointer fs) _ h in
      let (bounded, e₂, h₂) =
        >>=-eq-ok
          (apply_exclusive "minimum" "exclusiveMinimum" (find "exclusiveMinimum" schema) pointer
            copied)
          _ h₁ in
      let sound = copy_supported-Sound declared pointer number_keywords schema fs copied ks is e₁ in
      scalar-Shaped declared fs out scalar (
        exclusive-Sound declared pointer "maximum" "exclusiveMaximum"
          (find "exclusiveMaximum" schema) bounded out refl high
          (exclusive-Sound declared pointer "minimum" "exclusiveMinimum"
            (find "exclusiveMinimum" schema) copied bounded refl low sound e₂)
          h₂)

  -- The shape at a type that is known.
  at_type :
      (declared known : String) (fs out : Fields)
      → declared == known ≡ true
      → Sound declared fs
      → (Sound known fs → Shaped P known out)
      → Shaped P declared out
  at_type declared known fs out same is shaped =
      let e : declared ≡ known = (eq_iff declared known).0 same in
      subst (λ d. Shaped P d out) (sym e) (shaped (subst (λ d. Sound d fs) e is))

  compound-Shaped :
      (declared : String) (schema fs out : Fields) (pointer : String)
      → contains all_types declared ≡ true
      → Sound declared fs
      → convert_compound equal again declared schema pointer fs ≡ ok out
      → Shaped P declared out
  unfolding convert_compound
  compound-Shaped declared schema fs out pointer type is h =
      elim (Bool-cases (declared == "array")) [
        | inl list ↦
            at_type declared "array" fs out list is
              (λ sound. array-Shaped schema fs out pointer sound (rw list at h))
        | inr no_list ↦ elim (Bool-cases (declared == "object")) [
          | inl object ↦
              at_type declared "object" fs out object is
                (λ sound. object-Shaped schema fs out pointer sound (rw (no_list, object) at h))
          | inr no_object ↦
              let same : ok fs ≡ ok out = rw (no_list, no_object) at h in
              scalar-Shaped declared fs out
                (scalar_type declared no_list no_object (contains→In all_types declared type))
                (Sound-ok declared fs is same)
        ]
      ]

  by_type-Shaped :
      (declared : String) (schema fs out : Fields) (pointer : String)
      → contains all_types declared ≡ true
      → Sound declared fs
      → convert_by_type equal again declared schema pointer fs ≡ ok out
      → Shaped P declared out
  unfolding convert_by_type contains
  by_type-Shaped declared schema fs out pointer type is h =
      elim (Bool-cases (declared == "string")) [
        | inl text ↦
            at_type declared "string" fs out text is
              (λ sound. string-Shaped schema fs out pointer sound (rw text at h))
        | inr no_text ↦ elim (Bool-cases (declared == "integer")) [
          | inl whole ↦ at_type declared "integer" fs out whole is (λ sound.
              number-Shaped "integer" schema fs out pointer refl ((refl, refl), ((refl, refl), tt))
                ((refl, refl), (refl, refl)) sound (rw (no_text, whole) at h))
          | inr no_whole ↦ elim (Bool-cases (declared == "number")) [
            | inl real ↦ at_type declared "number" fs out real is (λ sound.
                number-Shaped "number" schema fs out pointer refl ((refl, refl), ((refl, refl), tt))
                  ((refl, refl), (refl, refl)) sound (rw (no_text, no_whole, real) at h))
            | inr no_real ↦
                compound-Shaped declared schema fs out pointer type is
                  (rw (no_text, no_whole, no_real) at h)
          ]
        ]
      ]

  fields-Shaped :
      (schema out : Fields) (pointer : String)
      → convert_fields equal again schema pointer ≡ ok out
      → (declared : String) × Shaped P declared out
  unfolding convert_fields
  fields-Shaped schema out pointer h =
      let (plain, h₁) = guard-eq-ok (not (composed schema)) (unsupported_feature pointer) _ h in
      let (resolved, h₂) = guard-eq-ok (not (has "$ref" schema)) (invalid_document pointer) _ h₁ in
      let (declared, e₃, h₃) = >>=-eq-ok (declared_type (get "type" schema) pointer) _ h₂ in
      let start = field "type" (str declared) end in
      let (typed, e₄, h₄) =
        >>=-eq-ok (apply_nullable (get "nullable" schema) declared pointer start) _ h₃ in
      let (annotated, e₅, h₅) = >>=-eq-ok (apply_annotations schema pointer typed) _ h₄ in
      let (listed, e₆, h₆) =
        >>=-eq-ok (apply_enum (find "enum" schema) declared pointer annotated) _ h₅ in
      let (defaulted, e₇, h₇) =
        >>=-eq-ok (apply_default equal (find "default" schema) declared pointer listed) _ h₆ in
      let (converted, e₈, h₈) =
        >>=-eq-ok (convert_by_type equal again declared schema pointer defaulted) _ h₇ in
      let (done, e₉, h₉) = >>=-eq-ok (reject_unknown schema declared pointer) _ h₈ in
      let same : converted ≡ out = ground arith in
      let one = nullable-Sound (get "nullable" schema) declared pointer typed e₄ in
      let two = annotations-Sound declared pointer schema typed annotated one e₅ in
      let three = enum-Sound declared pointer (find "enum" schema) annotated listed two e₆ in
      let four =
        default-Sound declared pointer equal (find "default" schema) listed defaulted three e₇ in
      (
        declared,
        subst (Shaped P declared) same (
            by_type-Shaped declared schema defaulted converted pointer
              (declared_type-known (get "type" schema) pointer declared e₃) four e₈),
      )

convert_from-IsClosed :
    (equal : Json → Json → Bool) (left : ℕ) (schema : Json) (pointer : String) (out : Fields)
    → convert_from equal left schema pointer ≡ ok out
    → IsClosed left out
unfolding convert_from IsClosed
convert_from-IsClosed equal zero (obj schema) pointer out h = ground arith
convert_from-IsClosed equal (suc left) (obj schema) pointer out h =
    let (declared, shaped) =
      fields-Shaped (IsClosed left) equal (convert_from equal left)
        (convert_from-IsClosed equal left) schema out pointer h in
    (declared, shaped.0.0, shaped.0.1, shaped.1)
convert_from-IsClosed equal zero null pointer out h = ground arith
convert_from-IsClosed equal (suc left) null pointer out h = ground arith
convert_from-IsClosed equal zero (bool b) pointer out h = ground arith
convert_from-IsClosed equal (suc left) (bool b) pointer out h = ground arith
convert_from-IsClosed equal zero (int n) pointer out h = ground arith
convert_from-IsClosed equal (suc left) (int n) pointer out h = ground arith
convert_from-IsClosed equal zero (float f t) pointer out h = ground arith
convert_from-IsClosed equal (suc left) (float f t) pointer out h = ground arith
convert_from-IsClosed equal zero (str s) pointer out h = ground arith
convert_from-IsClosed equal (suc left) (str s) pointer out h = ground arith
convert_from-IsClosed equal zero (arr xs) pointer out h = ground arith
convert_from-IsClosed equal (suc left) (arr xs) pointer out h = ground arith

-- A schema that converts is closed at every depth: its type is a supported one, alone or with "null"; it has keywords of
-- that type only; an object in it permits no additional property and requires only properties that it has, and those, like
-- the items of an array, are closed schemas. It nests nine schemas at most.
pub convert_schema-IsClosed :
    (equal : Json → Json → Bool) (schema : Json) (pointer : String) (out : Fields)
    → convert_schema equal schema pointer ≡ ok out
    → IsClosed (suc max_schema_depth) out
unfolding convert_schema
convert_schema-IsClosed equal schema pointer out h =
    convert_from-IsClosed equal (suc max_schema_depth) schema pointer out h
