-- ===== src/OpenApi/Schemas/Shapes.antt =====
-- The shapes of converted schemas, by their type.
use toollayer_ai.Base.{
  ℕ, zero, suc, ◌≡◌, refl, sym, subst, ◌⊎◌, inl, inr, String, Bool, true, false, not, some, List,
  [], ◌∷◌, ◌++◌, ◌==◌, All, All-append, In, contains, arith, Bool-cases, if◌then◌else◌,
}
use toollayer_ai.Json.{
  Json, null, bool, int, float, str, arr, obj, Items, nil, cons, Fields, end, field, find, put,
}
use toollayer_ai.Contracts.CanonicalJson.{◌⧺◌}
use toollayer_ai.OpenApi.Errors.{invalid_document, unsupported_feature, ok, >>=-eq-ok, guard-eq-ok}
use toollayer_ai.OpenApi.References.{below}
use toollayer_ai.OpenApi.Schemas.{
  has, all_types, declared_type, all_known, Step, convert_properties, read_required, texts,
}
use toollayer_ai.OpenApi.Schemas.Sound.{output_keywords, HasType}

abbrev pub AllSchemas : (Fields → Type 0) → Fields → Type 0
AllSchemas P end = Unit
AllSchemas P (field key (obj schema) fs) = P schema × AllSchemas P fs
AllSchemas P (field key value fs) = ⊥

-- A closed object: each property is a schema, and each required name is a property.
abbrev pub ObjectShape : (Fields → Type 0) → Fields → Type 0
ObjectShape P fs =
    (properties : Fields) × (required : List String) × (find "properties" fs
      ≡ some (obj properties))
    × (find "required" fs ≡ some (arr (texts required)))
    × (find "additionalProperties" fs ≡ some (bool false))
    × AllSchemas P properties
    × All (λ name. has name properties ≡ true) required

abbrev pub ArrayShape : (Fields → Type 0) → Fields → Type 0
ArrayShape P fs = (element : Fields) × (find "items" fs ≡ some (obj element)) × P element

abbrev pub scalar_types : List String
scalar_types = "string" ∷ "integer" ∷ "number" ∷ "boolean" ∷ "null" ∷ []

abbrev pub Shape : (Fields → Type 0) → String → Fields → Type 0
Shape P declared fs =
    ((declared ≡ "object") × ObjectShape P fs)
    ⊎ (((declared ≡ "array") × ArrayShape P fs) ⊎ (contains scalar_types declared ≡ true))

-- A schema of one of the types, with keywords of that type alone; it nests at most `levels` schemas.
unfoldable pub IsClosed : ℕ → Fields → Type 0
IsClosed zero fs = ⊥
IsClosed (suc levels) fs =
    (declared : String) × HasType declared fs
    × (all_known (output_keywords declared) fs ≡ true)
    × Shape (IsClosed levels) declared fs

-- The step gives schemas of which `P` holds.
abbrev pub Gives : (Fields → Type 0) → Step → Type 0
Gives P again =
    (schema : Json) (pointer : String) (out : Fields) → again schema pointer ≡ ok out → P out

module _ (P : Fields → Type 0) where
  AllSchemas-put :
      (key : String) (schema fs : Fields)
      → P schema
      → AllSchemas P fs
      → AllSchemas P (put key (obj schema) fs)
  unfolding put
  AllSchemas-put key schema end p h = (p, tt)
  AllSchemas-put key schema (field k (obj other) fs) p h = elim (Bool-cases (k == key)) [
    | inl same ↦ rw same (p, h.1)
    | inr distinct ↦ rw distinct (h.0, AllSchemas-put key schema fs p h.1)
  ]
  AllSchemas-put key schema (field k null fs) p h = absurd h
  AllSchemas-put key schema (field k (bool b) fs) p h = absurd h
  AllSchemas-put key schema (field k (int n) fs) p h = absurd h
  AllSchemas-put key schema (field k (float f t) fs) p h = absurd h
  AllSchemas-put key schema (field k (str s) fs) p h = absurd h
  AllSchemas-put key schema (field k (arr xs) fs) p h = absurd h

  pub properties-AllSchemas :
      (again : Step) (source properties out : Fields) (pointer : String)
      → Gives P again
      → AllSchemas P properties
      → convert_properties again source pointer properties ≡ ok out
      → AllSchemas P out
  unfolding convert_properties
  properties-AllSchemas again end properties out pointer gives before h =
      let same : properties ≡ out = ground arith in subst (AllSchemas P) same before
  properties-AllSchemas again (field name value fs) properties out pointer gives before h =
      let (named, h₁) = guard-eq-ok (not (name == "")) (invalid_document pointer) _ h in
      let (converted, e, h₂) =
        >>=-eq-ok (again value (below (pointer ⧺ "/properties") name)) _ h₁ in
      properties-AllSchemas again fs (put name (obj converted) properties) out pointer gives
        (AllSchemas-put name converted properties
          (gives value (below (pointer ⧺ "/properties") name) converted e) before)
        h₂

pub required-All :
    (xs : Items) (properties : Fields) (pointer : String) (before out : List String)
    → All (λ name. has name properties ≡ true) before
    → read_required xs properties pointer before ≡ ok out
    → All (λ name. has name properties ≡ true) out
unfolding read_required
required-All nil properties pointer before out all h =
    let same : before ≡ out = ground arith in
    subst (All (λ name. has name properties ≡ true)) same all
required-All (cons (str entry) xs) properties pointer before out all h =
    let (known, h₁) =
      guard-eq-ok (has entry properties) (invalid_document (pointer ⧺ "/required")) _ h in
    required-All xs properties pointer
      (if contains before entry then before else before ++ (entry ∷ [])) out
      (once (contains before entry) known) h₁
  where
    once :
        (b : Bool)
        → has entry properties ≡ true
        → All (λ name. has name properties ≡ true) (if b then before else before ++ (entry ∷ []))
    once true known = all
    once false known =
        All-append (λ name. has name properties ≡ true) before (entry ∷ []) all (known, tt)
required-All (cons null xs) properties pointer before out all h = ground arith
required-All (cons (bool b) xs) properties pointer before out all h = ground arith
required-All (cons (int n) xs) properties pointer before out all h = ground arith
required-All (cons (float f t) xs) properties pointer before out all h = ground arith
required-All (cons (arr ys) xs) properties pointer before out all h = ground arith
required-All (cons (obj fs) xs) properties pointer before out all h = ground arith

-- Of the supported types all but two are scalar.
pub scalar_type :
    (declared : String)
    → declared == "array" ≡ false
    → declared == "object" ≡ false
    → In declared all_types
    → contains scalar_types declared ≡ true
unfolding contains
scalar_type declared no_list no_object (inl e) = subst (λ d. contains scalar_types d ≡ true) e refl
scalar_type declared no_list no_object (inr (inl e)) =
    subst (λ d. contains scalar_types d ≡ true) e refl
scalar_type declared no_list no_object (inr (inr (inl e))) =
    subst (λ d. contains scalar_types d ≡ true) e refl
scalar_type declared no_list no_object (inr (inr (inr (inl e)))) =
    subst (λ d. contains scalar_types d ≡ true) e refl
scalar_type declared no_list no_object (inr (inr (inr (inr (inl e))))) =
    let bad : true ≡ false = subst (λ d. d == "object" ≡ false) (sym e) no_object in cc
scalar_type declared no_list no_object (inr (inr (inr (inr (inr (inl e)))))) =
    let bad : true ≡ false = subst (λ d. d == "array" ≡ false) (sym e) no_list in cc
scalar_type declared no_list no_object (inr (inr (inr (inr (inr (inr (inl e))))))) =
    subst (λ d. contains scalar_types d ≡ true) e refl
scalar_type declared no_list no_object (inr (inr (inr (inr (inr (inr (inr e))))))) = absurd e

pub declared_type-known :
    (value : Json) (pointer declared : String)
    → declared_type value pointer ≡ ok declared
    → contains all_types declared ≡ true
unfolding declared_type
declared_type-known (str s) pointer declared h =
    let (known, h₁) = guard-eq-ok (contains all_types s) (unsupported_feature pointer) _ h in
    let same : s ≡ declared = ground arith in rw (← same) known
declared_type-known null pointer declared h = ground arith
declared_type-known (bool b) pointer declared h = ground arith
declared_type-known (int n) pointer declared h = ground arith
declared_type-known (float f t) pointer declared h = ground arith
declared_type-known (arr xs) pointer declared h = ground arith
declared_type-known (obj fs) pointer declared h = ground arith
