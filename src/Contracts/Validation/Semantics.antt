-- ===== src/Contracts/Validation/Semantics.antt =====
-- What a validated snapshot document satisfies beyond its schema.
use toollayer_ai.Base.{
  ◌≡◌, refl, String, true, not, List, [], ◌∷◌, arith, eq_iff, contains, In, In→contains,
}
use toollayer_ai.Json.{Json, str, obj, Fields, get}
use toollayer_ai.Contracts.Errors.{ok, >>=-eq-ok, guard-eq-ok}
use toollayer_ai.Contracts.Validation.{
  Schemas, violation, require_contract_version, list_of, text_of, is_text,
  validate_tool_input_schema, validate_tools, validate_connector_definition, validate_connectors,
  validate_deployment_snapshot,
}

-- The texts under a key of the objects of a list, in order, where each is a text that none of the
-- earlier ones is.
abbrev pub HasFreshTexts : String → List String → List Json → Type 0
HasFreshTexts key seen [] = Unit
HasFreshTexts key seen (x ∷ xs) =
    (fields : Fields) × (text : String) × (x ≡ obj fields)
    × (get key fields ≡ str text)
    × (¬ In text seen)
    × HasFreshTexts key (text ∷ seen) xs

text_of-eq-ok : (j : Json) {s : String} → text_of j ≡ ok s → j ≡ str s
text_of-eq-ok (str t) h = ground arith
text_of-eq-ok _ h = cc

not-In : (xs : List String) (x : String) → not (contains xs x) ≡ true → ¬ In x xs
not-In xs x h i = absurd (ground (arith, In→contains xs x i))

module _ (schemas : Schemas) where
  validate_tools-HasFreshTexts :
      (seen : List String) (tools : List Json)
      → validate_tools schemas seen tools ≡ ok tt
      → HasFreshTexts "tool_name" seen tools
  unfolding validate_tools
  validate_tools-HasFreshTexts seen [] h = tt
  validate_tools-HasFreshTexts seen (obj tool ∷ tools) h =
      let (name, named, h₁) = >>=-eq-ok (text_of (get "tool_name" tool)) _ h in
      let (fresh, h₂) = guard-eq-ok (not (contains seen name)) violation _ h₁ in
      let (_, _, h₃) =
        >>=-eq-ok (validate_tool_input_schema schemas (get "input_schema" tool)) _ h₂ in
      (
        tool,
        name,
        refl,
        text_of-eq-ok _ named,
        not-In seen name fresh,
        validate_tools-HasFreshTexts (name ∷ seen) tools h₃,
      )
  validate_tools-HasFreshTexts seen (_ ∷ tools) h = cc

  -- A connector of a valid snapshot: published, with tools of different names.
  pub record IsServable (connector : Json) : Type 0 where
    pub fields : Fields
    pub is_object : connector ≡ obj fields
    pub is_published : get "lifecycle_state" fields ≡ str "published"
    pub tools_named : HasFreshTexts "tool_name" [] (list_of (get "tools" fields))

  validate_connector-tools :
      (document : Fields)
      → validate_connector_definition schemas (obj document) ≡ ok tt
      → HasFreshTexts "tool_name" [] (list_of (get "tools" document))
  unfolding validate_connector_definition
  validate_connector-tools document h =
      let (_, _, h₁) = >>=-eq-ok (require_contract_version document) _ h in
      let (_, h₂) = guard-eq-ok (schemas.connector_schema document) violation _ h₁ in
      validate_tools-HasFreshTexts [] (list_of (get "tools" document)) h₂

  is_text-eq-true : (j : Json) (s : String) → is_text j s ≡ true → j ≡ str s
  is_text-eq-true (str t) s h = ground (arith, eq_iff t s)
  is_text-eq-true _ s h = cc

  abbrev pub AllServable : List Json → Type 0
  AllServable [] = Unit
  AllServable (c ∷ cs) = IsServable c × AllServable cs

  validate_connectors_sound :
      (seen : List String) (connectors : List Json)
      → validate_connectors schemas seen connectors ≡ ok tt
      → HasFreshTexts "connector_key" seen connectors × AllServable connectors
  unfolding validate_connectors
  validate_connectors_sound seen [] h = (tt, tt)
  validate_connectors_sound seen (obj connector ∷ connectors) h =
      let (key, named, h₁) = >>=-eq-ok (text_of (get "connector_key" connector)) _ h in
      let (fresh, h₂) = guard-eq-ok (not (contains seen key)) violation _ h₁ in
      let (published, h₃) =
        guard-eq-ok (is_text (get "lifecycle_state" connector) "published") violation _ h₂ in
      let (_, valid, h₄) = >>=-eq-ok (validate_connector_definition schemas (obj connector)) _ h₃ in
      let (keys, rest) = validate_connectors_sound (key ∷ seen) connectors h₄ in
      (
        (connector, key, refl, text_of-eq-ok _ named, not-In seen key fresh, keys),
        (
          record {
            fields = connector;
            is_object = refl;
            is_published = is_text-eq-true _ "published" published;
            tools_named = validate_connector-tools connector valid;
          },
          rest,
        ),
      )
  validate_connectors_sound seen (_ ∷ connectors) h = cc

  -- A snapshot document that validates satisfies its schema, pins no connector key twice, and has only
  -- published connectors, in each of which no tool name stands twice.
  pub validate_deployment_snapshot_sound :
      (document : Fields)
      → validate_deployment_snapshot schemas document ≡ ok tt
      → (schemas.snapshot_schema document ≡ true)
        × HasFreshTexts "connector_key" [] (list_of (get "connectors" document))
        × AllServable (list_of (get "connectors" document))
  unfolding validate_deployment_snapshot
  validate_deployment_snapshot_sound document h =
      let (_, _, h₁) = >>=-eq-ok (require_contract_version document) _ h in
      let (valid, h₂) = guard-eq-ok (schemas.snapshot_schema document) violation _ h₁ in
      let (keys, all) = validate_connectors_sound [] (list_of (get "connectors" document)) h₂ in
      (valid, keys, all)
