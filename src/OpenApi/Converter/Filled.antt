-- ===== src/OpenApi/Converter/Filled.antt =====
-- The bindings of a converted operation fill the placeholders of its path.
use mathlib.Core.List.{append_assoc, append-nil}
use toollayer_ai.Base.{
  ◌≡◌, refl, sym, ◌∙◌, subst, ap, inl, inr, ◌↔◌, String, Bool, true, false, not, ◌&&◌, Option, List,
  [], ◌∷◌, ◌++◌, In, contains→In, distinct, IsDistinct, distinct→IsDistinct, arith, Bool-cases,
  if◌then◌else◌,
}
use toollayer_ai.Json.{Json, Fields, end, field, null, bool, int, float, str, arr, obj, get, find}
use toollayer_ai.Contracts.Models.{ArgumentBinding, ToolOperation, ToolDefinition}
use toollayer_ai.OpenApi.Errors.{
  Failure, value_error, Result, ok, err, guard, >>=-eq-ok, guard-eq-ok,
}
use toollayer_ai.Contracts.CanonicalJson.{◌⧺◌}
use toollayer_ai.OpenApi.Schemas.{has, convert_schema}
use toollayer_ai.OpenApi.Naming.{NameTables, tool_name_of}
use toollayer_ai.Contracts.Models.Operations.{
  bindings_are_consistent, bindings_reference_declared, closed_object_schema,
}
use toollayer_ai.OpenApi.Parameters.{
  invalid, Parameter, is_path, flag_or, object_of, unsupported, collect_parameters, placeholders,
  path_names, all_among, check_path_placeholders,
}
use toollayer_ai.OpenApi.Converter.{
  Checks, Collected, some_entries, json_media_type, body_argument, is_object, properties_of,
  all_valid, method_entry, MethodEntry, reject_features, collect, parameter_binding, body_bindings,
  convert_body, convert_request_body, operation_id, check_tags, check_tool, build_tool,
  convert_operation,
}

-- The names of the path parameters that the bindings fill.
pub path_targets : List ArgumentBinding → List String
path_targets [] = []
path_targets (b ∷ bs) =
    let rest = path_targets bs in if is_path b.target then b.target_name ∷ rest else rest

path_targets-append :
    (before after : List ArgumentBinding)
    → path_targets (before ++ after) ≡ path_targets before ++ path_targets after
unfolding path_targets
path_targets-append [] after = refl
path_targets-append (b ∷ before) after = elim (Bool-cases (is_path b.target)) [
  | inl e ↦ rw (e, path_targets-append before after) refl
  | inr e ↦ rw (e, path_targets-append before after) refl
]

path_targets-body_bindings : (fs : Fields) → path_targets (body_bindings fs) ≡ []
unfolding path_targets body_bindings
path_targets-body_bindings end = refl
path_targets-body_bindings (field name schema fs) = path_targets-body_bindings fs

all_among_sound :
    (names others : List String) (name : String)
    → all_among names others ≡ true
    → In name names
    → In name others
unfolding all_among
all_among_sound [] others name h i = absurd i
all_among_sound (first ∷ names) others name h (inl e) = contains→In others name (ground arith)
all_among_sound (first ∷ names) others name h (inr i) =
    all_among_sound names others name (ground arith) i

-- One parameter gives one binding, which fills a placeholder where the parameter is in the path.
with_first :
    (bindings : List ArgumentBinding) (p : Parameter) (names : List String)
    → path_targets (bindings ++ (parameter_binding p ∷ [])) ++ names
      ≡ path_targets bindings ++ (if is_path p.location then p.name ∷ names else names)
unfolding path_targets
with_first bindings p names =
    rw (path_targets-append bindings (parameter_binding p ∷ []))
      (elim (Bool-cases (is_path p.location)) [
        | inl e ↦ rw e (append_assoc (path_targets bindings) (p.name ∷ []) names)
        | inr e ↦ rw e (append_assoc (path_targets bindings) [] names)
      ])

bindings_of : Collected → Result Collected → List ArgumentBinding
bindings_of other (err failure) = other.bindings
bindings_of other (ok collected) = collected.bindings

first_of : Collected → Result (Collected × Option String) → Result Collected
first_of other (err failure) = err failure
first_of other (ok (collected, media_type)) = ok collected

collect-path_targets :
    (checks : Checks) (parameters : List Parameter) (before after : Collected)
    → collect checks parameters before ≡ ok after
    → path_targets after.bindings ≡ path_targets before.bindings ++ path_names parameters
unfolding collect path_names bindings_of
collect-path_targets checks [] before after h =
    let same : before.bindings ≡ after.bindings = ap (bindings_of before) h in
    rw (← same) (sym (append-nil (path_targets before.bindings)))
collect-path_targets checks (p ∷ parameters) before after h =
    let (fresh, h₁) = guard-eq-ok (not (has p.name before.properties)) unsupported _ h in
    let (schema, converted, h₂) =
      >>=-eq-ok (convert_schema checks.equal (obj p.schema) ("/parameters/" ⧺ p.name)) _ h₁ in
    let (valid, h₃) = guard-eq-ok (checks.binding (parameter_binding p)) value_error _ h₂ in
    collect-path_targets checks parameters _ after h₃
    ∙ with_first before.bindings p (path_names parameters)

convert_body-path_targets :
    (checks : Checks) (raw : Fields) (before after : Collected)
    → convert_body checks raw before ≡ ok after
    → path_targets after.bindings ≡ path_targets before.bindings
unfolding convert_body bindings_of
convert_body-path_targets checks raw before after h =
    let (found, e₁, h₁) = >>=-eq-ok (object_of (get "content" raw)) _ h in
    let (content, e₂, h₂) = >>=-eq-ok (some_entries found) _ h₁ in
    let (e₃, h₃) = guard-eq-ok (has json_media_type content) unsupported _ h₂ in
    let (media, e₄, h₄) = >>=-eq-ok (object_of (get json_media_type content)) _ h₃ in
    let (schema, e₅, h₅) = >>=-eq-ok (object_of (get "schema" media)) _ h₄ in
    let (e₆, h₆) = guard-eq-ok (not (has body_argument before.properties)) unsupported _ h₅ in
    let (converted, e₇, h₇) =
      >>=-eq-ok (convert_schema checks.equal (obj schema) "/requestBody") _ h₆ in
    let (e₈, h₈) = guard-eq-ok (is_object (get "type" converted)) unsupported _ h₇ in
    let (required, e₉, h₉) = >>=-eq-ok (flag_or false (find "required" raw)) _ h₈ in
    let added = body_bindings (properties_of (get "properties" converted)) in
    let (e₁₀, h₁₀) = guard-eq-ok (all_valid checks.binding added) value_error _ h₉ in
    let same : before.bindings ++ added ≡ after.bindings = ap (bindings_of before) h₁₀ in
    rw
      (
        ← same,
        path_targets-append before.bindings added,
        path_targets-body_bindings (properties_of (get "properties" converted)),
      )
      (append-nil (path_targets before.bindings))

convert_request_body-path_targets :
    (checks : Checks) (given : Json) (before after : Collected) (media_type : Option String)
    → convert_request_body checks given before ≡ ok (after, media_type)
    → path_targets after.bindings ≡ path_targets before.bindings
unfolding convert_request_body bindings_of first_of
convert_request_body-path_targets checks null before after media_type h =
    ap (λ r. path_targets (bindings_of before (first_of before r))) (sym h)
convert_request_body-path_targets checks (obj raw) before after media_type h =
    let (complete, e, h₁) = >>=-eq-ok (convert_body checks raw before) _ h in
    let same : complete.bindings ≡ after.bindings =
      ap (λ r. bindings_of before (first_of before r)) h₁ in
    rw (← same) (convert_body-path_targets checks raw before complete e)
convert_request_body-path_targets checks (bool b) before after media_type h = ground arith
convert_request_body-path_targets checks (int n) before after media_type h = ground arith
convert_request_body-path_targets checks (float finite text) before after media_type h =
    ground arith
convert_request_body-path_targets checks (str s) before after media_type h = ground arith
convert_request_body-path_targets checks (arr xs) before after media_type h = ground arith

tool_or : ToolDefinition → Result ToolDefinition → ToolDefinition
tool_or other (err failure) = other
tool_or other (ok tool) = tool

check_tool-eq-ok :
    (checks : Checks) (made tool : ToolDefinition) → check_tool checks made ≡ ok tool → made ≡ tool
unfolding check_tool tool_or
check_tool-eq-ok checks made tool h =
    let (valid, h₁) =
      guard-eq-ok
        (checks.tool made
          && closed_object_schema made.input_schema
          && bindings_reference_declared made)
        value_error _ h in
    ap (tool_or made) h₁

build_tool-path_targets :
    (tables : NameTables) (checks : Checks) (entry : MethodEntry) (method template : String)
    (operation : Fields) (parameters : List Parameter) (tool : ToolDefinition)
    → build_tool tables checks entry method template operation parameters ≡ ok tool
    → (path_targets tool.operation.bindings ≡ path_names parameters)
      × (tool.operation.path_template ≡ template)
unfolding build_tool path_targets
build_tool-path_targets tables checks entry method template operation parameters tool h =
    let empty : Collected = record { properties = end; required = []; bindings = [] } in
    let (collected, e₁, h₁) = >>=-eq-ok (collect checks parameters empty) _ h in
    let ((complete, media_type), e₂, h₂) =
      >>=-eq-ok (convert_request_body checks (get "requestBody" operation) collected) _ h₁ in
    let (id, e₃, h₃) = >>=-eq-ok (operation_id (find "operationId" operation)) _ h₂ in
    let (name, e₄, h₄) = >>=-eq-ok (tool_name_of tables id method template) _ h₃ in
    let request : ToolOperation = record {
      method = entry.upper;
      path_template = template;
      bindings = complete.bindings;
      request_body_media_type = media_type;
    } in
    let (e₅, h₅) =
      guard-eq-ok (checks.operation request && bindings_are_consistent request) value_error _ h₄ in
    let (e₆, tagged, h₆) = >>=-eq-ok (check_tags (find "tags" operation)) _ h₅ in
    let (deprecated, e₇, h₇) = >>=-eq-ok (flag_or false (find "deprecated" operation)) _ h₆ in
    let same : request ≡ tool.operation =
      ap (λ t. t.operation) (check_tool-eq-ok checks _ tool h₇) in
    (
      rw (← same) (
          convert_request_body-path_targets checks (get "requestBody" operation) collected complete
            media_type e₂
          ∙ collect-path_targets checks parameters empty collected e₁),
      rw (← same) refl,
    )

-- The names in braces of the path, each once, are those of the bindings that fill the path.
abbrev pub IsFilled : String → List ArgumentBinding → Type 0
IsFilled template bindings =
    (names : List String) × (placeholders false "" template ≡ ok names)
    × IsDistinct names
    × ((name : String) → In name names ↔ In name (path_targets bindings))

guard_end : (test : Bool) (failure : Failure) → guard test failure ≡ ok tt → test ≡ true
guard_end false failure h = ground arith
guard_end true failure h = refl

check_path_placeholders_lem :
    (template : String) (parameters : List Parameter)
    → check_path_placeholders template parameters ≡ ok tt
    → (names : List String) × (placeholders false "" template ≡ ok names)
      × IsDistinct names
      × ((name : String) → In name names ↔ In name (path_names parameters))
unfolding check_path_placeholders
check_path_placeholders_lem template parameters h =
    let (names, found, h₁) = >>=-eq-ok (placeholders false "" template) _ h in
    let (once, h₂) = guard-eq-ok (distinct names) invalid _ h₁ in
    let (filled, h₃) = guard-eq-ok (all_among names (path_names parameters)) invalid _ h₂ in
    let used = guard_end (all_among (path_names parameters) names) invalid h₃ in
    (
      names,
      found,
      distinct→IsDistinct names once,
      λ name. (
        all_among_sound names (path_names parameters) name filled,
        all_among_sound (path_names parameters) names name used,
      ),
    )

-- Where an operation converts, the tool has its path as the template; the names in braces there are distinct, and they
-- are those of the bindings that fill the path.
pub convert_operation-IsFilled :
    (tables : NameTables) (checks : Checks) (template method : String)
    (path_item operation : Fields) (tool : ToolDefinition)
    → convert_operation tables checks template method path_item operation ≡ ok tool
    → (tool.operation.path_template ≡ template) × IsFilled template tool.operation.bindings
unfolding convert_operation
convert_operation-IsFilled tables checks template method path_item operation tool h =
    let (entry, e₁, h₁) = >>=-eq-ok (method_entry (tables.lower method)) _ h in
    let (plain, e₂, h₂) = >>=-eq-ok (reject_features path_item operation) _ h₁ in
    let (parameters, e₃, h₃) = >>=-eq-ok (collect_parameters path_item operation) _ h₂ in
    let (done, e₄, h₄) = >>=-eq-ok (check_path_placeholders template parameters) _ h₃ in
    let (names, found, once, same) = check_path_placeholders_lem template parameters e₄ in
    let (targets, is_template) =
      build_tool-path_targets tables checks entry (tables.lower method) template operation
        parameters tool h₄ in
    (
      is_template,
      (
        names,
        found,
        once,
        λ name. subst (λ xs. In name names ↔ In name xs) (sym targets) (same name),
      ),
    )
