-- ===== src/ControlPlane/Publication.antt =====
-- publication.py: the connector document that a reviewed draft describes. Parameters: SHA-256, the
-- JSON Schemas, and the text of a time. The arguments that come from one row are passed as the row.
use toollayer_ai.Base.{
  ℕ, String, Bool, true, false, not, Option, none, some, List, [], ◌∷◌, map, ◌==◌, length, distinct,
  if◌then◌else◌,
}
use toollayer_ai.Json.{
  pos, Json, null, bool, int, str, arr, obj, Fields, end, field, get, put, nil, to_items,
}
use toollayer_ai.Contracts.Errors.{
  Failure, tool_layer, not_ready_for_publication, key_error, type_error, assertion_error,
  canonical_json_error, Result, ok, err, ◌>>=◌, ◌>>◌, guard,
}
use toollayer_ai.Contracts.Version.{contract_version}
use toollayer_ai.Contracts.CanonicalJson.{content_digest}
use toollayer_ai.Contracts.Models.{ToolAccessPolicy, make_access_policy, access_json, sorted}
use toollayer_ai.Contracts.Validation.{Schemas, validate_connector_definition}
use toollayer_ai.ControlPlane.Review.{
  OperationReview, ReviewState, Operation, Analysis, Issue, included, review_readiness,
}
use toollayer_ai.ControlPlane.Rows.{Source, ConnectorDraft, Connector}

abbrev pub not_ready : Failure
not_ready = tool_layer not_ready_for_publication

pub record BuiltConnector : Type 0 where
  pub document : Fields
  pub digest : String
  pub tool_count : ℕ

abbrev or_this : String → Operation → Option Fields → Option Fields
or_this key operation (some tool) = some tool
or_this key operation none = if operation.key == key then operation.tool else none

-- The tool of `analyzed.get(key)`: of two operations with one key the dictionary keeps the last that
-- has a tool.
unfoldable pub find_analyzed : String → Analysis → Option Fields
find_analyzed key [] = none
find_analyzed key (operation ∷ operations) = or_this key operation (find_analyzed key operations)

abbrev or_out_of_sync : Option Fields → Result Fields
or_out_of_sync none = err not_ready
or_out_of_sync (some tool) = ok tool

-- `tool["provenance"]["description_origin"] = origin`
abbrev with_origin : String → Json → Fields → Result Fields
with_origin origin (obj provenance) tool =
    ok (put "provenance" (obj (put "description_origin" (str origin) provenance)) tool)
with_origin origin null tool = err key_error
with_origin origin _ tool = err type_error

-- `entry.access_policy()`
unfoldable pub access_policy : OperationReview → Result ToolAccessPolicy
access_policy entry = make_access_policy entry.access_mode (sorted entry.allowed_roles)

abbrev reviewed_policy : OperationReview → ToolAccessPolicy → Json
reviewed_policy entry access = obj (
    field "effect_class" (str entry.effect_class) (
      field "requires_confirmation" (bool entry.requires_confirmation)
        (field "access" (access_json access) end)))

-- The tool of one included entry.
unfoldable pub reviewed_tool : OperationReview → Fields → Result Fields
reviewed_tool entry tool = do
  access ← access_policy entry
  let described = put "description" (str entry.description) tool
  let decided = put "policy" (reviewed_policy entry access) described
  with_origin entry.description_origin (get "provenance" decided) decided

unfoldable pub reviewed_tools : Analysis → ReviewState → Result (List Fields)
reviewed_tools analysis [] = ok []
reviewed_tools analysis (entry ∷ entries) = do
  analyzed ← or_out_of_sync (find_analyzed entry.operation_key analysis)
  tool ← reviewed_tool entry analyzed
  tools ← reviewed_tools analysis entries
  ok (tool ∷ tools)

-- `tool["tool_name"]`, a text in every tool that the analyser writes
abbrev name_of : Json → Result String
name_of (str name) = ok name
name_of _ = err key_error

unfoldable pub names_of : List Fields → Result (List String)
names_of [] = ok []
names_of (tool ∷ tools) = do
  name ← name_of (get "tool_name" tool)
  names ← names_of tools
  ok (name ∷ names)

abbrev no_issues : List Issue → Bool
no_issues [] = true
no_issues (_ ∷ _) = false

abbrev no_tools : List Fields → Bool
no_tools [] = true
no_tools (_ ∷ _) = false

abbrev or_assertion : Option String → Result String
or_assertion none = err assertion_error
or_assertion (some s) = ok s

abbrev or_null : Option String → Json
or_null none = null
or_null (some s) = str s

abbrev pub or_canonical_error : Option String → Result String
or_canonical_error none = err canonical_json_error
or_canonical_error (some s) = ok s

-- What the control plane takes from outside: SHA-256 in hexadecimal, the JSON Schemas, and the text
-- of a time, as `_rfc3339` writes it.
pub record Outside : Type 0 where
  pub sha256_hex : String → String
  pub schemas : Schemas
  pub rfc3339 : ℕ → String

abbrev source_json : Source → Json
source_json source = obj (
    field "format" (str "openapi") (
      field "spec_version" (str source.spec_version) (
        field "document_filename" (str source.filename) (
          field "document_digest" (str source.digest)
            (field "byte_length" (int (pos source.byte_length)) end)))))

abbrev runtime_json : String → Option String → Json
runtime_json base_url auth_profile_ref = obj (
    field "protocol" (str "http")
      (field "base_url" (str base_url) (field "auth_profile_ref" (or_null auth_profile_ref) end)))

module _ (outside : Outside) where
  abbrev audit_json : ℕ → ℕ → Json
  audit_json created_at published_at = obj (
      field "created_at" (str (outside.rfc3339 created_at)) (
        field "updated_at" (str (outside.rfc3339 published_at))
          (field "published_at" (str (outside.rfc3339 published_at)) end)))

  unfoldable pub connector_document :
      Connector → String → ConnectorDraft → String → List Fields → ℕ → Fields
  connector_document connector version draft base_url tools published_at =
      field "contract_version" (str contract_version) (
        field "connector_key" (str connector.connector_key) (
          field "display_name" (str connector.display_name) (
            field "summary" (str connector.summary) (
              field "version" (str version) (
                field "lifecycle_state" (str "published") (
                  field "runtime" (runtime_json base_url draft.auth_profile_ref) (
                    field "source" (source_json draft.source) (
                      field "tools" (arr (to_items (map obj tools))) (
                        field "labels" (arr nil)
                          (field "audit" (audit_json draft.created_at published_at) end))))))))))

  unfoldable pub build_connector_document :
      Connector → String → ConnectorDraft → ℕ → Result BuiltConnector
  build_connector_document connector version draft published_at = do
    guard (no_issues (review_readiness draft.analysis draft.review draft.base_url)) not_ready
    base_url ← or_assertion draft.base_url
    tools ← reviewed_tools draft.analysis (included draft.review)
    guard (not (no_tools tools)) not_ready
    names ← names_of tools
    guard (distinct names) not_ready
    let document = connector_document connector version draft base_url tools published_at
    validate_connector_definition outside.schemas (obj document)
    digest ← or_canonical_error (content_digest outside.sha256_hex [] document)
    ok (record { document = document; digest = digest; tool_count = length tools })
