-- ===== src/Contracts/Validation.antt =====
-- validation.py: the validation of connector and snapshot documents, with the rules that the JSON
-- Schemas cannot express. The `jsonschema` validators are a parameter. A member that the schema has
-- made sure of is read by its type; where it would have another, the reading here refuses.
pub mod Semantics
use toollayer_ai.Base.{String, Bool, true, false, not, List, [], ◌∷◌, ◌==◌, contains}
use toollayer_ai.Json.{Json, str, arr, obj, Fields, get, items}
use toollayer_ai.Contracts.Errors.{
  Failure, tool_layer, contract_violation, incompatible_version, Result, ok, err, ◌>>=◌, ◌>>◌,
  guard,
}
use toollayer_ai.Contracts.Version.{ContractVersion, require_supported}

-- Whether a document satisfies the packaged schema of a snapshot or of a connector, and whether an
-- input schema is itself a valid schema (`Draft202012Validator.check_schema`).
pub record Schemas : Type 0 where
  pub snapshot_schema : Fields → Bool
  pub connector_schema : Fields → Bool
  pub is_schema : Fields → Bool

abbrev pub violation : Failure
violation = tool_layer contract_violation

-- `except IncompatibleContractVersionError: raise ContractViolationError(…)`
abbrev version_violation : Result ContractVersion → Result (Unit {0})
version_violation (ok v) = ok tt
version_violation (err incompatible_version) = err violation
version_violation (err e) = err e

-- `_require_contract_version`, for an object
unfoldable pub require_contract_version : Fields → Result (Unit {0})
require_contract_version document =
    version_violation (require_supported (get "contract_version" document))

abbrev pub list_of : Json → List Json
list_of (arr xs) = items xs
list_of _ = []

abbrev pub text_of : Json → Result String
text_of (str s) = ok s
text_of _ = err violation

abbrev pub is_text : Json → String → Bool
is_text (str s) t = s == t
is_text _ t = false

module _ (schemas : Schemas) where
  unfoldable pub validate_tool_input_schema : Json → Result (Unit {0})
  validate_tool_input_schema (obj document) = guard (schemas.is_schema document) violation
  validate_tool_input_schema _ = err violation

  -- The loop over the tools of a connector.
  unfoldable pub validate_tools : List String → List Json → Result (Unit {0})
  validate_tools seen [] = ok tt
  validate_tools seen (obj tool ∷ tools) = do
    name ← text_of (get "tool_name" tool)
    guard (not (contains seen name)) violation
    validate_tool_input_schema (get "input_schema" tool)
    validate_tools (name ∷ seen) tools
  validate_tools seen (_ ∷ tools) = err violation

  unfoldable pub validate_connector_definition : Json → Result (Unit {0})
  validate_connector_definition (obj document) = do
    require_contract_version document
    guard (schemas.connector_schema document) violation
    validate_tools [] (list_of (get "tools" document))
  validate_connector_definition _ = err violation

  -- The loop over the connectors of a snapshot.
  unfoldable pub validate_connectors : List String → List Json → Result (Unit {0})
  validate_connectors seen [] = ok tt
  validate_connectors seen (obj connector ∷ connectors) = do
    key ← text_of (get "connector_key" connector)
    guard (not (contains seen key)) violation
    guard (is_text (get "lifecycle_state" connector) "published") violation
    validate_connector_definition (obj connector)
    validate_connectors (key ∷ seen) connectors
  validate_connectors seen (_ ∷ connectors) = err violation

  unfoldable pub validate_deployment_snapshot : Fields → Result (Unit {0})
  validate_deployment_snapshot document = do
    require_contract_version document
    guard (schemas.snapshot_schema document) violation
    validate_connectors [] (list_of (get "connectors" document))
