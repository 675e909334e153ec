-- ===== src/Runtime/Snapshot.antt =====
-- snapshot.py: checking a snapshot document and indexing its tools. Parameters: SHA-256, the
-- signature primitives, the JSON Schema validation of the document and pydantic's reading of it.
-- The log lines are left out.
pub mod Index
pub mod Loading
use toollayer_ai.Base.{
  ℕ, ◌*◌, ◌-◌, String, Bool, true, false, not, ◌&&◌, Option, none, some, List, [], ◌∷◌, ◌++◌, ltb,
  ◌==◌, if◌then◌else◌,
}
use toollayer_ai.Json.{Json, null, str, obj, Fields, get}
use toollayer_ai.Contracts.Errors.{
  Failure, unsupported_contract_version, snapshot_integrity_failed, snapshot_signature_invalid,
  unknown_tool, tool_layer, incompatible_version, signature_error, value_error, Result, ok, err,
  ◌>>=◌, ◌>>◌, guard,
}
use toollayer_ai.Contracts.Version.{ContractVersion, require_supported}
use toollayer_ai.Contracts.CanonicalJson.{snapshot_digest_excluded, verify_digest}
use toollayer_ai.Contracts.Signing.{Crypto, TrustedKeyRing, verify_document}
use toollayer_ai.Contracts.Validation.{Schemas, validate_deployment_snapshot}
use toollayer_ai.Contracts.Models.{
  ToolDefinition, ConnectorDefinition, DeploymentSnapshot, check_connector, check_snapshot,
}

pub record BoundTool : Type 0 where
  pub connector_key : String
  pub connector_version : String
  pub base_url : String
  pub tool : ToolDefinition

abbrev pub Index : Type 0
Index = List (String × BoundTool)

-- `index.get(name)`
unfoldable pub lookup : String → Index → Option BoundTool
lookup name [] = none
lookup name ((key, bound) ∷ index) = if key == name then some bound else lookup name index

abbrev pub is_some {ℓ} : {A : Type ℓ} → Option A → Bool
is_some none = false
is_some (some a) = true

abbrev pub bind_tool : ConnectorDefinition → ToolDefinition → BoundTool
bind_tool connector tool = record {
  connector_key = connector.connector_key;
  connector_version = connector.version;
  base_url = connector.base_url;
  tool = tool;
}

-- The inner loop of `_index`.
unfoldable pub index_tools : ConnectorDefinition → List ToolDefinition → Index → Result Index
index_tools connector [] index = ok index
index_tools connector (tool ∷ tools) index =
    if is_some (lookup tool.tool_name index)
    then err (tool_layer snapshot_integrity_failed)
    else index_tools connector tools (index ++ (tool.tool_name, bind_tool connector tool) ∷ [])

unfoldable pub index_connectors : List ConnectorDefinition → Index → Result Index
index_connectors [] index = ok index
index_connectors (connector ∷ connectors) index = do
  index' ← index_tools connector connector.tools index
  index_connectors connectors index'

-- `_index`
unfoldable pub index_snapshot : DeploymentSnapshot → Result Index
index_snapshot snapshot = index_connectors snapshot.connectors []

pub data VerificationMode : Type 0 where
  required disabled : VerificationMode

pub record SnapshotVerification : Type 0 where
  pub mode : VerificationMode
  pub trusted_keys : TrustedKeyRing

pub record LoadedSnapshot : Type 0 where
  pub snapshot : DeploymentSnapshot
  pub etag : Option String
  pub loaded_at : ℕ
  pub tools_by_name : Index
  pub signing_key_id : Option String

-- `LoadedSnapshot.resolve`
abbrev pub or_unknown : Option BoundTool → Result BoundTool
or_unknown none = err (tool_layer unknown_tool)
or_unknown (some bound) = ok bound

unfoldable pub resolve : LoadedSnapshot → String → Result BoundTool
resolve loaded tool_name = or_unknown (lookup tool_name loaded.tools_by_name)

-- `str(document["snapshot_digest"])`. The text of a value that is no `str` never has the prefix of a
-- digest, so any text without it stands for that.
abbrev pub declared_digest : Json → String
declared_digest (str s) = s
declared_digest _ = ""

-- `except IncompatibleContractVersionError: raise ToolLayerError(…)`
abbrev pub version_failure : Result ContractVersion → Result (Unit {0})
version_failure (ok v) = ok tt
version_failure (err incompatible_version) = err (tool_layer unsupported_contract_version)
version_failure (err e) = err e

-- `except SignatureVerificationError: raise SnapshotSignatureError(…)`
abbrev pub signature_failure : Result String → Result (Option String)
signature_failure (ok key_id) = ok (some key_id)
signature_failure (err signature_error) = err (tool_layer snapshot_signature_invalid)
signature_failure (err e) = err e

abbrev pub is_null : Json → Bool
is_null null = true
is_null _ = false

abbrev pub or_value_error {ℓ} : {A : Type ℓ} → Option A → Result A
or_value_error none = err value_error
or_value_error (some a) = ok a

-- The validators of every connector in turn.
unfoldable pub check_connectors : List ConnectorDefinition → Result (Unit {0})
check_connectors [] = ok tt
check_connectors (c ∷ cs) = do check_connector c; check_connectors cs

-- What the loading of a snapshot takes from outside: SHA-256 in hexadecimal, the signature
-- primitives, the JSON Schemas, and pydantic's reading of the fields, nested tools included.
pub record Environment : Type 0 where
  pub sha256_hex : String → String
  pub crypto : Crypto
  pub schemas : Schemas
  pub read_model : Fields → Option DeploymentSnapshot

module _ (env : Environment) where
  -- `SnapshotVerification.check`
  unfoldable pub check_producer : SnapshotVerification → Fields → Result (Option String)
  check_producer verification document =
      let verified =
        signature_failure (verify_document env.crypto document verification.trusted_keys) in
      elim verification.mode [
        | required ↦ verified
        | disabled ↦ if is_null (get "signature" document) then ok none else verified
      ]

  -- `DeploymentSnapshot.model_validate(document)`: the nested connectors are checked first.
  unfoldable pub validate_model : Fields → Result DeploymentSnapshot
  validate_model document = do
    snapshot ← or_value_error (env.read_model document)
    check_connectors snapshot.connectors
    check_snapshot snapshot
    ok snapshot

  unfoldable pub load_object :
      Fields → Option String → SnapshotVerification → ℕ → Result LoadedSnapshot
  load_object document etag verification now = do
    version_failure (require_supported (get "contract_version" document))
    validate_deployment_snapshot env.schemas document
    guard
        (verify_digest env.sha256_hex snapshot_digest_excluded document
          (declared_digest (get "snapshot_digest" document)))
        (tool_layer snapshot_integrity_failed)
    signing_key_id ← check_producer verification document
    snapshot ← validate_model document
    check_connectors snapshot.connectors
    index ← index_snapshot snapshot
    ok (record {
      snapshot = snapshot;
      etag = etag;
      loaded_at = now;
      tools_by_name = index;
      signing_key_id = signing_key_id;
    })

  unfoldable pub load_snapshot_document :
      Json → Option String → SnapshotVerification → ℕ → Result LoadedSnapshot
  load_snapshot_document (obj document) etag verification now =
      load_object document etag verification now
  load_snapshot_document _ etag verification now = err (tool_layer snapshot_integrity_failed)
