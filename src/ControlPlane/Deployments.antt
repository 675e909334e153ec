-- ===== src/ControlPlane/Deployments.antt =====
-- service.py: deployments and their snapshots. An error leaves the database as it was; `accepted` says
-- whether the database takes the new row, which another request may have made impossible.
pub mod Active
pub mod Verifies
pub mod Authentic
use Prim.Native.String.{slice}
use toollayer_ai.Base.{
  ℕ, suc, ◌+◌, String, Bool, true, false, not, Option, none, some, List, [], ◌∷◌, ◌++◌, map, ltb,
  ◌==◌, length, contains, text_lt, if◌then◌else◌,
}
use toollayer_ai.Json.{pos, Json, int, str, arr, obj, Fields, end, field, get, put, to_items}
use toollayer_ai.Contracts.Errors.{
  Failure, tool_layer, invalid_request, already_exists, snapshot_unavailable, value_error, Result,
  ok, err, ◌>>=◌, ◌>>◌, guard,
}
use toollayer_ai.Contracts.Version.{contract_version}
use toollayer_ai.Contracts.CanonicalJson.{◌⧺◌, canonical_json, content_digest}
use toollayer_ai.Contracts.Signing.{Crypto, SigningKey, sign_document}
use toollayer_ai.Contracts.Models.{ConnectorDefinition, check_connector}
use toollayer_ai.Contracts.Validation.{validate_deployment_snapshot}
use toollayer_ai.ControlPlane.Rows.{
  SnapshotRow, Deployment, Database, PublishedVersion, is_disabled, find_deployment,
  store_deployment,
}
use toollayer_ai.ControlPlane.Publication.{Outside, or_canonical_error}
use toollayer_ai.ControlPlane.Drafts.{or_missing}
use toollayer_ai.ControlPlane.Releases.{get_version}

pub record SnapshotSelection : Type 0 where
  pub connector_key : String
  pub version : String

abbrev pub with_deployment : Deployment → Database → Database
with_deployment deployment db = record {
  connectors = db.connectors;
  deployments = store_deployment deployment db.deployments;
}

abbrev pub with_snapshots : List SnapshotRow → Deployment → Deployment
with_snapshots snapshots d = record {
  deployment_key = d.deployment_key;
  display_name = d.display_name;
  description = d.description;
  created_at = d.created_at;
  snapshots = snapshots;
}

abbrev pub is_absent : Option Deployment → Bool
is_absent none = true
is_absent (some d) = false

unfoldable pub create_deployment :
    Database → String → String → String → ℕ → Result (Deployment × Database)
create_deployment db key display_name description now = do
  guard (is_absent (find_deployment key db.deployments)) (tool_layer already_exists)
  let deployment : Deployment = record {
    deployment_key = key;
    display_name = display_name;
    description = description;
    created_at = now;
    snapshots = [];
  }
  ok (deployment, with_deployment deployment db)

unfoldable pub get_deployment : Database → String → Result Deployment
get_deployment db key = or_missing (find_deployment key db.deployments)

abbrev pub invalid_selection : Failure
invalid_selection = tool_layer invalid_request

-- `str(document["connector_key"])`, a text in every document that the model accepts
abbrev key_text : Json → String
key_text (str s) = s
key_text _ = ""

abbrev sort_key : Fields → String
sort_key document = key_text (get "connector_key" document)

unfoldable pub insert_document : Fields → List Fields → List Fields
insert_document d [] = d ∷ []
insert_document d (x ∷ xs) =
    if text_lt (sort_key x) (sort_key d) then x ∷ insert_document d xs else d ∷ x ∷ xs

-- `connectors.sort(key=…)`, which is stable
unfoldable pub sort_documents : List Fields → List Fields
sort_documents [] = []
sort_documents (d ∷ ds) = insert_document d (sort_documents ds)

abbrev pub max : ℕ → ℕ → ℕ
max a b = if ltb a b then b else a

-- The highest revision, 0 where there is no snapshot.
unfoldable pub last_revision : List SnapshotRow → ℕ
last_revision [] = 0
last_revision (row ∷ rows) = max row.revision (last_revision rows)

abbrev pub deactivate_row : SnapshotRow → SnapshotRow
deactivate_row row = record {
  revision = row.revision;
  snapshot_id = row.snapshot_id;
  document = row.document;
  snapshot_digest = row.snapshot_digest;
  connector_count = row.connector_count;
  active = false;
  created_at = row.created_at;
  created_by = row.created_by;
}

-- `previous.active = False` for every snapshot
abbrev pub deactivate : List SnapshotRow → List SnapshotRow
deactivate = map deactivate_row

-- The active snapshot of the highest revision.
abbrev pub later : SnapshotRow → Option SnapshotRow → SnapshotRow
later row none = row
later row (some best) = if ltb row.revision best.revision then best else row

unfoldable pub highest_active : List SnapshotRow → Option SnapshotRow
highest_active [] = none
highest_active (row ∷ rows) =
    let rest = highest_active rows in if row.active then some (later row rest) else rest

abbrev or_unavailable : Option SnapshotRow → Result SnapshotRow
or_unavailable none = err (tool_layer snapshot_unavailable)
or_unavailable (some row) = ok row

unfoldable pub get_active_snapshot : Database → String → Result SnapshotRow
get_active_snapshot db key = do
  deployment ← get_deployment db key
  or_unavailable (highest_active deployment.snapshots)

-- The parameters of a snapshot's creation: the signature primitives and pydantic's reading of a
-- connector document besides those of publication.
pub record Builder : Type 0 where
  pub outside : Outside
  pub crypto : Crypto
  pub read_connector : Fields → Option ConnectorDefinition
  -- `created_at.isoformat().replace("+00:00", "Z")`
  pub isoformat : ℕ → String

abbrev or_value_error : Option ConnectorDefinition → Result ConnectorDefinition
or_value_error none = err value_error
or_value_error (some c) = ok c

module _ (builder : Builder) where
  -- `ConnectorDefinition.model_validate(document)`
  unfoldable pub validate_document : Fields → Result (Unit {0})
  validate_document document = do
    connector ← or_value_error (builder.read_connector document)
    check_connector connector

  -- The loop over the selections.
  unfoldable pub select_documents :
      Database → List String → List SnapshotSelection → Result (List Fields)
  select_documents db seen [] = ok []
  select_documents db seen (selection ∷ selections) = do
    guard (not (contains seen selection.connector_key)) invalid_selection
    row ← get_version db selection.connector_key selection.version
    guard (not (is_disabled row)) invalid_selection
    validate_document row.document
    documents ← select_documents db (selection.connector_key ∷ seen) selections
    ok (row.document ∷ documents)

  unfoldable pub snapshot_payload : String → ℕ → ℕ → List Fields → Fields
  snapshot_payload key revision now connectors = field "contract_version" (str contract_version) (
      field "deployment_key" (str key) (
        field "revision" (int (pos revision)) (
          field "created_at" (str (builder.isoformat now))
            (field "connectors" (arr (to_items (map obj connectors))) end))))

  -- `{**payload, "snapshot_id": …, "snapshot_digest": …}`
  abbrev pub with_identity : Fields → String → String → Fields
  with_identity payload snapshot_id digest =
      put "snapshot_digest" (str digest) (put "snapshot_id" (str snapshot_id) payload)

  -- `document["signature"] = sign_document(document, signing_key)`
  unfoldable pub add_signature : Option SigningKey → Fields → Result Fields
  add_signature none document = ok document
  add_signature (some key) document = do
    signature ← sign_document builder.crypto document key
    ok (put "signature" signature document)

  unfoldable pub build_snapshot_document :
      String → ℕ → ℕ → List Fields → Option SigningKey → Result (String × String × Fields)
  build_snapshot_document key revision now connectors signing_key = do
    let payload = snapshot_payload key revision now connectors
    digest ← or_canonical_error (content_digest builder.outside.sha256_hex [] payload)
    text ← or_canonical_error (canonical_json (obj payload))
    let snapshot_id = "snap_" ⧺ slice (builder.outside.sha256_hex text) 0 32
    document ← add_signature signing_key (with_identity payload snapshot_id digest)
    ok (snapshot_id, digest, document)

  unfoldable pub create_snapshot :
      Database
      → String
      → List SnapshotSelection
      → String
      → Option SigningKey
      → ℕ
      → Bool
      → Result (SnapshotRow × Database)
  create_snapshot db key selections created_by signing_key now accepted = do
    deployment ← get_deployment db key
    selected ← select_documents db [] selections
    let connectors = sort_documents selected
    let revision = last_revision deployment.snapshots + 1
    built ← build_snapshot_document deployment.deployment_key revision now connectors signing_key
    validate_deployment_snapshot builder.outside.schemas built.2
    guard accepted (tool_layer already_exists)
    let row : SnapshotRow = record {
      revision = revision;
      snapshot_id = built.0;
      document = built.2;
      snapshot_digest = built.1;
      connector_count = length connectors;
      active = true;
      created_at = now;
      created_by = created_by;
    }
    ok (
      row,
      with_deployment (with_snapshots (deactivate deployment.snapshots ++ row ∷ []) deployment) db,
    )
