-- ===== src/ControlPlane/Releases.antt =====
-- service.py: the published versions. Requests run one after another, but `accepted` says whether the
-- database takes the rows of a flush that catches `IntegrityError`.
pub mod Sequence
pub mod Content
use Prim.Native.String.{slice}
use toollayer_ai.Base.{
  ℕ, suc, ◌+◌, String, Bool, true, false, not, Option, none, some, List, [], ◌∷◌, ◌++◌, map, eqb,
  ◌==◌, if◌then◌else◌,
}
use toollayer_ai.Contracts.Errors.{
  Failure, tool_layer, immutable_version, Result, ok, err, ◌>>=◌, ◌>>◌, guard,
}
use toollayer_ai.ControlPlane.Rows.{
  Source, ConnectorDraft, PublishedVersion, Connector, Database, is_disabled, find_connector,
  store_connector, find_version,
}
use toollayer_ai.ControlPlane.Publication.{BuiltConnector, Outside, build_connector_document}
use toollayer_ai.ControlPlane.Versions.{reject_version_regression}
use toollayer_ai.ControlPlane.Drafts.{
  or_missing, or_default, version_texts, get_connector, get_draft, with_connector, with_draft,
  with_versions, conflict,
}

abbrev immutable : Failure
immutable = tool_layer immutable_version

abbrev is_new : Option PublishedVersion → Bool
is_new none = true
is_new (some row) = false

abbrev published_row : String → ConnectorDraft → BuiltConnector → ℕ → String → PublishedVersion
published_row version draft built now published_by = record {
  version = version;
  document = built.document;
  document_digest = built.digest;
  source_digest = draft.source.digest;
  analyzer_version = draft.analyzer_version;
  tool_count = built.tool_count;
  published_at = now;
  published_by = published_by;
  disabled_at = none;
  disabled_reason = none;
}

unfoldable pub get_version : Database → String → String → Result PublishedVersion
get_version db key version = do
  connector ← get_connector db key
  or_missing (find_version version connector.versions)

abbrev disable_row : ℕ → String → PublishedVersion → PublishedVersion
disable_row now reason row = record {
  version = row.version;
  document = row.document;
  document_digest = row.document_digest;
  source_digest = row.source_digest;
  analyzer_version = row.analyzer_version;
  tool_count = row.tool_count;
  published_at = row.published_at;
  published_by = row.published_by;
  disabled_at = some now;
  disabled_reason = some (slice reason 0 512);
}

-- The row of a version, which is unique among the connector's, takes the new values.
unfoldable pub replace_version : PublishedVersion → List PublishedVersion → List PublishedVersion
replace_version new [] = []
replace_version new (row ∷ rows) =
    if row.version == new.version then new ∷ rows else row ∷ replace_version new rows

-- A row that is disabled already is stored as it is.
unfoldable pub disable_version :
    Database → String → String → String → ℕ → Result (PublishedVersion × Database)
disable_version db key version reason now = do
  connector ← get_connector db key
  row ← or_missing (find_version version connector.versions)
  let disabled = if is_disabled row then row else disable_row now reason row
  ok (
    disabled,
    with_connector (with_versions (replace_version disabled connector.versions) connector) db,
  )

module _ (outside : Outside) where
  unfoldable pub publish_draft :
      Database
      → String
      → ℕ
      → String
      → Option String
      → ℕ
      → Bool
      → Result (PublishedVersion × Database)
  publish_draft db key expected_revision published_by version now accepted = do
    connector ← get_connector db key
    draft ← get_draft connector
    guard (eqb expected_revision draft.revision) conflict
    let target = or_default version draft.proposed_version
    reject_version_regression (version_texts connector.versions) target
    guard (is_new (find_version target connector.versions)) immutable
    built ← build_connector_document outside connector target draft now
    guard accepted immutable
    let row = published_row target draft built now published_by
    ok (
      row,
      with_connector (with_draft none (with_versions (connector.versions ++ row ∷ []) connector))
          db,
    )
