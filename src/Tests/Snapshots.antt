-- ===== src/Tests/Snapshots.antt =====
-- The theorems on the snapshots of a deployment, at one deployment with an older snapshot.
use toollayer_ai.Base.{
  ℕ, ◌+◌, ◌≡◌, refl, ◌↔◌, String, true, false, Option, none, some, List, [], ◌∷◌, ◌++◌, map, All,
}
use toollayer_ai.Json.{
  Json, null, bool, str, obj, arr, pos, int, nil, cons, Fields, end, field, get,
}
use toollayer_ai.Contracts.Errors.{ok}
use toollayer_ai.Contracts.Version.{ContractVersion, parse_text, compare_precedence}
use toollayer_ai.Contracts.CanonicalJson.{verify_digest, snapshot_digest_excluded}
use toollayer_ai.Contracts.Validation.{validate_deployment_snapshot}
use toollayer_ai.Runtime.Snapshot.{declared_digest}
use toollayer_ai.ControlPlane.Rows.{
  Source, ConnectorDraft, PublishedVersion, Connector, SnapshotRow, Deployment, Database,
  is_disabled, find_connector, find_deployment,
}
use toollayer_ai.ControlPlane.Drafts.{version_texts, conflict, update_review}
use toollayer_ai.ControlPlane.Releases.{publish_draft, disable_version}
use toollayer_ai.ControlPlane.Deployments.{
  SnapshotSelection, Builder, last_revision, select_documents, build_snapshot_document,
  create_snapshot, get_active_snapshot,
}
use toollayer_ai.ControlPlane.Deployments.Active.{IsHistory, content, create_snapshot-IsHistory}
use toollayer_ai.ControlPlane.Deployments.Verifies.{Declares, create_snapshot_verifies}
use toollayer_ai.Tests.World.{schemas, signer, connector_fields, signature_block}
use toollayer_ai.Contracts.Signing.{verify_document}
use toollayer_ai.ControlPlane.Deployments.Authentic.{build_snapshot_document-verify_document}
use toollayer_ai.Tests.Contracts.{signer-ReadsBack, signer_named, signer_trusted}
use toollayer_ai.Tests.World.{crypto, ring}
use toollayer_ai.Tests.Database.{orders, shop, database, builder}

abbrev snapshot_fields : Fields
snapshot_fields = field "contract_version" (str "1.1.0") (
    field "deployment_key" (str "shop") (
      field "revision" (int (pos 2)) (
        field "created_at" (str "2026-08-06T00:00:00Z") (
          field "connectors" (arr (cons (obj connector_fields) nil)) (
            field "snapshot_id" (str "snap_x") (
              field "snapshot_digest" (str "sha256:x") (field "signature" signature_block end)))))))

build :
    build_snapshot_document builder "shop" 2 40 (connector_fields ∷ []) (some signer)
    ≡ ok ("snap_x", "sha256:x", snapshot_fields)
unfolding build_snapshot_document toollayer_ai.ControlPlane.Deployments.snapshot_payload
    toollayer_ai.ControlPlane.Deployments.add_signature toollayer_ai.Contracts.Signing.sign_document
    toollayer_ai.Contracts.Signing.signing_input toollayer_ai.Contracts.Signing.b64u_encode
    toollayer_ai.Contracts.Signing.strip_padding toollayer_ai.Json.without toollayer_ai.Json.put
    toollayer_ai.Json.to_items toollayer_ai.Contracts.CanonicalJson.content_digest
    toollayer_ai.Contracts.CanonicalJson.excluding
    toollayer_ai.Contracts.CanonicalJson.canonical_json
    toollayer_ai.Contracts.CanonicalJson.serializable toollayer_ai.Base.contains
build = refl

abbrev new_snapshot : SnapshotRow
new_snapshot = record {
  revision = 2;
  snapshot_id = "snap_x";
  document = snapshot_fields;
  snapshot_digest = "sha256:x";
  connector_count = 1;
  active = true;
  created_at = 40;
  created_by = "ada";
}

abbrev superseded : SnapshotRow
superseded = record {
  revision = 1;
  snapshot_id = "snap_1";
  document = end;
  snapshot_digest = "sha256:x";
  connector_count = 0;
  active = false;
  created_at = 6;
  created_by = "ada";
}

abbrev served_shop : Deployment
served_shop = record {
  deployment_key = "shop";
  display_name = "Shop";
  description = "";
  created_at = 4;
  snapshots = superseded ∷ new_snapshot ∷ [];
}

abbrev served_database : Database
served_database = record { connectors = orders ∷ []; deployments = served_shop ∷ [] }

abbrev selections : List SnapshotSelection
selections = record { connector_key = "orders"; version = "1.0.0" } ∷ []

selected : select_documents builder database [] selections ≡ ok (connector_fields ∷ [])
unfolding select_documents toollayer_ai.ControlPlane.Releases.get_version
    toollayer_ai.ControlPlane.Drafts.get_connector find_connector
    toollayer_ai.ControlPlane.Rows.find_version
    toollayer_ai.ControlPlane.Deployments.validate_document
    toollayer_ai.Contracts.Models.check_connector toollayer_ai.Base.distinct
    toollayer_ai.Base.contains
selected = refl

snapshot_valid : validate_deployment_snapshot schemas snapshot_fields ≡ ok tt
unfolding validate_deployment_snapshot toollayer_ai.Contracts.Validation.require_contract_version
    toollayer_ai.Contracts.Validation.validate_connectors
    toollayer_ai.Contracts.Validation.validate_connector_definition
    toollayer_ai.Contracts.Validation.validate_tools
    toollayer_ai.Contracts.Validation.validate_tool_input_schema
    toollayer_ai.Contracts.Version.require_supported toollayer_ai.Contracts.Version.parse_version
    parse_text toollayer_ai.Contracts.Version.match_semver toollayer_ai.Contracts.Version.read_tail
    toollayer_ai.Base.read_number toollayer_ai.Base.digits toollayer_ai.Json.find
    toollayer_ai.Json.get toollayer_ai.Json.items toollayer_ai.Base.contains
snapshot_valid = refl

creation :
    create_snapshot builder database "shop" selections "ada" (some signer) 40 true
    ≡ ok (new_snapshot, served_database)
unfolding create_snapshot toollayer_ai.ControlPlane.Deployments.get_deployment find_deployment
    toollayer_ai.ControlPlane.Rows.store_deployment
    toollayer_ai.ControlPlane.Deployments.sort_documents
    toollayer_ai.ControlPlane.Deployments.insert_document last_revision
creation = rw selected (rw build (rw snapshot_valid refl))

create_snapshot_verifies_example :
    Declares "snap_x" "sha256:x" snapshot_fields
    × (verify_digest builder.outside.sha256_hex snapshot_digest_excluded snapshot_fields
          (declared_digest (get "snapshot_digest" snapshot_fields))
        ≡ true)
create_snapshot_verifies_example =
    create_snapshot_verifies builder database served_database "shop" "ada" selections (some signer)
      40 true new_snapshot creation

found_shop : find_deployment "shop" database.deployments ≡ some shop
unfolding find_deployment
found_shop = refl

create_snapshot-IsHistory_example :
    (d' : Deployment) × (find_deployment "shop" served_database.deployments ≡ some d')
    × IsHistory d'.snapshots
    × (new_snapshot.revision ≡ last_revision shop.snapshots + 1)
    × (map content d'.snapshots ≡ map content shop.snapshots ++ content new_snapshot ∷ [])
create_snapshot-IsHistory_example =
    create_snapshot-IsHistory builder database served_database "shop" "ada" selections (some signer)
      40 true new_snapshot shop found_shop refl creation

build_snapshot_document-verify_document_example :
    verify_document crypto snapshot_fields ring ≡ ok "cp-1"
build_snapshot_document-verify_document_example =
    build_snapshot_document-verify_document builder signer ring "shop" 2 40 (connector_fields ∷ [])
      "snap_x" "sha256:x" snapshot_fields signer-ReadsBack signer_named signer_trusted build
