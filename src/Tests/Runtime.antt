-- ===== src/Tests/Runtime.antt =====
-- The theorems on the runtime's snapshots, at a signed document that is fetched once.
use toollayer_ai.Base.{
  ℕ, ◌*◌, ◌-◌, ◌<◌, ◌≤◌, ◌≡◌, refl, ◌↔◌, ◌≢◌, ◌⊎◌, inl, inr, String, Option, none, some, List, [],
  ◌∷◌, Elem, arith,
}
use toollayer_ai.Json.{Json, obj, Fields}
use toollayer_ai.Contracts.Errors.{
  ErrorCode, snapshot_unavailable, tool_layer, value_error, ok, err,
}
use toollayer_ai.Contracts.Models.{ConnectorDefinition, ToolDefinition}
use toollayer_ai.Runtime.Snapshot.{
  BoundTool, Index, lookup, bind_tool, index_snapshot, LoadedSnapshot, load_snapshot_document,
}
use toollayer_ai.Runtime.Snapshot.Index.{ComesFrom, index_snapshot-lookup}
use toollayer_ai.Runtime.Snapshot.Loading.{IsVerified, load_snapshot_document-IsVerified}
use toollayer_ai.Runtime.Store.{
  Reply, unreachable, response, Network, SnapshotStore, new_store, nanoseconds, etag_of, fetch,
  refresh, ensure_fresh,
}
use toollayer_ai.Runtime.Store.Refresh.{Fails, refresh-Fails_iff, ensure_fresh_age}
use toollayer_ai.Runtime.Store.Reach.{WasVerified, refreshed, start, Reach-serves-WasVerified}
use toollayer_ai.Tests.World.{environment, verification, snapshot, signed_fields, loaded, bound}

document_loads :
    load_snapshot_document environment (obj signed_fields) (some "v1") verification 5 ≡ ok loaded
unfolding load_snapshot_document toollayer_ai.Runtime.Snapshot.load_object
    toollayer_ai.Runtime.Snapshot.validate_model toollayer_ai.Runtime.Snapshot.check_producer
    toollayer_ai.Runtime.Snapshot.check_connectors index_snapshot
    toollayer_ai.Runtime.Snapshot.index_connectors toollayer_ai.Runtime.Snapshot.index_tools lookup
    toollayer_ai.Contracts.Models.check_connector toollayer_ai.Contracts.Models.check_snapshot
    toollayer_ai.Base.distinct toollayer_ai.Contracts.CanonicalJson.verify_digest
    toollayer_ai.Contracts.CanonicalJson.content_digest
    toollayer_ai.Contracts.CanonicalJson.excluding toollayer_ai.Contracts.Signing.verify_document
    toollayer_ai.Contracts.Signing.verify_block toollayer_ai.Contracts.Signing.verify_message
    toollayer_ai.Contracts.Signing.find_key toollayer_ai.Contracts.Signing.b64u_decode
    toollayer_ai.Contracts.Signing.signing_input toollayer_ai.Json.without
    toollayer_ai.Contracts.CanonicalJson.canonical_json
    toollayer_ai.Contracts.CanonicalJson.serializable
    toollayer_ai.Contracts.Validation.validate_deployment_snapshot
    toollayer_ai.Contracts.Validation.require_contract_version
    toollayer_ai.Contracts.Validation.validate_connectors
    toollayer_ai.Contracts.Validation.validate_connector_definition
    toollayer_ai.Contracts.Validation.validate_tools
    toollayer_ai.Contracts.Validation.validate_tool_input_schema
    toollayer_ai.Contracts.Version.require_supported toollayer_ai.Contracts.Version.parse_version
    toollayer_ai.Contracts.Version.parse_text toollayer_ai.Contracts.Version.match_semver
    toollayer_ai.Contracts.Version.read_tail toollayer_ai.Base.read_number toollayer_ai.Base.digits
    toollayer_ai.Json.find toollayer_ai.Json.get toollayer_ai.Json.items toollayer_ai.Base.contains
document_loads = refl

load_snapshot_document-IsVerified_example :
    (fields : Fields) × (obj signed_fields ≡ obj fields)
    × IsVerified environment verification fields loaded
load_snapshot_document-IsVerified_example =
    load_snapshot_document-IsVerified environment verification (obj signed_fields) (some "v1") 5
      loaded document_loads

-- A control plane that serves the signed document.
abbrev pub serving : Network
serving tag = response 200 (some "v1") (some (obj signed_fields))

abbrev pub empty_store : SnapshotStore
empty_store = new_store 30

abbrev pub full_store : SnapshotStore
full_store = record { refresh_seconds = 30; current = some loaded }

pub first_refresh : refresh environment verification empty_store serving 5 ≡ (ok loaded, full_store)
unfolding refresh fetch toollayer_ai.Runtime.Store.settle toollayer_ai.Runtime.Store.read_reply
first_refresh = rw document_loads refl

Reach-serves-WasVerified_example : WasVerified environment verification loaded
Reach-serves-WasVerified_example =
    Reach-serves-WasVerified environment verification loaded (start 30)
      (refreshed serving 5 first_refresh)

-- A control plane that is down, and one that answers with a page of text.
abbrev pub down : Network
down tag = unreachable

abbrev proxy_page : Network
proxy_page tag = response 200 none none

down_fails :
    fetch environment verification down (some "v1") 9 ≡ err (tool_layer snapshot_unavailable)
unfolding fetch toollayer_ai.Runtime.Store.read_reply
down_fails = refl

page_fails : fetch environment verification proxy_page (some "v1") 9 ≡ err value_error
unfolding fetch toollayer_ai.Runtime.Store.read_reply
page_fails = refl

-- A page of a proxy, which is no JSON, makes the refresh of a store fail that holds a snapshot.
page_not_kept :
    refresh environment verification full_store proxy_page 9 ≡ (err value_error, full_store)
page_not_kept =
    (refresh-Fails_iff environment verification full_store full_store proxy_page 9 value_error).1
      (refl, inl (page_fails, inr refl))

refresh-Fails_iff_example :
    (refresh environment verification full_store proxy_page 9 ≡ (err value_error, full_store)) ↔ (
      (full_store ≡ full_store)
      × Fails full_store.current
          (fetch environment verification proxy_page (etag_of full_store.current) 9)
          value_error)
refresh-Fails_iff_example =
    refresh-Fails_iff environment verification full_store full_store proxy_page 9 value_error

abbrev later : ℕ
later = 60 * nanoseconds

serves_stale : ensure_fresh environment verification full_store down later ≡ (ok loaded, full_store)
unfolding ensure_fresh refresh fetch toollayer_ai.Runtime.Store.settle
    toollayer_ai.Runtime.Store.read_reply
serves_stale = refl

ensure_fresh_age_example :
    (later - loaded.loaded_at < 30 * nanoseconds)
    ⊎ ((code : ErrorCode) × (fetch environment verification down (etag_of (some loaded)) later
          ≡ err (tool_layer code))
        × (full_store.current ≡ some loaded)
        × (full_store ≡ full_store))
ensure_fresh_age_example =
    ensure_fresh_age environment verification full_store full_store down later loaded (omega arith)
      serves_stale

index_built : index_snapshot snapshot ≡ ok (("get_order", bound) ∷ [])
unfolding index_snapshot toollayer_ai.Runtime.Snapshot.index_connectors
    toollayer_ai.Runtime.Snapshot.index_tools lookup
index_built = refl

index_snapshot-lookup_example :
    ((c : ConnectorDefinition) (t : ToolDefinition)
      → Elem c snapshot.connectors
      → Elem t c.tools
      → lookup t.tool_name (("get_order", bound) ∷ []) ≡ some (bind_tool c t))
    × ((name : String) (b : BoundTool)
        → lookup name (("get_order", bound) ∷ []) ≡ some b
        → ComesFrom snapshot.connectors name b)
index_snapshot-lookup_example =
    index_snapshot-lookup snapshot (("get_order", bound) ∷ []) index_built
