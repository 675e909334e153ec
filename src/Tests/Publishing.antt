-- ===== src/Tests/Publishing.antt =====
-- The theorems on versions, drafts and publication, at one connector.
use toollayer_ai.Base.{
  ℕ, ◌+◌, ◌≡◌, refl, ◌↔◌, String, true, false, Option, none, some, List, [], ◌∷◌, ◌++◌, map, All,
}
use toollayer_ai.Json.{Json, null, bool, str, obj, arr, pos, int, nil, cons, Fields, end, field}
use toollayer_ai.Contracts.Errors.{ok, err}
use toollayer_ai.Contracts.Version.{ContractVersion, parse_text, compare_precedence}
use toollayer_ai.Contracts.CanonicalJson.{verify_digest, snapshot_digest_excluded}
use toollayer_ai.Contracts.Validation.{validate_deployment_snapshot}
use toollayer_ai.ControlPlane.Review.{ReviewUpdate, reviewed_keys}
use toollayer_ai.ControlPlane.Review.Invariant.{IsReviewed}
use toollayer_ai.ControlPlane.Rows.{
  Source, ConnectorDraft, PublishedVersion, Connector, SnapshotRow, Deployment, Database,
  is_disabled, find_connector, find_deployment,
}
use toollayer_ai.ControlPlane.Publication.{Outside, connector_document}
use toollayer_ai.ControlPlane.Versions.{reject_version_regression, next_version}
use toollayer_ai.ControlPlane.Versions.Increase.{reject_version_regression-next_version}
use toollayer_ai.ControlPlane.Drafts.{version_texts, conflict, update_review}
use toollayer_ai.ControlPlane.Drafts.Edits.{update_review_lem, update_review-conflict}
use toollayer_ai.ControlPlane.Releases.{publish_draft, disable_version}
use toollayer_ai.ControlPlane.Releases.Sequence.{IsIncreasing, publish_draft-IsIncreasing}
use toollayer_ai.Tests.World.{connector_fields}
use toollayer_ai.Tests.ControlPlane.{analysis, destructive_entry, make_destructive, updates_apply}
use toollayer_ai.Tests.Database.{source, draft, first_release, orders, shop, database, outside}

next_of_two : next_version ("1.0.0" ∷ "1.1.0" ∷ []) ≡ ok "1.2.0"
unfolding next_version toollayer_ai.ControlPlane.Versions.highest_from
    toollayer_ai.ControlPlane.Versions.tuple_after parse_text
    toollayer_ai.Contracts.Version.match_semver toollayer_ai.Contracts.Version.read_tail
    toollayer_ai.Base.read_number toollayer_ai.Base.digits toollayer_ai.Base.show
next_of_two = refl

reject_version_regression-next_version_example :
    reject_version_regression ("1.0.0" ∷ "1.1.0" ∷ []) "1.2.0" ≡ ok tt
reject_version_regression-next_version_example =
    reject_version_regression-next_version ("1.0.0" ∷ "1.1.0" ∷ []) "1.2.0" next_of_two

found_orders : find_connector "orders" database.connectors ≡ some orders
unfolding find_connector
found_orders = refl

abbrev edited_draft : ConnectorDraft
edited_draft = record {
  revision = 4;
  proposed_version = "1.1.0";
  base_url = some "https://orders.example";
  auth_profile_ref = none;
  source = source;
  analyzer_version = "1";
  analysis = analysis;
  review = destructive_entry ∷ [];
  created_at = 10;
  updated_at = 12;
}

abbrev edited_orders : Connector
edited_orders = record {
  connector_key = "orders";
  display_name = "Orders";
  summary = "Orders";
  created_at = 1;
  updated_at = 2;
  draft = some edited_draft;
  versions = first_release ∷ [];
}

abbrev edited_database : Database
edited_database = record { connectors = edited_orders ∷ []; deployments = shop ∷ [] }

edit :
    update_review database "orders" 3 (make_destructive ∷ []) none none none 12
    ≡ ok (edited_draft, edited_database)
unfolding update_review toollayer_ai.ControlPlane.Drafts.get_connector
    toollayer_ai.ControlPlane.Drafts.get_draft toollayer_ai.ControlPlane.Drafts.revise_version
    find_connector toollayer_ai.ControlPlane.Rows.store_connector
edit = rw updates_apply refl

update_review_lem_example :
    (c : Connector) × (old : ConnectorDraft) × (c' : Connector) × (find_connector "orders"
        database.connectors
      ≡ some c)
    × (c.draft ≡ some old)
    × (old.revision ≡ 3)
    × (find_connector "orders" edited_database.connectors ≡ some c')
    × (c'.draft ≡ some edited_draft)
    × (edited_draft.revision ≡ 3 + 1)
    × (c'.versions ≡ c.versions)
    × (reviewed_keys edited_draft.review ≡ reviewed_keys old.review)
    × (All IsReviewed old.review → All IsReviewed edited_draft.review)
update_review_lem_example =
    update_review_lem database edited_database "orders" 3 (make_destructive ∷ []) none none none 12
      edited_draft edit

update_review-conflict_example :
    update_review edited_database "orders" 3 [] none none none 13 ≡ err conflict
update_review-conflict_example =
    update_review-conflict database edited_database "orders" 3 (make_destructive ∷ []) [] none none
      none none none none 12 13 edited_draft edit

abbrev access_fields : Json
access_fields = obj (field "access_mode" (str "public") (field "allowed_roles" (arr nil) end))

abbrev published_tool : Fields
published_tool = field "tool_name" (str "get_order") (
    field "description" (str "Read one order.") (
      field "input_schema" (obj end) (
        field "provenance" (obj (field "description_origin" (str "source") end)) (
          field "policy"
            (obj (
              field "effect_class" (str "read")
                (field "requires_confirmation" (bool false) (field "access" access_fields end))))
            end))))

abbrev second_release : PublishedVersion
second_release = record {
  version = "1.1.0";
  document =
      connector_document outside orders "1.1.0" draft "https://orders.example" (published_tool ∷ [])
        20;
  document_digest = "sha256:x";
  source_digest = "sha256:s";
  analyzer_version = "1";
  tool_count = 1;
  published_at = 20;
  published_by = "ada";
  disabled_at = none;
  disabled_reason = none;
}

abbrev released : Connector
released = record {
  connector_key = "orders";
  display_name = "Orders";
  summary = "Orders";
  created_at = 1;
  updated_at = 2;
  draft = none;
  versions = first_release ∷ second_release ∷ [];
}

abbrev released_database : Database
released_database = record { connectors = released ∷ []; deployments = shop ∷ [] }

publication :
    publish_draft outside database "orders" 3 "ada" none 20 true
    ≡ ok (second_release, released_database)
unfolding publish_draft toollayer_ai.ControlPlane.Drafts.get_connector
    toollayer_ai.ControlPlane.Drafts.get_draft find_connector
    toollayer_ai.ControlPlane.Rows.store_connector toollayer_ai.ControlPlane.Rows.find_version
    reject_version_regression toollayer_ai.ControlPlane.Versions.reject_candidate compare_precedence
    parse_text toollayer_ai.Contracts.Version.match_semver toollayer_ai.Contracts.Version.read_tail
    toollayer_ai.Base.read_number toollayer_ai.Base.digits
    toollayer_ai.ControlPlane.Publication.build_connector_document
    toollayer_ai.ControlPlane.Publication.connector_document
    toollayer_ai.ControlPlane.Publication.reviewed_tools
    toollayer_ai.ControlPlane.Publication.reviewed_tool
    toollayer_ai.ControlPlane.Publication.access_policy
    toollayer_ai.ControlPlane.Publication.find_analyzed
    toollayer_ai.ControlPlane.Publication.names_of toollayer_ai.ControlPlane.Review.review_readiness
    toollayer_ai.ControlPlane.Review.included toollayer_ai.ControlPlane.Review.analyzed_keys
    toollayer_ai.ControlPlane.Review.subset toollayer_ai.ControlPlane.Review.entry_issues
    toollayer_ai.ControlPlane.Review.all_entry_issues toollayer_ai.Base.select
    toollayer_ai.Base.contains toollayer_ai.Base.distinct
    toollayer_ai.Contracts.Models.make_access_policy toollayer_ai.Contracts.Models.sorted
    toollayer_ai.Contracts.Models.all_keys
    toollayer_ai.Contracts.Validation.validate_connector_definition
    toollayer_ai.Contracts.Validation.require_contract_version
    toollayer_ai.Contracts.Validation.validate_tools
    toollayer_ai.Contracts.Validation.validate_tool_input_schema
    toollayer_ai.Contracts.Version.require_supported toollayer_ai.Contracts.Version.parse_version
    toollayer_ai.Contracts.CanonicalJson.content_digest
    toollayer_ai.Contracts.CanonicalJson.excluding
    toollayer_ai.Contracts.CanonicalJson.canonical_json
    toollayer_ai.Contracts.CanonicalJson.serializable toollayer_ai.Json.find toollayer_ai.Json.get
    toollayer_ai.Json.put toollayer_ai.Json.items toollayer_ai.Json.to_items
publication = refl

one_version : IsIncreasing (version_texts orders.versions)
one_version = (tt, tt)

publish_draft-IsIncreasing_example :
    (taken : ConnectorDraft) × (c' : Connector) × (orders.draft ≡ some taken)
    × (taken.revision ≡ 3)
    × (find_connector "orders" released_database.connectors ≡ some c')
    × (c'.draft ≡ none)
    × (c'.versions ≡ orders.versions ++ second_release ∷ [])
    × IsIncreasing (version_texts c'.versions)
publish_draft-IsIncreasing_example =
    publish_draft-IsIncreasing outside database released_database "orders" 3 "ada" none 20 true
      second_release orders found_orders one_version publication

abbrev disabled_release : PublishedVersion
disabled_release = record {
  version = "1.0.0";
  document = connector_fields;
  document_digest = "sha256:x";
  source_digest = "sha256:s";
  analyzer_version = "1";
  tool_count = 1;
  published_at = 5;
  published_by = "ada";
  disabled_at = some 30;
  disabled_reason = some "leak";
}

abbrev disabled_orders : Connector
disabled_orders = record {
  connector_key = "orders";
  display_name = "Orders";
  summary = "Orders";
  created_at = 1;
  updated_at = 2;
  draft = some draft;
  versions = disabled_release ∷ [];
}

abbrev disabled_database : Database
disabled_database = record { connectors = disabled_orders ∷ []; deployments = shop ∷ [] }

disablement :
    disable_version database "orders" "1.0.0" "leak" 30 ≡ ok (disabled_release, disabled_database)
unfolding disable_version toollayer_ai.ControlPlane.Drafts.get_connector find_connector
    toollayer_ai.ControlPlane.Rows.store_connector toollayer_ai.ControlPlane.Rows.find_version
    toollayer_ai.ControlPlane.Releases.replace_version
disablement = refl
