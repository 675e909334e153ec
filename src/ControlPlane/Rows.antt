-- ===== src/ControlPlane/Rows.antt =====
-- models.py of the control plane: the rows, each with the rows that refer to it, in place of the
-- numeric ids and foreign keys. A stored JSON value is kept as the value it was written from; the
-- times are numbers. The rows keep the order of their ids.
use toollayer_ai.Base.{
  ℕ, String, Bool, true, false, Option, none, some, List, [], ◌∷◌, ◌==◌, if◌then◌else◌, ◌≡◌, refl,
  inl, inr, arith, eq_iff, eq_refl, Bool-cases,
}
use toollayer_ai.Json.{Fields}
use toollayer_ai.ControlPlane.Review.{Analysis, ReviewState}

-- The columns of a draft that describe its source document; the uploaded bytes are left out.
pub record Source : Type 0 where
  pub filename : String
  pub digest : String
  pub byte_length : ℕ
  pub format : String
  pub spec_version : String

pub record ConnectorDraft : Type 0 where
  pub revision : ℕ
  pub proposed_version : String
  pub base_url : Option String
  pub auth_profile_ref : Option String
  pub source : Source
  pub analyzer_version : String
  pub analysis : Analysis
  pub review : ReviewState
  pub created_at : ℕ
  pub updated_at : ℕ

pub record PublishedVersion : Type 0 where
  pub version : String
  pub document : Fields
  pub document_digest : String
  pub source_digest : String
  pub analyzer_version : String
  pub tool_count : ℕ
  pub published_at : ℕ
  pub published_by : String
  pub disabled_at : Option ℕ
  pub disabled_reason : Option String

pub record Connector : Type 0 where
  pub connector_key : String
  pub display_name : String
  pub summary : String
  pub created_at : ℕ
  pub updated_at : ℕ
  pub draft : Option ConnectorDraft
  pub versions : List PublishedVersion

pub record SnapshotRow : Type 0 where
  pub revision : ℕ
  pub snapshot_id : String
  pub document : Fields
  pub snapshot_digest : String
  pub connector_count : ℕ
  pub active : Bool
  pub created_at : ℕ
  pub created_by : String

pub record Deployment : Type 0 where
  pub deployment_key : String
  pub display_name : String
  pub description : String
  pub created_at : ℕ
  pub snapshots : List SnapshotRow

pub record Database : Type 0 where
  pub connectors : List Connector
  pub deployments : List Deployment

-- `PublishedVersion.disabled`
abbrev pub is_disabled : PublishedVersion → Bool
is_disabled row = elim row.disabled_at [ none ↦ false | some _ ↦ true ]

unfoldable pub find_connector : String → List Connector → Option Connector
find_connector key [] = none
find_connector key (c ∷ cs) = if c.connector_key == key then some c else find_connector key cs

-- The row with the connector's key, which is unique, takes the new values.
unfoldable pub store_connector : Connector → List Connector → List Connector
store_connector new [] = new ∷ []
store_connector new (c ∷ cs) =
    if c.connector_key == new.connector_key then new ∷ cs else c ∷ store_connector new cs

unfoldable pub find_version : String → List PublishedVersion → Option PublishedVersion
find_version version [] = none
find_version version (row ∷ rows) =
    if row.version == version then some row else find_version version rows

unfoldable pub find_deployment : String → List Deployment → Option Deployment
find_deployment key [] = none
find_deployment key (d ∷ ds) = if d.deployment_key == key then some d else find_deployment key ds

unfoldable pub store_deployment : Deployment → List Deployment → List Deployment
store_deployment new [] = new ∷ []
store_deployment new (d ∷ ds) =
    if d.deployment_key == new.deployment_key then new ∷ ds else d ∷ store_deployment new ds

pub find_connector_key :
    (key : String) (cs : List Connector) (c : Connector)
    → find_connector key cs ≡ some c
    → c.connector_key ≡ key
unfolding find_connector
find_connector_key key [] c h = cc h
find_connector_key key (x ∷ xs) c h = elim (Bool-cases (x.connector_key == key)) [
  | inl same ↦ let e : x ≡ c = ground arith in rw (← e) ((eq_iff x.connector_key key).0 same)
  | inr other ↦ find_connector_key key xs c (rw other at h)
]

pub find_connector-store_connector :
    (new : Connector) (cs : List Connector)
    → find_connector new.connector_key (store_connector new cs) ≡ some new
unfolding find_connector store_connector
find_connector-store_connector new [] = rw (eq_refl new.connector_key) refl
find_connector-store_connector new (c ∷ cs) =
    elim (Bool-cases (c.connector_key == new.connector_key)) [
      | inl same ↦ rw same (rw (eq_refl new.connector_key) refl)
      | inr other ↦ rw other (rw other (find_connector-store_connector new cs))
    ]
