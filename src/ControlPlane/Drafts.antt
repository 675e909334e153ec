-- ===== src/ControlPlane/Drafts.antt =====
-- service.py: connectors and drafts. An exception rolls the request's transaction back
-- (`session_scope` of db.py), so an error leaves the database as it was. Requests run one after another.
pub mod Edits
use toollayer_ai.Base.{
  ℕ, suc, ◌+◌, String, Bool, true, false, not, ◌&&◌, Option, none, some, List, [], ◌∷◌, ◌++◌, map,
  ltb, eqb, ◌==◌, ◌≡◌, refl, arith, if◌then◌else◌,
}
use toollayer_ai.Json.{Fields}
use toollayer_ai.Contracts.Errors.{
  Failure, tool_layer, not_found, revision_conflict, immutable_version, Result, ok, err, ◌>>=◌,
  ◌>>◌, guard,
}
use toollayer_ai.Contracts.Version.{ContractVersion, parse_text}
use toollayer_ai.ControlPlane.Review.{
  ReviewState, ReviewUpdate, Analysis, build_initial_review, apply_updates, or_else,
}
use toollayer_ai.ControlPlane.Rows.{
  Source, ConnectorDraft, PublishedVersion, Connector, Database, is_disabled, find_connector,
  store_connector, find_version,
}
use toollayer_ai.ControlPlane.Publication.{BuiltConnector, Outside, build_connector_document}
use toollayer_ai.ControlPlane.Versions.{reject_version_regression, next_version}

-- What `load_document` and `analyze_document` give for an uploaded document.
pub record Analyzed : Type 0 where
  pub source : Source
  pub api_title : String
  pub api_summary : String
  pub base_url : Option String
  pub analyzer_version : String
  pub analysis : Analysis

abbrev pub missing : Failure
missing = tool_layer not_found

abbrev pub or_missing {ℓ} : {A : Type ℓ} → Option A → Result A
or_missing none = err missing
or_missing (some a) = ok a

pub or_missing-eq-ok {ℓ} : {A : Type ℓ} (o : Option A) (a : A) → or_missing o ≡ ok a → o ≡ some a
or_missing-eq-ok none a h = cc h
or_missing-eq-ok (some b) a h = let e : b ≡ a = ground arith in rw e refl

-- `text or default`
abbrev pub or_default : Option String → String → String
or_default none default = default
or_default (some s) default = if s == "" then default else s

abbrev pub version_texts : List PublishedVersion → List String
version_texts = map (λ row. row.version)

unfoldable pub get_connector : Database → String → Result Connector
get_connector db key = or_missing (find_connector key db.connectors)

unfoldable pub get_draft : Connector → Result ConnectorDraft
get_draft connector = or_missing connector.draft

abbrev pub with_connector : Connector → Database → Database
with_connector connector db = record {
  connectors = store_connector connector db.connectors;
  deployments = db.deployments;
}

abbrev pub with_draft : Option ConnectorDraft → Connector → Connector
with_draft draft c = record {
  connector_key = c.connector_key;
  display_name = c.display_name;
  summary = c.summary;
  created_at = c.created_at;
  updated_at = c.updated_at;
  draft = draft;
  versions = c.versions;
}

abbrev pub with_versions : List PublishedVersion → Connector → Connector
with_versions versions c = record {
  connector_key = c.connector_key;
  display_name = c.display_name;
  summary = c.summary;
  created_at = c.created_at;
  updated_at = c.updated_at;
  draft = c.draft;
  versions = versions;
}

-- The connector of a registration: a new row, or the old one with what the caller names.
abbrev pub registered :
    Option Connector → String → Option String → Option String → Analyzed → ℕ → Connector
registered none key display_name summary analyzed now = record {
  connector_key = key;
  display_name = or_default display_name analyzed.api_title;
  summary = or_default summary analyzed.api_summary;
  created_at = now;
  updated_at = now;
  draft = none;
  versions = [];
}
registered (some c) key display_name summary analyzed now = record {
  connector_key = c.connector_key;
  display_name = or_default display_name c.display_name;
  summary = or_default summary c.summary;
  created_at = c.created_at;
  updated_at = now;
  draft = c.draft;
  versions = c.versions;
}

-- The proposed version: the caller's, once it is checked, or the next one.
unfoldable pub propose : List String → Option String → Result String
propose published none = next_version published
propose published (some version) = reject_version_regression published version >> ok version

unfoldable pub register_connector :
    Database
    → String
    → Option String
    → Option String
    → Result Analyzed
    → Option String
    → Option String
    → ℕ
    → Result (ConnectorDraft × Database)
register_connector db key display_name summary analysed proposed_version auth_profile_ref now = do
  analyzed ← analysed
  let connector =
      registered (find_connector key db.connectors) key display_name summary analyzed now
  proposed ← propose (version_texts connector.versions) proposed_version
  let draft : ConnectorDraft = record {
    revision = 1;
    proposed_version = proposed;
    base_url = analyzed.base_url;
    auth_profile_ref = auth_profile_ref;
    source = analyzed.source;
    analyzer_version = analyzed.analyzer_version;
    analysis = analyzed.analysis;
    review = build_initial_review analyzed.analysis;
    created_at = now;
    updated_at = now;
  }
  ok (draft, with_connector (with_draft (some draft) connector) db)

abbrev pub conflict : Failure
conflict = tool_layer revision_conflict

-- The version that a review update proposes.
unfoldable pub revise_version : List String → Option String → String → Result String
revise_version published none old = ok old
revise_version published (some version) old =
    reject_version_regression published version >> ok version

-- `draft.base_url = base_url` where one is given
abbrev pub or_kept : Option String → Option String → Option String
or_kept none old = old
or_kept (some s) old = some s

-- `auth_profile_ref or None`, where one is given
abbrev pub or_cleared : Option String → Option String → Option String
or_cleared none old = old
or_cleared (some s) old = if s == "" then none else some s

unfoldable pub update_review :
    Database
    → String
    → ℕ
    → List ReviewUpdate
    → Option String
    → Option String
    → Option String
    → ℕ
    → Result (ConnectorDraft × Database)
update_review db key expected_revision updates proposed_version base_url auth_profile_ref now = do
  connector ← get_connector db key
  draft ← get_draft connector
  guard (eqb expected_revision draft.revision) conflict
  review ← apply_updates draft.review updates
  proposed ←
      revise_version (version_texts connector.versions) proposed_version draft.proposed_version
  let edited : ConnectorDraft = record {
    revision = draft.revision + 1;
    proposed_version = proposed;
    base_url = or_kept base_url draft.base_url;
    auth_profile_ref = or_cleared auth_profile_ref draft.auth_profile_ref;
    source = draft.source;
    analyzer_version = draft.analyzer_version;
    analysis = draft.analysis;
    review = review;
    created_at = draft.created_at;
    updated_at = now;
  }
  ok (edited, with_connector (with_draft (some edited) connector) db)
