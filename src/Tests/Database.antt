-- ===== src/Tests/Database.antt =====
-- The rows that the tests of the control plane share: a connector with a draft and a version, and a
-- deployment with a snapshot.
use toollayer_ai.Base.{true, none, some, [], ◌∷◌}
use toollayer_ai.Json.{end}
use toollayer_ai.ControlPlane.Rows.{
  Source, ConnectorDraft, PublishedVersion, Connector, SnapshotRow, Deployment, Database,
}
use toollayer_ai.ControlPlane.Publication.{Outside}
use toollayer_ai.ControlPlane.Deployments.{Builder}
use toollayer_ai.Tests.World.{crypto, schemas, connector, connector_fields}
use toollayer_ai.Tests.ControlPlane.{analysis, review}

abbrev pub source : Source
source = record {
  filename = "orders.yaml";
  digest = "sha256:s";
  byte_length = 120;
  format = "yaml";
  spec_version = "3.1.0";
}

abbrev pub draft : ConnectorDraft
draft = record {
  revision = 3;
  proposed_version = "1.1.0";
  base_url = some "https://orders.example";
  auth_profile_ref = none;
  source = source;
  analyzer_version = "1";
  analysis = analysis;
  review = review;
  created_at = 10;
  updated_at = 11;
}

abbrev pub first_release : PublishedVersion
first_release = record {
  version = "1.0.0";
  document = connector_fields;
  document_digest = "sha256:x";
  source_digest = "sha256:s";
  analyzer_version = "1";
  tool_count = 1;
  published_at = 5;
  published_by = "ada";
  disabled_at = none;
  disabled_reason = none;
}

abbrev pub orders : Connector
orders = record {
  connector_key = "orders";
  display_name = "Orders";
  summary = "Orders";
  created_at = 1;
  updated_at = 2;
  draft = some draft;
  versions = first_release ∷ [];
}

abbrev pub old_snapshot : SnapshotRow
old_snapshot = record {
  revision = 1;
  snapshot_id = "snap_1";
  document = end;
  snapshot_digest = "sha256:x";
  connector_count = 0;
  active = true;
  created_at = 6;
  created_by = "ada";
}

abbrev pub shop : Deployment
shop = record {
  deployment_key = "shop";
  display_name = "Shop";
  description = "";
  created_at = 4;
  snapshots = old_snapshot ∷ [];
}

abbrev pub database : Database
database = record { connectors = orders ∷ []; deployments = shop ∷ [] }

abbrev pub outside : Outside
outside = record {
  sha256_hex = λ text. "x";
  schemas = schemas;
  rfc3339 = λ now. "2026-08-06T00:00:00Z";
}

abbrev pub builder : Builder
builder = record {
  outside = outside;
  crypto = crypto;
  read_connector = λ document. some connector;
  isoformat = λ now. "2026-08-06T00:00:00Z";
}
