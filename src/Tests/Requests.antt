-- ===== src/Tests/Requests.antt =====
-- The invariant of the control plane's requests, at an empty database that gets a deployment and a connector.
use toollayer_ai.Base.{◌≡◌, refl, none, some, [], ◌∷◌}
use toollayer_ai.Contracts.Errors.{ok}
use toollayer_ai.ControlPlane.Review.{build_initial_review}
use toollayer_ai.ControlPlane.Rows.{ConnectorDraft, Connector, Deployment, Database, find_connector}
use toollayer_ai.ControlPlane.Drafts.{Analyzed, register_connector}
use toollayer_ai.ControlPlane.Deployments.{create_deployment}
use toollayer_ai.ControlPlane.Requests.{no_rows, register, deploy, Reachable, initial, after}
use toollayer_ai.ControlPlane.Requests.Invariant.{IsLawful, Reachable-IsLawful}
use toollayer_ai.Tests.ControlPlane.{analysis}
use toollayer_ai.Tests.Database.{source, builder}

abbrev empty_shop : Deployment
empty_shop = record {
  deployment_key = "shop";
  display_name = "Shop";
  description = "";
  created_at = 4;
  snapshots = [];
}

abbrev with_shop : Database
with_shop = record { connectors = []; deployments = empty_shop ∷ [] }

deployed : create_deployment no_rows "shop" "Shop" "" 4 ≡ ok (empty_shop, with_shop)
unfolding create_deployment toollayer_ai.ControlPlane.Rows.find_deployment
    toollayer_ai.ControlPlane.Rows.store_deployment
deployed = refl

abbrev analyzed : Analyzed
analyzed = record {
  source = source;
  api_title = "Orders";
  api_summary = "Orders of a shop";
  base_url = some "https://orders.example";
  analyzer_version = "1";
  analysis = analysis;
}

abbrev first_draft : ConnectorDraft
first_draft = record {
  revision = 1;
  proposed_version = "0.1.0";
  base_url = some "https://orders.example";
  auth_profile_ref = none;
  source = source;
  analyzer_version = "1";
  analysis = analysis;
  review = build_initial_review analysis;
  created_at = 9;
  updated_at = 9;
}

abbrev registered_orders : Connector
registered_orders = record {
  connector_key = "orders";
  display_name = "Orders";
  summary = "Orders of a shop";
  created_at = 9;
  updated_at = 9;
  draft = some first_draft;
  versions = [];
}

abbrev with_orders : Database
with_orders = record { connectors = registered_orders ∷ []; deployments = empty_shop ∷ [] }

registration :
    register_connector with_shop "orders" none none (ok analyzed) none none 9
    ≡ ok (first_draft, with_orders)
unfolding register_connector toollayer_ai.ControlPlane.Drafts.propose
    toollayer_ai.ControlPlane.Versions.next_version find_connector
    toollayer_ai.ControlPlane.Rows.store_connector
registration = refl

both : Reachable builder with_orders
both =
    after (after initial (deploy "shop" "Shop" "" 4 empty_shop deployed))
      (register "orders" none none (ok analyzed) none none 9 first_draft registration)

Reachable-IsLawful_example : IsLawful with_orders
Reachable-IsLawful_example = Reachable-IsLawful builder both
