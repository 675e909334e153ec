-- ===== src/ControlPlane/Requests.antt =====
-- service.py: the requests that change the database, and the databases that sequences of them lead to.
-- A request that fails changes nothing and is no step.
pub mod Lookups
pub mod Invariant
use toollayer_ai.Base.{ℕ, ◌≡◌, String, Bool, Option, List, []}
use toollayer_ai.Contracts.Errors.{Result, ok}
use toollayer_ai.Contracts.Signing.{SigningKey}
use toollayer_ai.ControlPlane.Review.{ReviewUpdate}
use toollayer_ai.ControlPlane.Rows.{
  ConnectorDraft, PublishedVersion, SnapshotRow, Deployment, Database,
}
use toollayer_ai.ControlPlane.Drafts.{Analyzed, register_connector, update_review}
use toollayer_ai.ControlPlane.Releases.{publish_draft, disable_version}
use toollayer_ai.ControlPlane.Deployments.{
  SnapshotSelection, Builder, create_deployment, create_snapshot,
}

-- A database before any request.
abbrev pub no_rows : Database
no_rows = record { connectors = []; deployments = [] }

module _ (builder : Builder) where
  pub data Request (db next : Database) : Type 0 where
    register :
        (key : String) (display_name summary : Option String) (analysed : Result Analyzed)
        (version profile : Option String) (now : ℕ) (draft : ConnectorDraft)
        → register_connector db key display_name summary analysed version profile now
          ≡ ok (draft, next)
        → Request db next
    edit :
        (key : String) (expected : ℕ) (updates : List ReviewUpdate)
        (version url profile : Option String) (now : ℕ) (draft : ConnectorDraft)
        → update_review db key expected updates version url profile now ≡ ok (draft, next)
        → Request db next
    publish :
        (key : String) (expected : ℕ) (by : String) (version : Option String) (now : ℕ)
        (accepted : Bool) (row : PublishedVersion)
        → publish_draft builder.outside db key expected by version now accepted ≡ ok (row, next)
        → Request db next
    disable :
        (key version reason : String) (now : ℕ) (row : PublishedVersion)
        → disable_version db key version reason now ≡ ok (row, next)
        → Request db next
    deploy :
        (key display_name description : String) (now : ℕ) (deployment : Deployment)
        → create_deployment db key display_name description now ≡ ok (deployment, next)
        → Request db next
    pin :
        (key by : String) (selections : List SnapshotSelection) (signing_key : Option SigningKey)
        (now : ℕ) (accepted : Bool) (row : SnapshotRow)
        → create_snapshot builder db key selections by signing_key now accepted ≡ ok (row, next)
        → Request db next

  pub data Reachable : Database → Type 0 where
    initial : Reachable no_rows
    after : {db next : Database} → Reachable db → Request db next → Reachable next
