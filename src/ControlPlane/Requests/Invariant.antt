-- ===== src/ControlPlane/Requests/Invariant.antt =====
-- What holds in every database that the requests of service.py lead to.
use toollayer_ai.Base.{
  ℕ, ◌≡◌, refl, sym, inl, inr, String, Option, none, some, List, [], ◌∷◌, ◌++◌, arith,
}
use toollayer_ai.Contracts.Errors.{tool_layer, already_exists, >>=-eq-ok, guard-eq-ok, ok-pair}
use toollayer_ai.ControlPlane.Rows.{
  Connector, Deployment, Database, find_connector, store_connector, find_deployment,
  store_deployment,
}
use toollayer_ai.ControlPlane.Drafts.{
  Analyzed, version_texts, registered, propose, register_connector, with_connector, with_draft,
  with_versions,
}
use toollayer_ai.ControlPlane.Drafts.Edits.{update_review_parts}
use toollayer_ai.ControlPlane.Releases.{replace_version}
use toollayer_ai.ControlPlane.Releases.Sequence.{
  IsIncreasing, IsIncreasing-append, Exceeded-of_accepted, version_texts-append,
  publish_draft_parts,
}
use toollayer_ai.ControlPlane.Releases.Content.{disable_version_parts}
use toollayer_ai.ControlPlane.Deployments.{
  Builder, with_deployment, with_snapshots, is_absent, create_deployment, deactivate,
}
use toollayer_ai.ControlPlane.Deployments.Active.{
  IsHistory, IsHistory-deactivate, create_snapshot_parts,
}
use toollayer_ai.ControlPlane.Requests.{
  no_rows, Request, register, edit, publish, disable, deploy, pin, Reachable, initial, after,
}
use toollayer_ai.ControlPlane.Requests.Lookups.{
  find_connector-store_connector_cases, find_deployment-store_deployment_cases,
  version_texts-replace_version,
}

abbrev pub AllIncreasing : List Connector → Type 0
AllIncreasing cs =
    (key : String) (c : Connector)
    → find_connector key cs ≡ some c
    → IsIncreasing (version_texts c.versions)

abbrev pub AllHistories : List Deployment → Type 0
AllHistories ds =
    (key : String) (d : Deployment) → find_deployment key ds ≡ some d → IsHistory d.snapshots

-- The versions of each connector increase in precedence, and the snapshots of each deployment increase in
-- revision, the last one alone being active.
pub record IsLawful (db : Database) : Type 0 where
  pub versions : AllIncreasing db.connectors
  pub snapshots : AllHistories db.deployments

with_connector-IsLawful :
    (db next : Database) (new : Connector)
    → IsLawful db
    → IsIncreasing (version_texts new.versions)
    → next ≡ with_connector new db
    → IsLawful next
with_connector-IsLawful db next new lawful increasing e =
    rw e (record { versions = versions; snapshots = lawful.snapshots })
  where
    versions : AllIncreasing (store_connector new db.connectors)
    versions key c found =
        elim (find_connector-store_connector_cases key new c db.connectors found) [
          | inl stored ↦ rw (← stored) increasing
          | inr old ↦ lawful.versions key c old
        ]

with_deployment-IsLawful :
    (db next : Database) (new : Deployment)
    → IsLawful db
    → IsHistory new.snapshots
    → next ≡ with_deployment new db
    → IsLawful next
with_deployment-IsLawful db next new lawful history e =
    rw e (record { versions = lawful.versions; snapshots = snapshots })
  where
    snapshots : AllHistories (store_deployment new db.deployments)
    snapshots key d found =
        elim (find_deployment-store_deployment_cases key new d db.deployments found) [
          | inl stored ↦ rw (← stored) history
          | inr old ↦ lawful.snapshots key d old
        ]

registered-IsIncreasing :
    (db : Database) (key : String) (display_name summary : Option String) (analyzed : Analyzed)
    (now : ℕ) (found : Option Connector)
    → IsLawful db
    → find_connector key db.connectors ≡ found
    → IsIncreasing (version_texts (registered found key display_name summary analyzed now).versions)
registered-IsIncreasing db key display_name summary analyzed now none lawful h = tt
registered-IsIncreasing db key display_name summary analyzed now (some c) lawful h =
    lawful.versions key c h

no_rows-IsLawful : IsLawful no_rows
unfolding find_connector find_deployment
no_rows-IsLawful = record { versions = λ key c h. cc h; snapshots = λ key d h. cc h }

module _ (builder : Builder) where
  Request-IsLawful : {db next : Database} → Request builder db next → IsLawful db → IsLawful next
  unfolding register_connector create_deployment
  Request-IsLawful {db = db} {next = next}
        (register key display_name summary analysed version profile now draft h) lawful =
      let (analyzed, _, h₁) = >>=-eq-ok analysed _ h in
      let connector =
        registered (find_connector key db.connectors) key display_name summary analyzed now in
      let (proposed, _, h₂) = >>=-eq-ok (propose (version_texts connector.versions) version) _ h₁ in
      let (same, stored) = ok-pair h₂ in
      with_connector-IsLawful db next _ lawful
        (registered-IsIncreasing db key display_name summary analyzed now
          (find_connector key db.connectors) lawful refl)
        (sym stored)
  Request-IsLawful {db = db} {next = next}
        (edit key expected updates version url profile now draft h) lawful =
      let (c, old, found, _, _, _, _, e) =
        update_review_parts db next key expected updates version url profile now draft h in
      with_connector-IsLawful db next (with_draft (some draft) c) lawful
        (lawful.versions key c found) e
  Request-IsLawful {db = db} {next = next} (publish key expected by version now accepted row h)
        lawful =
      let (c, draft, found, _, _, newest, e) =
        publish_draft_parts builder.outside db next key expected by version now accepted row h in
      with_connector-IsLawful db next (with_draft none (with_versions (c.versions ++ row ∷ []) c))
        lawful
        (rw (version_texts-append c.versions row) (
          IsIncreasing-append (version_texts c.versions) row.version (lawful.versions key c found)
            (Exceeded-of_accepted (version_texts c.versions) row.version newest)))
        e
  Request-IsLawful {db = db} {next = next} (disable key version reason now row h) lawful =
      let (c, old, found, _, _, _, e) =
        disable_version_parts db next key version reason now row h in
      with_connector-IsLawful db next (with_versions (replace_version row c.versions) c) lawful
        (rw (version_texts-replace_version row c.versions) (lawful.versions key c found)) e
  Request-IsLawful {db = db} {next = next} (deploy key display_name description now deployment h)
        lawful =
      let (_, h₁) =
        guard-eq-ok (is_absent (find_deployment key db.deployments)) (tool_layer already_exists) _
          h in
      let (same, stored) = ok-pair h₁ in with_deployment-IsLawful db next _ lawful tt (sym stored)
  Request-IsLawful {db = db} {next = next} (pin key by selections signing_key now accepted row h)
        lawful =
      let (d, found, on, revision, e) =
        create_snapshot_parts builder db next key by selections signing_key now accepted row h in
      with_deployment-IsLawful db next (with_snapshots (deactivate d.snapshots ++ row ∷ []) d)
        lawful
        (IsHistory-deactivate d.snapshots row (lawful.snapshots key d found) on
          (rw revision (omega arith)))
        e

  -- Whatever requests the control plane has served since its database was empty, the published versions of
  -- each connector increase in precedence, and the snapshots of each deployment increase in revision, the last
  -- one alone being active.
  pub Reachable-IsLawful : {db : Database} → Reachable builder db → IsLawful db
  Reachable-IsLawful initial = no_rows-IsLawful
  Reachable-IsLawful (after r request) = Request-IsLawful request (Reachable-IsLawful r)
