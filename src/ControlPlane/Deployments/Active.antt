-- ===== src/ControlPlane/Deployments/Active.antt =====
-- The snapshots of a deployment of service.py: their revisions, and which one is active.
use toollayer_ai.Base.{
  ℕ, ◌+◌, ◌≤◌, ◌<◌, ◌≡◌, refl, inl, inr, String, Bool, true, false, Option, some, List, [], ◌∷◌,
  ◌++◌, map, ◌==◌, eq_iff, eq_refl, arith, Bool-cases,
}
use toollayer_ai.Json.{Fields}
use toollayer_ai.Contracts.Errors.{tool_layer, already_exists, ok, >>=-eq-ok, guard-eq-ok, ok-pair}
use toollayer_ai.Contracts.Signing.{SigningKey}
use toollayer_ai.Contracts.Validation.{validate_deployment_snapshot}
use toollayer_ai.ControlPlane.Rows.{
  SnapshotRow, Deployment, Database, find_deployment, store_deployment,
}
use toollayer_ai.ControlPlane.Drafts.{or_missing, or_missing-eq-ok}
use toollayer_ai.ControlPlane.Deployments.{
  SnapshotSelection, with_deployment, with_snapshots, get_deployment, last_revision, deactivate,
  highest_active, get_active_snapshot, sort_documents, Builder, select_documents,
  build_snapshot_document, create_snapshot,
}

abbrev IsActive : SnapshotRow → Type 0
IsActive row = row.active ≡ true

abbrev IsInactive : SnapshotRow → Type 0
IsInactive row = row.active ≡ false

-- Revisions from one row to the next increase, and no row but the last is active.
abbrev pub IsHistory : List SnapshotRow → Type 0
IsHistory [] = Unit
IsHistory (row ∷ []) = row.active ≡ true
IsHistory (row ∷ next ∷ rows) =
    (row.active ≡ false) × (row.revision < next.revision) × IsHistory (next ∷ rows)

last_revision-bound :
    (row : SnapshotRow) (rows : List SnapshotRow) → row.revision ≤ last_revision (row ∷ rows)
unfolding last_revision
last_revision-bound row rows = ground arith

pub IsHistory-deactivate :
    (rows : List SnapshotRow) (new : SnapshotRow)
    → IsHistory rows
    → new.active ≡ true
    → last_revision rows < new.revision
    → IsHistory (deactivate rows ++ new ∷ [])
unfolding last_revision
IsHistory-deactivate [] new h on after = on
IsHistory-deactivate (row ∷ []) new h on after = (refl, ground arith, on)
IsHistory-deactivate (row ∷ next ∷ rows) new (off, less, h) on after =
    (refl, less, IsHistory-deactivate (next ∷ rows) new h on (ground arith))

highest_active-deactivate :
    (rows : List SnapshotRow) (new : SnapshotRow)
    → new.active ≡ true
    → highest_active (deactivate rows ++ new ∷ []) ≡ some new
unfolding highest_active
highest_active-deactivate [] new on = rw on refl
highest_active-deactivate (row ∷ rows) new on = highest_active-deactivate rows new on

-- What an immutable snapshot keeps.
abbrev Content : Type 0
Content = ℕ × String × Fields × String

abbrev pub content : SnapshotRow → Content
content row = (row.revision, row.snapshot_id, row.document, row.snapshot_digest)

map-content-deactivate :
    (rows : List SnapshotRow) (new : SnapshotRow)
    → map content (deactivate rows ++ new ∷ []) ≡ map content rows ++ content new ∷ []
map-content-deactivate [] new = refl
map-content-deactivate (row ∷ rows) new = λ i. content row ∷ map-content-deactivate rows new i

find_deployment_key :
    (key : String) (ds : List Deployment) (d : Deployment)
    → find_deployment key ds ≡ some d
    → d.deployment_key ≡ key
unfolding find_deployment
find_deployment_key key [] d h = cc h
find_deployment_key key (x ∷ xs) d h = elim (Bool-cases (x.deployment_key == key)) [
  | inl same ↦ let e : x ≡ d = ground arith in rw (← e) ((eq_iff x.deployment_key key).0 same)
  | inr other ↦ find_deployment_key key xs d (rw other at h)
]

find_deployment-store_deployment :
    (new : Deployment) (ds : List Deployment)
    → find_deployment new.deployment_key (store_deployment new ds) ≡ some new
unfolding find_deployment store_deployment
find_deployment-store_deployment new [] = rw (eq_refl new.deployment_key) refl
find_deployment-store_deployment new (d ∷ ds) =
    elim (Bool-cases (d.deployment_key == new.deployment_key)) [
      | inl same ↦ rw same (rw (eq_refl new.deployment_key) refl)
      | inr other ↦ rw other (rw other (find_deployment-store_deployment new ds))
    ]

-- What the creation of a snapshot makes of the deployment's rows, where it succeeds.
abbrev pub Created : Database → String → SnapshotRow → Database → Type 0
Created db key row next =
    (d : Deployment) × (find_deployment key db.deployments ≡ some d)
    × (row.active ≡ true)
    × (row.revision ≡ last_revision d.snapshots + 1)
    × (next ≡ with_deployment (with_snapshots (deactivate d.snapshots ++ row ∷ []) d) db)

created :
    (db next : Database) (key : String) (d : Deployment) (new row : SnapshotRow)
    → find_deployment key db.deployments ≡ some d
    → new.active ≡ true
    → new.revision ≡ last_revision d.snapshots + 1
    → new ≡ row
    → with_deployment (with_snapshots (deactivate d.snapshots ++ new ∷ []) d) db ≡ next
    → Created db key row next
created db next key d new row found on revision same_row same_next =
    rw (← same_next) (rw (← same_row) (d, found, on, revision, refl))

module _ (builder : Builder) where
  pub create_snapshot_parts :
      (db next : Database) (key created_by : String) (selections : List SnapshotSelection)
      (signing_key : Option SigningKey) (now : ℕ) (accepted : Bool) (row : SnapshotRow)
      → create_snapshot builder db key selections created_by signing_key now accepted
        ≡ ok (row, next)
      → Created db key row next
  unfolding create_snapshot get_deployment
  create_snapshot_parts db next key created_by selections signing_key now accepted row h =
      let (d, found, h₁) = >>=-eq-ok (or_missing (find_deployment key db.deployments)) _ h in
      let (selected, _, h₂) = >>=-eq-ok (select_documents builder db [] selections) _ h₁ in
      let revision = last_revision d.snapshots + 1 in
      let (built, _, h₃) =
        >>=-eq-ok
          (build_snapshot_document builder d.deployment_key revision now (sort_documents selected)
            signing_key)
          _ h₂ in
      let (_, _, h₄) =
        >>=-eq-ok (validate_deployment_snapshot builder.outside.schemas built.2) _ h₃ in
      let (_, h₅) = guard-eq-ok accepted (tool_layer already_exists) _ h₄ in
      let (same_row, same_next) = ok-pair h₅ in
      created db next key d _ row (or_missing-eq-ok (find_deployment key db.deployments) d found)
        refl refl same_row same_next

  -- Where the snapshots of a deployment have increasing revisions and none but the last is active, the
  -- creation of a snapshot adds one of the next revision for which this holds again, so that it is the only
  -- active one; the earlier snapshots keep their revision, identity, document and digest.
  pub create_snapshot-IsHistory :
      (db next : Database) (key created_by : String) (selections : List SnapshotSelection)
      (signing_key : Option SigningKey) (now : ℕ) (accepted : Bool) (row : SnapshotRow)
      (d : Deployment)
      → find_deployment key db.deployments ≡ some d
      → IsHistory d.snapshots
      → create_snapshot builder db key selections created_by signing_key now accepted
        ≡ ok (row, next)
      → (d' : Deployment) × (find_deployment key next.deployments ≡ some d')
        × IsHistory d'.snapshots
        × (row.revision ≡ last_revision d.snapshots + 1)
        × (map content d'.snapshots ≡ map content d.snapshots ++ content row ∷ [])
  create_snapshot-IsHistory db next key created_by selections signing_key now accepted row d found
        history h =
      let (x, x_found, on, revision, e) =
        create_snapshot_parts db next key created_by selections signing_key now accepted row h in
      let same : x ≡ d = ground arith in
      let new = with_snapshots (deactivate d.snapshots ++ row ∷ []) d in
      (
        new,
        rw (e, same)
            (rw (← find_deployment_key key db.deployments d found)
              (find_deployment-store_deployment new db.deployments)),
        IsHistory-deactivate d.snapshots row history on (rw revision (rw same (omega arith))),
        rw (← same) revision,
        map-content-deactivate d.snapshots row,
      )

  -- Right after its creation a snapshot is the one that the deployment serves.
  pub get_active_snapshot-create_snapshot :
      (db next : Database) (key created_by : String) (selections : List SnapshotSelection)
      (signing_key : Option SigningKey) (now : ℕ) (accepted : Bool) (row : SnapshotRow)
      → create_snapshot builder db key selections created_by signing_key now accepted
        ≡ ok (row, next)
      → get_active_snapshot next key ≡ ok row
  unfolding get_active_snapshot get_deployment
  get_active_snapshot-create_snapshot db next key created_by selections signing_key now accepted row
        h =
      let (d, found, on, revision, e) =
        create_snapshot_parts db next key created_by selections signing_key now accepted row h in
      let new = with_snapshots (deactivate d.snapshots ++ row ∷ []) d in
      let there : find_deployment key (store_deployment new db.deployments) ≡ some new =
        rw (← find_deployment_key key db.deployments d found)
          (find_deployment-store_deployment new db.deployments) in
      rw e (rw there (rw (highest_active-deactivate d.snapshots row on) refl))
