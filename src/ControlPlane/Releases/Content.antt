-- ===== src/ControlPlane/Releases/Content.antt =====
-- Disablement in service.py: a version stays the one that was published.
use toollayer_ai.Base.{
  ℕ, ◌≡◌, refl, ap, ◌∙◌, inl, inr, String, true, some, List, [], ◌∷◌, map, ◌==◌, eq_iff, arith,
  Bool-cases, if◌then◌else◌,
}
use toollayer_ai.Json.{Fields}
use toollayer_ai.Contracts.Errors.{ok, >>=-eq-ok, ok-pair}
use toollayer_ai.ControlPlane.Rows.{
  PublishedVersion, Connector, Database, is_disabled, find_connector, find_version,
  find_connector_key, find_connector-store_connector,
}
use toollayer_ai.ControlPlane.Drafts.{
  or_missing, or_missing-eq-ok, get_connector, with_connector, with_versions,
}
use toollayer_ai.ControlPlane.Releases.{disable_row, replace_version, disable_version}

-- What an immutable version keeps.
abbrev pub release : PublishedVersion → String × Fields × String
release row = (row.version, row.document, row.document_digest)

map-release-replace_version :
    (old new : PublishedVersion) (rows : List PublishedVersion)
    → find_version new.version rows ≡ some old
    → release new ≡ release old
    → map release (replace_version new rows) ≡ map release rows
unfolding find_version replace_version
map-release-replace_version old new [] found same = refl
map-release-replace_version old new (row ∷ rows) found same =
    elim (Bool-cases (row.version == new.version)) [
      | inl here ↦
          let e : row ≡ old = ground arith in rw here (rw e (λ i. same i ∷ map release rows))
      | inr there ↦
          rw there
            (λ i. release row ∷ map-release-replace_version old new rows (rw there at found) same i)
    ]

find_version_version :
    (version : String) (rows : List PublishedVersion) (row : PublishedVersion)
    → find_version version rows ≡ some row
    → row.version ≡ version
unfolding find_version
find_version_version version [] row h = cc h
find_version_version version (x ∷ xs) row h = elim (Bool-cases (x.version == version)) [
  | inl same ↦ let e : x ≡ row = ground arith in rw (← e) ((eq_iff x.version version).0 same)
  | inr other ↦ find_version_version version xs row (rw other at h)
]

abbrev disabled_row : ℕ → String → PublishedVersion → PublishedVersion
disabled_row now reason row = if is_disabled row then row else disable_row now reason row

disabled_row_keeps :
    (now : ℕ) (reason : String) (row : PublishedVersion)
    → (release (disabled_row now reason row) ≡ release row)
      × (is_disabled (disabled_row now reason row) ≡ true)
disabled_row_keeps now reason row = elim (Bool-cases (is_disabled row)) [
  | inl off ↦ rw off (refl, off)
  | inr on ↦ rw on (refl, refl)
]

-- What a disablement makes of the connector.
abbrev pub Disabled : Database → String → PublishedVersion → Database → Type 0
Disabled db key row next =
    (c : Connector) × (old : PublishedVersion) × (find_connector key db.connectors ≡ some c)
    × (find_version row.version c.versions ≡ some old)
    × (release row ≡ release old)
    × (is_disabled row ≡ true)
    × (next ≡ with_connector (with_versions (replace_version row c.versions) c) db)

disabled :
    (db next : Database) (key version : String) (c : Connector) (old new row : PublishedVersion)
    → find_connector key db.connectors ≡ some c
    → find_version version c.versions ≡ some old
    → release new ≡ release old
    → is_disabled new ≡ true
    → new ≡ row
    → with_connector (with_versions (replace_version new c.versions) c) db ≡ next
    → Disabled db key row next
disabled db next key version c old new row found there kept off same_row same_next =
    let named : new.version ≡ version =
      ap (λ r. r.0) kept ∙ find_version_version version c.versions old there in
    rw (← same_next) (rw (← same_row) (c, old, found, rw named there, kept, off, refl))

pub disable_version_parts :
    (db next : Database) (key version reason : String) (now : ℕ) (row : PublishedVersion)
    → disable_version db key version reason now ≡ ok (row, next)
    → Disabled db key row next
unfolding disable_version get_connector
disable_version_parts db next key version reason now row h =
    let (c, found, h₁) = >>=-eq-ok (or_missing (find_connector key db.connectors)) _ h in
    let (old, there, h₂) = >>=-eq-ok (or_missing (find_version version c.versions)) _ h₁ in
    let (same_row, same_next) = ok-pair h₂ in
    let (kept, off) = disabled_row_keeps now reason old in
    disabled db next key version c old _ row
      (or_missing-eq-ok (find_connector key db.connectors) c found)
      (or_missing-eq-ok (find_version version c.versions) old there) kept off same_row same_next

-- A disablement marks a row of the connector and changes nothing of what the connector has published:
-- the versions, documents and digests are the same, in the same order.
pub disable_version_keeps :
    (db next : Database) (key version reason : String) (now : ℕ) (row : PublishedVersion)
    (c : Connector)
    → find_connector key db.connectors ≡ some c
    → disable_version db key version reason now ≡ ok (row, next)
    → (c' : Connector) × (find_connector key next.connectors ≡ some c')
      × (is_disabled row ≡ true)
      × (map release c'.versions ≡ map release c.versions)
      × (c'.draft ≡ c.draft)
disable_version_keeps db next key version reason now row c found h =
    let (x, old, x_found, there, kept, off, e) =
      disable_version_parts db next key version reason now row h in
    let same : x ≡ c = ground arith in
    let new = with_versions (replace_version row c.versions) c in
    (
      new,
      rw (e, same)
          (rw (← find_connector_key key db.connectors c found)
            (find_connector-store_connector new db.connectors)),
      off,
      map-release-replace_version old row c.versions (rw same at there) kept,
      refl,
    )
