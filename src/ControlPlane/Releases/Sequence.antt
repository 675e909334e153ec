-- ===== src/ControlPlane/Releases/Sequence.antt =====
-- The published versions of a connector of service.py: they increase, and their content stays.
use toollayer_ai.Base.{
  ℕ, ◌≡◌, refl, sym, String, Bool, Option, none, some, List, [], ◌∷◌, ◌++◌, eqb, eqb_iff, arith,
  All, All-append,
}
use toollayer_ai.Contracts.Errors.{ok, >>=-eq-ok, guard-eq-ok, ok-pair}
use toollayer_ai.Contracts.Version.{ContractVersion, parse_text}
use toollayer_ai.ControlPlane.Rows.{
  ConnectorDraft, PublishedVersion, Connector, Database, find_connector, find_version,
  find_connector_key, find_connector-store_connector,
}
use toollayer_ai.ControlPlane.Publication.{Outside, build_connector_document}
use toollayer_ai.ControlPlane.Versions.{reject_version_regression}
use toollayer_ai.ControlPlane.Versions.Increase.{IsBelow, reject_version_regression_iff}
use toollayer_ai.ControlPlane.Drafts.{
  or_missing, or_missing-eq-ok, or_default, version_texts, get_connector, get_draft, with_connector,
  with_draft, with_versions, conflict,
}
use toollayer_ai.ControlPlane.Releases.{immutable, is_new, publish_draft}

-- Both texts are versions, and the first precedes the second.
abbrev pub Exceeded : String → String → Type 0
Exceeded later earlier =
    (candidate : ContractVersion) × (parse_text later ≡ ok candidate) × IsBelow candidate earlier

-- Each version exceeds those before it.
abbrev pub IsIncreasing : List String → Type 0
IsIncreasing [] = Unit
IsIncreasing (v ∷ vs) = All (λ w. Exceeded w v) vs × IsIncreasing vs

pub IsIncreasing-append :
    (vs : List String) (new : String)
    → IsIncreasing vs
    → All (λ v. Exceeded new v) vs
    → IsIncreasing (vs ++ new ∷ [])
IsIncreasing-append [] new h below = (tt, tt)
IsIncreasing-append (v ∷ vs) new (first, rest) (below, others) = (
  All-append (λ w. Exceeded w v) vs (new ∷ []) first (below, tt),
  IsIncreasing-append vs new rest others,
)

pub Exceeded-of_accepted :
    (published : List String) (version : String)
    → reject_version_regression published version ≡ ok tt
    → All (λ v. Exceeded version v) published
Exceeded-of_accepted published version h =
    let (candidate, parsed, below) = (reject_version_regression_iff published version).0 h in
    all candidate parsed published below
  where
    all :
        (candidate : ContractVersion)
        → parse_text version ≡ ok candidate
        → (vs : List String) → All (IsBelow candidate) vs
        → All (λ v. Exceeded version v) vs
    all candidate parsed [] below = tt
    all candidate parsed (v ∷ vs) (b, rest) = ((candidate, parsed, b), all candidate parsed vs rest)

pub version_texts-append :
    (rows : List PublishedVersion) (new : PublishedVersion)
    → version_texts (rows ++ new ∷ []) ≡ version_texts rows ++ new.version ∷ []
version_texts-append [] new = refl
version_texts-append (row ∷ rows) new = λ i. row.version ∷ version_texts-append rows new i

-- What a publication makes of the connector.
abbrev pub Published : Database → String → ℕ → PublishedVersion → Database → Type 0
Published db key expected_revision row next =
    (c : Connector) × (draft : ConnectorDraft) × (find_connector key db.connectors ≡ some c)
    × (c.draft ≡ some draft)
    × (draft.revision ≡ expected_revision)
    × (reject_version_regression (version_texts c.versions) row.version ≡ ok tt)
    × (next ≡ with_connector (with_draft none (with_versions (c.versions ++ row ∷ []) c)) db)

published :
    (db next : Database) (key : String) (expected_revision : ℕ) (c : Connector)
    (draft : ConnectorDraft) (new row : PublishedVersion)
    → find_connector key db.connectors ≡ some c
    → c.draft ≡ some draft
    → draft.revision ≡ expected_revision
    → reject_version_regression (version_texts c.versions) new.version ≡ ok tt
    → new ≡ row
    → with_connector (with_draft none (with_versions (c.versions ++ new ∷ []) c)) db ≡ next
    → Published db key expected_revision row next
published db next key expected_revision c draft new row found has at accepted same_row same_next =
    rw (← same_next) (rw (← same_row) (c, draft, found, has, at, accepted, refl))

module _ (outside : Outside) where
  pub publish_draft_parts :
      (db next : Database) (key : String) (expected_revision : ℕ) (by : String)
      (version : Option String) (now : ℕ) (accepted : Bool) (row : PublishedVersion)
      → publish_draft outside db key expected_revision by version now accepted ≡ ok (row, next)
      → Published db key expected_revision row next
  unfolding publish_draft get_connector get_draft
  publish_draft_parts db next key expected_revision by version now accepted row h =
      let (c, found, h₁) = >>=-eq-ok (or_missing (find_connector key db.connectors)) _ h in
      let (draft, has, h₂) = >>=-eq-ok (or_missing c.draft) _ h₁ in
      let (same, h₃) = guard-eq-ok (eqb expected_revision draft.revision) conflict _ h₂ in
      let target = or_default version draft.proposed_version in
      let (u, increasing, h₄) =
        >>=-eq-ok (reject_version_regression (version_texts c.versions) target) _ h₃ in
      let (_, h₅) = guard-eq-ok (is_new (find_version target c.versions)) immutable _ h₄ in
      let (built, _, h₆) = >>=-eq-ok (build_connector_document outside c target draft now) _ h₅ in
      let (_, h₇) = guard-eq-ok accepted immutable _ h₆ in
      let (same_row, same_next) = ok-pair h₇ in
      published db next key expected_revision c draft _ row
        (or_missing-eq-ok (find_connector key db.connectors) c found)
        (or_missing-eq-ok c.draft draft has)
        (sym ((eqb_iff expected_revision draft.revision).0 same)) increasing same_row same_next

  -- A publication takes a draft of the expected revision, which the connector then no longer has; it adds
  -- its row to the published ones and leaves them as they are. If the versions of the connector were
  -- increasing in precedence, they are so afterwards.
  pub publish_draft-IsIncreasing :
      (db next : Database) (key : String) (expected_revision : ℕ) (by : String)
      (version : Option String) (now : ℕ) (accepted : Bool) (row : PublishedVersion) (c : Connector)
      → find_connector key db.connectors ≡ some c
      → IsIncreasing (version_texts c.versions)
      → publish_draft outside db key expected_revision by version now accepted ≡ ok (row, next)
      → (draft : ConnectorDraft) × (c' : Connector) × (c.draft ≡ some draft)
        × (draft.revision ≡ expected_revision)
        × (find_connector key next.connectors ≡ some c')
        × (c'.draft ≡ none)
        × (c'.versions ≡ c.versions ++ row ∷ [])
        × IsIncreasing (version_texts c'.versions)
  publish_draft-IsIncreasing db next key expected_revision by version now accepted row c found
        increasing h =
      let (x, draft, x_found, has, at, newest, e) =
        publish_draft_parts db next key expected_revision by version now accepted row h in
      let same : x ≡ c = ground arith in
      let new = with_draft none (with_versions (c.versions ++ row ∷ []) c) in
      (
        draft,
        new,
        rw (← same) has,
        at,
        rw (e, same)
            (rw (← find_connector_key key db.connectors c found)
              (find_connector-store_connector new db.connectors)),
        refl,
        refl,
        rw (version_texts-append c.versions row) (
            IsIncreasing-append (version_texts c.versions) row.version increasing
              (Exceeded-of_accepted (version_texts c.versions) row.version (rw same at newest))),
      )
