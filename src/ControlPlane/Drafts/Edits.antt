-- ===== src/ControlPlane/Drafts/Edits.antt =====
-- `update_review` of service.py: optimistic concurrency on the revision of a draft.
use toollayer_ai.Base.{
  ℕ, ◌+◌, ◌≡◌, refl, sym, String, false, Option, some, List, eqb, eqb_iff, arith, All,
}
use toollayer_ai.Contracts.Errors.{ok, err, >>=-eq-ok, guard-eq-ok, ok-pair}
use toollayer_ai.ControlPlane.Review.{ReviewUpdate, apply_updates, reviewed_keys}
use toollayer_ai.ControlPlane.Review.Updates.{apply_updates-reviewed_keys}
use toollayer_ai.ControlPlane.Review.Invariant.{IsReviewed, apply_updates-IsReviewed}
use toollayer_ai.ControlPlane.Rows.{
  ConnectorDraft, Connector, Database, find_connector, find_connector_key,
  find_connector-store_connector,
}
use toollayer_ai.ControlPlane.Drafts.{
  or_missing, or_missing-eq-ok, version_texts, get_connector, get_draft, with_connector, with_draft,
  conflict, revise_version, update_review,
}

-- What an update makes of the draft.
abbrev pub Edited : Database → String → ℕ → List ReviewUpdate → ConnectorDraft → Database → Type 0
Edited db key expected_revision updates draft next =
    (c : Connector) × (old : ConnectorDraft) × (find_connector key db.connectors ≡ some c)
    × (c.draft ≡ some old)
    × (old.revision ≡ expected_revision)
    × (draft.revision ≡ old.revision + 1)
    × (apply_updates old.review updates ≡ ok draft.review)
    × (next ≡ with_connector (with_draft (some draft) c) db)

edited :
    (db next : Database) (key : String) (expected_revision : ℕ) (updates : List ReviewUpdate)
    (c : Connector) (old new draft : ConnectorDraft)
    → find_connector key db.connectors ≡ some c
    → c.draft ≡ some old
    → old.revision ≡ expected_revision
    → new.revision ≡ old.revision + 1
    → apply_updates old.review updates ≡ ok new.review
    → new ≡ draft
    → with_connector (with_draft (some new) c) db ≡ next
    → Edited db key expected_revision updates draft next
edited db next key expected_revision updates c old new draft found has at up reviewed same_draft
      same_next =
    rw (← same_next) (rw (← same_draft) (c, old, found, has, at, up, reviewed, refl))

pub update_review_parts :
    (db next : Database) (key : String) (expected_revision : ℕ) (updates : List ReviewUpdate)
    (version url profile : Option String) (now : ℕ) (draft : ConnectorDraft)
    → update_review db key expected_revision updates version url profile now ≡ ok (draft, next)
    → Edited db key expected_revision updates draft next
unfolding update_review get_connector get_draft
update_review_parts db next key expected_revision updates version url profile now draft h =
    let (c, found, h₁) = >>=-eq-ok (or_missing (find_connector key db.connectors)) _ h in
    let (old, has, h₂) = >>=-eq-ok (or_missing c.draft) _ h₁ in
    let (same, h₃) = guard-eq-ok (eqb expected_revision old.revision) conflict _ h₂ in
    let (review, reviewed, h₄) = >>=-eq-ok (apply_updates old.review updates) _ h₃ in
    let (proposed, _, h₅) =
      >>=-eq-ok (revise_version (version_texts c.versions) version old.proposed_version) _ h₄ in
    let (same_draft, same_next) = ok-pair h₅ in
    edited db next key expected_revision updates c old _ draft
      (or_missing-eq-ok (find_connector key db.connectors) c found)
      (or_missing-eq-ok c.draft old has) (sym ((eqb_iff expected_revision old.revision).0 same))
      refl reviewed same_draft same_next

stored :
    (db next : Database) (key : String) (c : Connector) (draft : ConnectorDraft)
    → find_connector key db.connectors ≡ some c
    → next ≡ with_connector (with_draft (some draft) c) db
    → find_connector key next.connectors ≡ some (with_draft (some draft) c)
stored db next key c draft found e = rw e (
    rw (← find_connector_key key db.connectors c found)
      (find_connector-store_connector (with_draft (some draft) c) db.connectors))

-- An update is made to the draft of the expected revision and stores the next revision; the published
-- versions stay, the review keeps its operations, and its entries keep the form of `IsReviewed`.
pub update_review_lem :
    (db next : Database) (key : String) (expected_revision : ℕ) (updates : List ReviewUpdate)
    (version url profile : Option String) (now : ℕ) (draft : ConnectorDraft)
    → update_review db key expected_revision updates version url profile now ≡ ok (draft, next)
    → (c : Connector) × (old : ConnectorDraft) × (c' : Connector) × (find_connector key
          db.connectors
        ≡ some c)
      × (c.draft ≡ some old)
      × (old.revision ≡ expected_revision)
      × (find_connector key next.connectors ≡ some c')
      × (c'.draft ≡ some draft)
      × (draft.revision ≡ expected_revision + 1)
      × (c'.versions ≡ c.versions)
      × (reviewed_keys draft.review ≡ reviewed_keys old.review)
      × (All IsReviewed old.review → All IsReviewed draft.review)
update_review_lem db next key expected_revision updates version url profile now draft h =
    let (c, old, found, has, at, up, reviewed, e) =
      update_review_parts db next key expected_revision updates version url profile now draft h in
    (
      c,
      old,
      with_draft (some draft) c,
      found,
      has,
      at,
      stored db next key c draft found e,
      refl,
      rw (← at) up,
      refl,
      apply_updates-reviewed_keys old.review draft.review updates reviewed,
      λ good. apply_updates-IsReviewed old.review draft.review updates good reviewed,
    )

-- Of two updates that read the same revision of a draft, the second is refused with a revision conflict,
-- whatever it asks for.
pub update_review-conflict :
    (db next : Database) (key : String) (expected_revision : ℕ)
    (updates updates' : List ReviewUpdate)
    (version url profile version' url' profile' : Option String) (now now' : ℕ)
    (draft : ConnectorDraft)
    → update_review db key expected_revision updates version url profile now ≡ ok (draft, next)
    → update_review next key expected_revision updates' version' url' profile' now' ≡ err conflict
unfolding update_review get_connector get_draft
update_review-conflict db next key expected_revision updates updates' version url profile version'
      url' profile' now now' draft h =
    let (c, old, found, has, at, up, reviewed, e) =
      update_review_parts db next key expected_revision updates version url profile now draft h in
    let stale : eqb expected_revision draft.revision ≡ false = ground arith in
    rw (stored db next key c draft found e) (rw stale refl)
