-- ===== src/ControlPlane/Deployments/Verifies.antt =====
-- A snapshot that service.py creates, against the checks of the service that loads it.
use Prim.Native.String.{slice}
use text.Mathlib.TextPositions.{starts_with-append}
use toollayer_ai.Base.{
  ℕ, ◌+◌, ◌≡◌, refl, ap, subst, String, Bool, true, Option, none, some, List, [], eq_refl, arith,
  contains,
}
use toollayer_ai.Json.{Json, str, obj, Fields, end, field, find, get, put}
use toollayer_ai.Contracts.Errors.{tool_layer, already_exists, ok, >>=-eq-ok, guard-eq-ok, ok-pair}
use toollayer_ai.Contracts.Validation.{validate_deployment_snapshot}
use toollayer_ai.Runtime.Snapshot.{declared_digest}
use toollayer_ai.ControlPlane.Rows.{SnapshotRow, Database}
use toollayer_ai.Contracts.CanonicalJson.{
  ◌⧺◌, canonical_json, excluding, digest_prefix, snapshot_digest_excluded, prefixed_digest,
  content_digest, verify_digest,
}
use toollayer_ai.Contracts.Signing.{SigningKey, sign_document}
use toollayer_ai.ControlPlane.Publication.{or_canonical_error}
use toollayer_ai.ControlPlane.Deployments.{
  SnapshotSelection, Builder, get_deployment, select_documents, sort_documents, last_revision,
  create_snapshot, snapshot_payload, with_identity, add_signature, build_snapshot_document,
}

excluding-nil : (fs : Fields) → excluding [] fs ≡ fs
unfolding excluding contains
excluding-nil end = refl
excluding-nil (field k v fs) = ap (field k v) (excluding-nil fs)

content_digest_starts :
    (sha : String → String) (exclude : List String) (fs : Fields) (digest : String)
    → content_digest sha exclude fs ≡ some digest
    → (x : String) × (digest ≡ digest_prefix ⧺ x)
unfolding content_digest
content_digest_starts sha exclude fs digest h = from (canonical_json (obj (excluding exclude fs))) h
  where
    from :
        (o : Option String)
        → prefixed_digest sha o ≡ some digest
        → (x : String) × (digest ≡ digest_prefix ⧺ x)
    from none k = cc k
    from (some text) k = (sha text, ground arith)

or_canonical_error-eq-ok :
    (o : Option String) (s : String) → or_canonical_error o ≡ ok s → o ≡ some s
or_canonical_error-eq-ok none s h = cc h
or_canonical_error-eq-ok (some t) s h = ground arith

verify_digest_of :
    (sha : String → String) (exclude : List String) (fs : Fields) (digest : String)
    → content_digest sha exclude fs ≡ some digest
    → verify_digest sha exclude fs digest ≡ true
unfolding verify_digest
verify_digest_of sha exclude fs digest h =
    let (x, e) = content_digest_starts sha exclude fs digest h in
    rw h (rw (eq_refl digest) (rw e (rw (starts_with-append digest_prefix x) refl)))

content_digest-excluding :
    (sha : String → String) (exclude : List String) (fs payload : Fields) (digest : String)
    → excluding exclude fs ≡ payload
    → content_digest sha [] payload ≡ some digest
    → content_digest sha exclude fs ≡ some digest
unfolding content_digest
content_digest-excluding sha exclude fs payload digest same h =
    rw same (rw (excluding-nil payload) at h)

-- The document says that it is the snapshot of this identity and digest.
abbrev pub Declares : String → String → Fields → Type 0
Declares snapshot_id digest document =
    (get "snapshot_id" document ≡ str snapshot_id) × (get "snapshot_digest" document ≡ str digest)

module _ (builder : Builder) where
  excluding-with_identity :
      (key snapshot_id digest : String) (revision now : ℕ) (connectors : List Fields)
      → excluding snapshot_digest_excluded (
          with_identity builder
            (snapshot_payload builder key revision now connectors)
            snapshot_id
            digest)
        ≡ snapshot_payload builder key revision now connectors
  unfolding excluding contains put snapshot_payload
  excluding-with_identity key snapshot_id digest revision now connectors = refl

  excluding-signed :
      (key snapshot_id digest : String) (revision now : ℕ) (connectors : List Fields)
      (signature : Json)
      → excluding snapshot_digest_excluded (
          put "signature" signature (
            with_identity builder
              (snapshot_payload builder key revision now connectors)
              snapshot_id
              digest))
        ≡ snapshot_payload builder key revision now connectors
  unfolding excluding contains put snapshot_payload
  excluding-signed key snapshot_id digest revision now connectors signature = refl

  excluding-add_signature :
      (key snapshot_id digest : String) (revision now : ℕ) (connectors : List Fields)
      (signing_key : Option SigningKey) (document : Fields)
      → add_signature builder signing_key (
          with_identity builder
            (snapshot_payload builder key revision now connectors)
            snapshot_id
            digest)
        ≡ ok document
      → excluding snapshot_digest_excluded document
        ≡ snapshot_payload builder key revision now connectors
  unfolding add_signature
  excluding-add_signature key snapshot_id digest revision now connectors none document h =
      let e : with_identity builder (snapshot_payload builder key revision now connectors)
            snapshot_id digest
          ≡ document =
        ground arith in
      rw (← e) (excluding-with_identity key snapshot_id digest revision now connectors)
  excluding-add_signature key snapshot_id digest revision now connectors (some signer) document h =
      let unsigned =
        with_identity builder (snapshot_payload builder key revision now connectors) snapshot_id
          digest in
      let (signature, _, h₁) = >>=-eq-ok (sign_document builder.crypto unsigned signer) _ h in
      let e : put "signature" signature unsigned ≡ document = ground arith in
      rw (← e) (excluding-signed key snapshot_id digest revision now connectors signature)

  digest_of_built :
      (key made : String) (revision now : ℕ) (connectors : List Fields)
      (signing_key : Option SigningKey) (id snapshot_id digest : String) (signed document : Fields)
      → or_canonical_error (
          content_digest builder.outside.sha256_hex []
            (snapshot_payload builder key revision now connectors))
        ≡ ok made
      → add_signature builder signing_key
          (with_identity builder (snapshot_payload builder key revision now connectors) id made)
        ≡ ok signed
      → made ≡ digest
      → signed ≡ document
      → content_digest builder.outside.sha256_hex snapshot_digest_excluded document ≡ some digest
  digest_of_built key made revision now connectors signing_key id snapshot_id digest signed document
        hashed built same same_document =
      let payload = snapshot_payload builder key revision now connectors in
      let d =
        or_canonical_error-eq-ok (content_digest builder.outside.sha256_hex [] payload) made
          hashed in
      let excluded =
        excluding-add_signature key id made revision now connectors signing_key signed built in
      rw (← same) (
        rw (← same_document) (
          content_digest-excluding builder.outside.sha256_hex snapshot_digest_excluded signed
            payload made excluded d))

  Declares-with_identity :
      (key snapshot_id digest : String) (revision now : ℕ) (connectors : List Fields)
      → Declares snapshot_id digest (
          with_identity builder
            (snapshot_payload builder key revision now connectors)
            snapshot_id
            digest)
  unfolding get find put snapshot_payload
  Declares-with_identity key snapshot_id digest revision now connectors = (refl, refl)

  Declares-signed :
      (key snapshot_id digest : String) (revision now : ℕ) (connectors : List Fields)
      (signature : Json)
      → Declares snapshot_id digest (
          put "signature" signature (
            with_identity builder
              (snapshot_payload builder key revision now connectors)
              snapshot_id
              digest))
  unfolding get find put snapshot_payload
  Declares-signed key snapshot_id digest revision now connectors signature = (refl, refl)

  Declares-add_signature :
      (key snapshot_id digest : String) (revision now : ℕ) (connectors : List Fields)
      (signing_key : Option SigningKey) (document : Fields)
      → add_signature builder signing_key (
          with_identity builder
            (snapshot_payload builder key revision now connectors)
            snapshot_id
            digest)
        ≡ ok document
      → Declares snapshot_id digest document
  unfolding add_signature
  Declares-add_signature key snapshot_id digest revision now connectors none document h =
      let e : with_identity builder (snapshot_payload builder key revision now connectors)
            snapshot_id digest
          ≡ document =
        ground arith in
      subst (Declares snapshot_id digest) e
        (Declares-with_identity key snapshot_id digest revision now connectors)
  Declares-add_signature key snapshot_id digest revision now connectors (some signer) document h =
      let unsigned =
        with_identity builder (snapshot_payload builder key revision now connectors) snapshot_id
          digest in
      let (signature, _, h₁) = >>=-eq-ok (sign_document builder.crypto unsigned signer) _ h in
      let e : put "signature" signature unsigned ≡ document = ground arith in
      subst (Declares snapshot_id digest) e
        (Declares-signed key snapshot_id digest revision now connectors signature)

  build_snapshot_document_verifies :
      (key : String) (revision now : ℕ) (connectors : List Fields) (signing_key : Option SigningKey)
      (snapshot_id digest : String) (document : Fields)
      → build_snapshot_document builder key revision now connectors signing_key
        ≡ ok (snapshot_id, digest, document)
      → Declares snapshot_id digest document
        × (verify_digest builder.outside.sha256_hex snapshot_digest_excluded document digest ≡ true)
  unfolding build_snapshot_document
  build_snapshot_document_verifies key revision now connectors signing_key snapshot_id digest
        document h =
      let payload = snapshot_payload builder key revision now connectors in
      let sha = builder.outside.sha256_hex in
      let (made, hashed, h₁) = >>=-eq-ok (or_canonical_error (content_digest sha [] payload)) _ h in
      let (text, _, h₂) = >>=-eq-ok (or_canonical_error (canonical_json (obj payload))) _ h₁ in
      let id = "snap_" ⧺ slice (sha text) 0 32 in
      let (signed, built, e) =
        >>=-eq-ok (add_signature builder signing_key (with_identity builder payload id made)) _
          h₂ in
      let same_id : id ≡ snapshot_id = ground arith in
      let same : made ≡ digest = ground arith in
      let same_document : signed ≡ document = ground arith in
      (
        rw (← same_id, ← same, ← same_document)
            (Declares-add_signature key id made revision now connectors signing_key signed built),
        verify_digest_of sha snapshot_digest_excluded document digest (
            digest_of_built key made revision now connectors signing_key id snapshot_id digest
              signed document hashed built same same_document),
      )

  -- The row of a snapshot that was created stores the document's own identity and digest, and the document, signed
  -- or not, passes the runtime's check: the digest that it declares is the one of its content, which leaves the
  -- identity, the digest and the signature out.
  pub create_snapshot_verifies :
      (db next : Database) (key created_by : String) (selections : List SnapshotSelection)
      (signing_key : Option SigningKey) (now : ℕ) (accepted : Bool) (row : SnapshotRow)
      → create_snapshot builder db key selections created_by signing_key now accepted
        ≡ ok (row, next)
      → Declares row.snapshot_id row.snapshot_digest row.document
        × (verify_digest builder.outside.sha256_hex snapshot_digest_excluded row.document
              (declared_digest (get "snapshot_digest" row.document))
            ≡ true)
  unfolding create_snapshot
  create_snapshot_verifies db next key created_by selections signing_key now accepted row h =
      let (d, _, h₁) = >>=-eq-ok (get_deployment db key) _ h in
      let (selected, _, h₂) = >>=-eq-ok (select_documents builder db [] selections) _ h₁ in
      let connectors = sort_documents selected in
      let revision = last_revision d.snapshots + 1 in
      let (built, made, h₃) =
        >>=-eq-ok
          (build_snapshot_document builder d.deployment_key revision now connectors signing_key) _
          h₂ in
      let (_, _, h₄) =
        >>=-eq-ok (validate_deployment_snapshot builder.outside.schemas built.2) _ h₃ in
      let (_, h₅) = guard-eq-ok accepted (tool_layer already_exists) _ h₄ in
      let (same_row, _) = ok-pair h₅ in
      let (declared, verified) =
        build_snapshot_document_verifies d.deployment_key revision now connectors signing_key
          built.0 built.1 built.2 made in
      rw (← same_row) (declared, rw declared.1 verified)
