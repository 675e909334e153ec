-- ===== src/Runtime/Snapshot/Loading.antt =====
-- What a loaded snapshot has passed, and how a missing or wrong signature is refused.
use toollayer_ai.Base.{
  ℕ, ◌≤◌, ◌≡◌, refl, ap, subst, ◌∙◌, inl, inr, ◌⊎◌, String, true, Bool-cases, Option, none, some,
  arith,
}
use toollayer_ai.Json.{Json, null, obj, Fields, get}
use toollayer_ai.Contracts.Errors.{
  tool_layer, snapshot_integrity_failed, incompatible_version, signature_error, Result, ok, err,
  >>=-eq-ok, guard-eq-ok,
}
use toollayer_ai.Contracts.Version.{ContractVersion, parse_version, require_supported}
use toollayer_ai.Contracts.Version.Support.{require_supported-eq-ok_iff}
use toollayer_ai.Contracts.CanonicalJson.{snapshot_digest_excluded, verify_digest}
use toollayer_ai.Contracts.Signing.{verify_document}
use toollayer_ai.Contracts.Signing.Verification.{IsAuthentic, verify_document-IsAuthentic}
use toollayer_ai.Contracts.Validation.{validate_deployment_snapshot}
use toollayer_ai.Contracts.Models.{DeploymentSnapshot, check_snapshot}
use toollayer_ai.Runtime.Snapshot.{
  VerificationMode, required, disabled, SnapshotVerification, LoadedSnapshot, Environment, is_null,
  declared_digest, version_failure, signature_failure, or_value_error, check_connectors,
  check_producer, validate_model, index_snapshot, load_object, load_snapshot_document,
}

version_failure-eq-ok :
    (r : Result ContractVersion) {u : Unit {0}}
    → version_failure r ≡ ok u
    → (v : ContractVersion) × (r ≡ ok v)
version_failure-eq-ok (ok v) h = (v, refl)
version_failure-eq-ok (err incompatible_version) h = cc
version_failure-eq-ok (err _) h = cc

signature_failure-eq-ok :
    (r : Result String) {o : Option String}
    → signature_failure r ≡ ok o
    → (key_id : String) × (r ≡ ok key_id) × (o ≡ some key_id)
signature_failure-eq-ok (ok key_id) h = (key_id, refl, ground arith)
signature_failure-eq-ok (err signature_error) h = cc
signature_failure-eq-ok (err _) h = cc

is_null-eq-true : (j : Json) → is_null j ≡ true → j ≡ null
is_null-eq-true null h = refl
is_null-eq-true _ h = cc

ok-injective : {a : Option String} → ok none ≡ ok a → a ≡ none
ok-injective h = ground arith

or_value_error-eq-ok :
    (o : Option DeploymentSnapshot) {a : DeploymentSnapshot} → or_value_error o ≡ ok a → o ≡ some a
or_value_error-eq-ok none h = cc
or_value_error-eq-ok (some x) h = ground arith

module _ (env : Environment) (verification : SnapshotVerification) (document : Fields) where
  -- The producer is known by a key of the ring; or nobody is asked to be: the mode is `disabled` and
  -- the document carries no signature at all.
  abbrev pub IsAccepted : Option String → Type 0
  IsAccepted signer =
      ((key_id : String) × (signer ≡ some key_id)
        × IsAuthentic env.crypto document verification.trusted_keys key_id)
      ⊎ ((signer ≡ none) × (verification.mode ≡ disabled) × (get "signature" document ≡ null))

  -- The checks that stand between a document and the snapshot that is served.
  pub record IsVerified (loaded : LoadedSnapshot) : Type 0 where
    pub version : ContractVersion
    pub declared : parse_version (get "contract_version" document) ≡ ok version
    pub major_line : version.major ≡ 1
    pub not_newer : version.minor ≤ 1
    pub valid : validate_deployment_snapshot env.schemas document ≡ ok tt
    pub intact :
        verify_digest env.sha256_hex snapshot_digest_excluded document
          (declared_digest (get "snapshot_digest" document))
        ≡ true
    pub accepted : IsAccepted loaded.signing_key_id
    pub model : env.read_model document ≡ some loaded.snapshot
    pub connectors_checked : check_connectors loaded.snapshot.connectors ≡ ok tt
    pub snapshot_checked : check_snapshot loaded.snapshot ≡ ok tt
    pub indexed : index_snapshot loaded.snapshot ≡ ok loaded.tools_by_name

  verified_signer :
      (signer : Option String)
      → signature_failure (verify_document env.crypto document verification.trusted_keys)
        ≡ ok signer
      → IsAccepted signer
  verified_signer signer h =
      let (key_id, verified, e) = signature_failure-eq-ok _ h in
      inl (
        key_id,
        e,
        verify_document-IsAuthentic env.crypto document verification.trusted_keys key_id verified,
      )

  check_producer-IsAccepted :
      (signer : Option String)
      → check_producer env verification document ≡ ok signer
      → IsAccepted signer
  unfolding check_producer
  check_producer-IsAccepted signer h = by_mode verification.mode refl
    where
      by_mode : (m : VerificationMode) → verification.mode ≡ m → IsAccepted signer
      by_mode required e = verified_signer signer (rw (e, check_producer) at h)
      by_mode disabled e = elim (Bool-cases (is_null (get "signature" document))) [
        | inl absent ↦
            let unsigned : ok none ≡ ok signer = rw absent at (rw (e, check_producer) at h) in
            inr (ok-injective unsigned, e, is_null-eq-true _ absent)
        | inr present ↦ verified_signer signer (rw present at (rw (e, check_producer) at h))
      ]

  -- What pydantic reads from the document, with the validators that passed on it.
  abbrev IsModel : DeploymentSnapshot → Type 0
  IsModel snapshot =
      (env.read_model document ≡ some snapshot)
      × (check_connectors snapshot.connectors ≡ ok tt)
      × (check_snapshot snapshot ≡ ok tt)

  validate_model-IsModel :
      (snapshot : DeploymentSnapshot) → validate_model env document ≡ ok snapshot → IsModel snapshot
  unfolding validate_model
  validate_model-IsModel snapshot h =
      let (s, read, h₁) = >>=-eq-ok (or_value_error (env.read_model document)) _ h in
      let (_, connectors, h₂) = >>=-eq-ok (check_connectors s.connectors) _ h₁ in
      let (_, whole, h₃) = >>=-eq-ok (check_snapshot s) _ h₂ in
      let e : s ≡ snapshot = ground arith in
      subst IsModel e (or_value_error-eq-ok _ read, connectors, whole)

  load_object-IsVerified :
      (etag : Option String) (now : ℕ) (loaded : LoadedSnapshot)
      → load_object env document etag verification now ≡ ok loaded
      → IsVerified loaded
  unfolding load_object
  load_object-IsVerified etag now loaded h =
      let (_, supported, h₁) =
        >>=-eq-ok (version_failure (require_supported (get "contract_version" document))) _ h in
      let (_, valid, h₂) = >>=-eq-ok (validate_deployment_snapshot env.schemas document) _ h₁ in
      let (intact, h₃) =
        guard-eq-ok
          (verify_digest env.sha256_hex snapshot_digest_excluded document
            (declared_digest (get "snapshot_digest" document)))
          (tool_layer snapshot_integrity_failed) _ h₂ in
      let (signer, accepted, h₄) = >>=-eq-ok (check_producer env verification document) _ h₃ in
      let (snapshot, model, h₅) = >>=-eq-ok (validate_model env document) _ h₄ in
      let (_, _, h₆) = >>=-eq-ok (check_connectors snapshot.connectors) _ h₅ in
      let (index, indexed, h₇) = >>=-eq-ok (index_snapshot snapshot) _ h₆ in
      let (version, required_version) = version_failure-eq-ok _ supported in
      let (declared, major_line, not_newer) =
        (require_supported-eq-ok_iff (get "contract_version" document) version).0
          required_version in
      let same_signer : signer ≡ loaded.signing_key_id = ground arith in
      let same_snapshot : snapshot ≡ loaded.snapshot = ground arith in
      let same_index : index ≡ loaded.tools_by_name = ground arith in
      let read : IsModel loaded.snapshot =
        subst IsModel same_snapshot (validate_model-IsModel snapshot model) in
      record {
        version = version;
        declared = declared;
        major_line = major_line;
        not_newer = not_newer;
        valid = valid;
        intact = intact;
        accepted = rw (← same_signer) (check_producer-IsAccepted signer accepted);
        model = read.0;
        connectors_checked = read.1;
        snapshot_checked = read.2;
        indexed = rw (← same_snapshot) (indexed ∙ ap ok same_index);
      }

-- Whatever document is given, a snapshot that loads has passed every check: its contract version is
-- of the supported line, it validates, its digest is that of its content, its producer is
-- authenticated (or the mode is `disabled` and there is no signature), the validators of its models accept it, and
-- its index is that of the snapshot which the document describes.
pub load_snapshot_document-IsVerified :
    (env : Environment) (verification : SnapshotVerification) (document : Json)
    (etag : Option String) (now : ℕ) (loaded : LoadedSnapshot)
    → load_snapshot_document env document etag verification now ≡ ok loaded
    → (fields : Fields) × (document ≡ obj fields) × IsVerified env verification fields loaded
unfolding load_snapshot_document
load_snapshot_document-IsVerified env verification (obj fields) etag now loaded h =
    (fields, refl, load_object-IsVerified env verification fields etag now loaded h)
load_snapshot_document-IsVerified env verification _ etag now loaded h = cc
