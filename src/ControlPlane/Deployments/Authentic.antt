-- ===== src/ControlPlane/Deployments/Authentic.antt =====
-- The signature of a snapshot that service.py creates, against the ring of a runtime that trusts it.
use Prim.Native.String.{slice}
use toollayer_ai.Base.{ℕ, ◌≡◌, ◌≢◌, String, some, List, [], arith}
use toollayer_ai.Json.{obj, Fields, put}
use toollayer_ai.Contracts.Errors.{ok, >>=-eq-ok}
use toollayer_ai.Contracts.CanonicalJson.{◌⧺◌, canonical_json, content_digest}
use toollayer_ai.Contracts.Signing.{
  SigningKey, TrustedKeyRing, find_key, sign_document, verify_document,
}
use toollayer_ai.Contracts.Signing.Verification.{ReadsBack, verify_document-sign_document}
use toollayer_ai.ControlPlane.Publication.{or_canonical_error}
use toollayer_ai.ControlPlane.Deployments.{
  Builder, snapshot_payload, with_identity, add_signature, build_snapshot_document,
}

module _ (builder : Builder) (key : SigningKey) (ring : TrustedKeyRing) where
  add_signature-verifies :
      (unsigned document : Fields)
      → ReadsBack builder.crypto key
      → key.key_id ≢ ""
      → find_key key.key_id ring.keys
        ≡ some (record { key_id = key.key_id; public = builder.crypto.public_key key.private })
      → add_signature builder (some key) unsigned ≡ ok document
      → verify_document builder.crypto document ring ≡ ok key.key_id
  unfolding add_signature
  add_signature-verifies unsigned document laws named trusted h =
      let (signature, signed, h₁) = >>=-eq-ok (sign_document builder.crypto unsigned key) _ h in
      let e : put "signature" signature unsigned ≡ document = ground arith in
      rw (← e) (
        verify_document-sign_document builder.crypto key ring unsigned signature laws named trusted
          signed)

  -- A snapshot document that is built with a signing key verifies, and names that key, for a runtime whose
  -- ring finds the public half of the key under its name, which is not empty; the primitives verify what they
  -- sign with that key, 64 bytes each time, and base64 writes those bytes as RFC 4648 says.
  pub build_snapshot_document-verify_document :
      (deployment_key : String) (revision now : ℕ) (connectors : List Fields)
      (snapshot_id digest : String) (document : Fields)
      → ReadsBack builder.crypto key
      → key.key_id ≢ ""
      → find_key key.key_id ring.keys
        ≡ some (record { key_id = key.key_id; public = builder.crypto.public_key key.private })
      → build_snapshot_document builder deployment_key revision now connectors (some key)
        ≡ ok (snapshot_id, digest, document)
      → verify_document builder.crypto document ring ≡ ok key.key_id
  unfolding build_snapshot_document
  build_snapshot_document-verify_document deployment_key revision now connectors snapshot_id digest
        document laws named trusted h =
      let payload = snapshot_payload builder deployment_key revision now connectors in
      let sha = builder.outside.sha256_hex in
      let (made, _, h₁) = >>=-eq-ok (or_canonical_error (content_digest sha [] payload)) _ h in
      let (text, _, h₂) = >>=-eq-ok (or_canonical_error (canonical_json (obj payload))) _ h₁ in
      let unsigned = with_identity builder payload ("snap_" ⧺ slice (sha text) 0 32) made in
      let (signed, added, e) = >>=-eq-ok (add_signature builder (some key) unsigned) _ h₂ in
      let same : signed ≡ document = ground arith in
      rw (← same) (add_signature-verifies unsigned signed laws named trusted added)
