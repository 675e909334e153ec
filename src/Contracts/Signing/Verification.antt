-- ===== src/Contracts/Signing/Verification.antt =====
-- What a verified signature shows, and that a signed document verifies.
use Prim.Native.String.{count}
use toollayer_ai.Base.{
  ℕ, ◌+◌, ◌%◌, ◌<◌, not, Elem, ◌≡◌, refl, sym, ap, ◌∙◌, ◌≢◌, String, true, false, Option, none,
  some, List, [], ◌∷◌, arith, ◌==◌, eq_iff, length, Bool-cases, inl, inr,
}
use toollayer_ai.Json.{Json, str, obj, Fields, field, end, get, find, put, without, find-put}
use toollayer_ai.Contracts.Errors.{signature_error, ok, >>=-eq-ok, guard-eq-ok}
use toollayer_ai.Contracts.CanonicalJson.{◌⧺◌}
use toollayer_ai.Contracts.Signing.Padding.{equal_signs, IsBase64, padding_lem, b64u_decode-encode}
use toollayer_ai.Contracts.Signing.{
  Crypto, Bytes, VerifyingKey, SigningKey, TrustedKeyRing, find_key, signing_input, b64u_encode,
  b64u_decode, of_length, verify_message, sign_document, verify_block, verify_document, padding,
  is_text, no_keys, nonempty_text, text_value, or_signature_error, or_canonical_error,
  verify_signature, signature_algorithm, ed25519_signature_bytes,
}

without-put : (key : String) (v : Json) (fs : Fields) → without key (put key v fs) ≡ without key fs
unfolding without put
without-put key v end = ground (arith, eq_iff key key)
without-put key v (field k w fs) = ground (arith, eq_iff k key, without-put key v fs)

-- Attaching a signature does not change what it is taken over.
pub signing_input-put :
    (v : Json) (document : Fields)
    → signing_input (put "signature" v document) ≡ signing_input document
unfolding signing_input
signing_input-put v document = rw without-put

find_key-eq-some :
    (key_id : String) (keys : List VerifyingKey) {key : VerifyingKey}
    → find_key key_id keys ≡ some key
    → Elem key keys × (key.key_id ≡ key_id)
unfolding find_key
find_key-eq-some key_id [] h = cc
find_key-eq-some key_id (k ∷ keys) {key} h = elim (Bool-cases (k.key_id == key_id)) [
  | inl same ↦
      let q : some k ≡ some key = rw same at h in
      let e : k ≡ key = ground arith in (inl e, rw (← e) ((eq_iff k.key_id key_id).0 same))
  | inr other ↦
      let (in_rest, named) = find_key-eq-some key_id keys (rw other at h) in (inr in_rest, named)
]

no_keys-false :
    (key_id : String) (keys : List VerifyingKey) {key : VerifyingKey}
    → find_key key_id keys ≡ some key
    → no_keys keys ≡ false
unfolding find_key
no_keys-false key_id [] h = cc
no_keys-false key_id (k ∷ keys) h = refl

or_signature_error-eq-ok :
    {A : Type 0} (o : Option A) {a : A} → or_signature_error o ≡ ok a → o ≡ some a
or_signature_error-eq-ok none h = cc
or_signature_error-eq-ok (some x) h = ground arith

or_canonical_error-eq-ok :
    (o : Option String) {t : String} → or_canonical_error o ≡ ok t → o ≡ some t
or_canonical_error-eq-ok none h = cc
or_canonical_error-eq-ok (some x) h = ground arith

is_text-eq-true : (j : Json) (t : String) → is_text j t ≡ true → j ≡ str t
is_text-eq-true (str s) t h = ap str ((eq_iff s t).0 h)
is_text-eq-true _ t h = cc h

nonempty_text-eq-ok : (j : Json) {t : String} → nonempty_text j ≡ ok t → j ≡ str t
nonempty_text-eq-ok (str s) h = elim (Bool-cases (s == "")) [
  | inl bare ↦ absurd (ground arith)
  | inr text ↦ (let same : ok s ≡ ok _ = rw text at h in ground arith)
]
nonempty_text-eq-ok _ h = cc h

text_value-eq-ok : (j : Json) {t : String} → text_value j ≡ ok t → j ≡ str t
text_value-eq-ok (str s) h = ground arith
text_value-eq-ok _ h = cc h

module _ (crypto : Crypto) where
  -- The signature block of the document: it names the algorithm and the key, and its value, once padded, decodes to
  -- the signature.
  pub record IsSignatureBlock (document : Fields) (key_id : String) (signature : Bytes)
      : Type 0 where
    pub block : Fields
    pub carried : get "signature" document ≡ obj block
    pub algorithm : get "algorithm" block ≡ str "ed25519"
    pub key_named : get "key_id" block ≡ str key_id
    pub value : String
    pub written : get "value" block ≡ str value
    pub pads : ℕ
    pub below : pads < 4
    pub whole : (count value + pads) % 4 ≡ 0
    pub decoded : crypto.decode (value ⧺ equal_signs pads) ≡ some signature

  -- Somebody who holds the private half of a trusted key has signed this document: what
  -- authenticity means, without the code that checks it.
  pub record IsAuthentic (document : Fields) (ring : TrustedKeyRing) (key_id : String)
      : Type 0 where
    pub key : VerifyingKey
    pub trusted : Elem key ring.keys
    pub named : key.key_id ≡ key_id
    pub message : String
    pub covered : signing_input document ≡ some message
    pub signature : Bytes
    pub attached : IsSignatureBlock document key_id signature
    pub full : length signature ≡ ed25519_signature_bytes
    pub verified : crypto.verify key.public signature message ≡ true

  verify_message-eq-true :
      (key : VerifyingKey) (message : String) (signature : Bytes)
      → verify_message crypto key message signature ≡ true
      → (length signature ≡ ed25519_signature_bytes)
        × (crypto.verify key.public signature message ≡ true)
  unfolding verify_message
  verify_message-eq-true key message signature h = ground arith

  of_length-eq-some :
      (n : ℕ) (o : Option Bytes) {raw : Bytes} → of_length crypto n o ≡ some raw → o ≡ some raw
  of_length-eq-some n none h = cc
  of_length-eq-some n (some bytes) h = ground arith

  b64u_decode-eq-some :
      (value : String) (n : ℕ) {raw : Bytes}
      → b64u_decode crypto value n ≡ some raw
      → crypto.decode (value ⧺ padding (count value)) ≡ some raw
  unfolding b64u_decode
  b64u_decode-eq-some value n h = elim (Bool-cases (value == "")) [
    | inl bare ↦ absurd (ground arith)
    | inr text ↦ of_length-eq-some n _ (rw text at h)
  ]

  verify_block-IsAuthentic :
      (document block : Fields) (ring : TrustedKeyRing) (key_id : String)
      → get "signature" document ≡ obj block
      → verify_block crypto document block ring.keys ≡ ok key_id
      → IsAuthentic document ring key_id
  unfolding verify_block
  verify_block-IsAuthentic document block ring key_id carried h =
      let (algorithm, h₁) =
        guard-eq-ok (is_text (get "algorithm" block) signature_algorithm) signature_error _ h in
      let (id, read_id, h₂) = >>=-eq-ok (nonempty_text (get "key_id" block)) _ h₁ in
      let (_, h₃) = guard-eq-ok (not (no_keys ring.keys)) signature_error _ h₂ in
      let (key, found, h₄) = >>=-eq-ok (or_signature_error (find_key id ring.keys)) _ h₃ in
      let (value, read_value, h₅) = >>=-eq-ok (text_value (get "value" block)) _ h₄ in
      let (signature, decoded, h₆) =
        >>=-eq-ok (or_signature_error (b64u_decode crypto value ed25519_signature_bytes)) _ h₅ in
      let (message, input, h₇) = >>=-eq-ok (or_canonical_error (signing_input document)) _ h₆ in
      let (passed, h₈) =
        guard-eq-ok (verify_message crypto key message signature) signature_error _ h₇ in
      let (trusted, same_id) = find_key-eq-some id ring.keys (or_signature_error-eq-ok _ found) in
      let (full, verified) = verify_message-eq-true key message signature passed in
      let (pads, below, whole, padded) = padding_lem (count value) in
      let named : key.key_id ≡ key_id = ground arith in
      record {
        key = key;
        trusted = trusted;
        named = named;
        message = message;
        covered = or_canonical_error-eq-ok _ input;
        signature = signature;
        attached = record {
          block = block;
          carried = carried;
          algorithm = is_text-eq-true (get "algorithm" block) signature_algorithm algorithm;
          key_named =
              nonempty_text-eq-ok (get "key_id" block) read_id ∙ ap str (sym same_id ∙ named);
          value = value;
          written = text_value-eq-ok (get "value" block) read_value;
          pads = pads;
          below = below;
          whole = whole;
          decoded =
              ap (λ t. crypto.decode (value ⧺ t)) (sym padded)
              ∙ b64u_decode-eq-some value ed25519_signature_bytes
                  (or_signature_error-eq-ok _ decoded);
        };
        full = full;
        verified = verified;
      }

  -- A document that verifies carries a signature block, of the algorithm "ed25519", whose value, padded with "=" to a
  -- multiple of four characters, decodes to a signature of 64 bytes. The signature verifies over the whole rest of the
  -- document under a key of the ring, and the key's id is the one that the block names and that is returned.
  pub verify_document-IsAuthentic :
      (document : Fields) (ring : TrustedKeyRing) (key_id : String)
      → verify_document crypto document ring ≡ ok key_id
      → IsAuthentic document ring key_id
  unfolding verify_document
  verify_document-IsAuthentic document ring key_id h = by_block (get "signature" document) refl h
    where
      by_block :
          (b : Json)
          → get "signature" document ≡ b
          → verify_signature crypto document b ring.keys ≡ ok key_id
          → IsAuthentic document ring key_id
      by_block (obj block) e k = verify_block-IsAuthentic document block ring key_id e k
      by_block _ e k = cc k

  -- What is relied on, of the primitives, to read back the signatures of one key: a signature has 64
  -- bytes and verifies under the public half of the key, and base64 writes it as RFC 4648 says.
  pub record ReadsBack (key : SigningKey) : Type 0 where
    pub full : (m : String) → length (crypto.sign key.private m) ≡ ed25519_signature_bytes
    pub verifies :
        (m : String)
        → crypto.verify (crypto.public_key key.private) (crypto.sign key.private m) m ≡ true
    pub base64 : (m : String) → IsBase64 crypto (crypto.sign key.private m)

  module _ (key : SigningKey) (ring : TrustedKeyRing) (document : Fields) where
    abbrev trusted_half : VerifyingKey
    trusted_half = record { key_id = key.key_id; public = crypto.public_key key.private }

    block_of : String → Fields
    block_of m = field "algorithm" (str signature_algorithm) (
        field "key_id" (str key.key_id)
          (field "value" (str (b64u_encode crypto (crypto.sign key.private m))) end))

    verify_block-block_of :
        (m : String) (signed : Fields)
        → ReadsBack key
        → (key.key_id == "") ≡ false
        → find_key key.key_id ring.keys ≡ some trusted_half
        → signing_input signed ≡ some m
        → verify_block crypto signed (block_of m) ring.keys ≡ ok key.key_id
    unfolding verify_block block_of get find verify_message
    verify_block-block_of m signed laws named trusted input = rw named (
        rw trusted (
          rw
            (b64u_decode-encode crypto (crypto.sign key.private m) 63 (laws.base64 m) (laws.full m))
            (rw input (
              rw (laws.full m)
                (rw (laws.verifies m) (rw (no_keys-false key.key_id ring.keys trusted)))))))

    get_signature : (v : Json) → get "signature" (put "signature" v document) ≡ v
    unfolding get
    get_signature v = rw (find-put "signature" "signature" v document)

    -- A document that was signed verifies, once the signature is attached, and names the key, for a ring that
    -- finds the public half of the key under its name, which is not empty; the primitives verify what they
    -- sign with that key, 64 bytes each time, and base64 writes those bytes as RFC 4648 says.
    pub verify_document-sign_document :
        (signature : Json)
        → ReadsBack key
        → key.key_id ≢ ""
        → find_key key.key_id ring.keys ≡ some trusted_half
        → sign_document crypto document key ≡ ok signature
        → verify_document crypto (put "signature" signature document) ring ≡ ok key.key_id
    unfolding verify_document sign_document
    verify_document-sign_document signature laws named trusted signed =
        let (m, input, e) = >>=-eq-ok (or_canonical_error (signing_input document)) _ signed in
        let unnamed : (key.key_id == "") ≡ false = ground (arith, eq_iff key.key_id "") in
        let attached : signature ≡ obj (block_of m) = unfold block_of in ground arith in
        rw (get_signature signature) (
          rw attached (
            verify_block-block_of m (put "signature" (obj (block_of m)) document) laws unnamed
              trusted
              (signing_input-put (obj (block_of m)) document ∙ or_canonical_error-eq-ok _ input)))
