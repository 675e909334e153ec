-- ===== src/Contracts/Signing.antt =====
-- signing.py: the producer's signature on a document. The Ed25519 primitives and the standard
-- library's base64 are a parameter; a key is its raw bytes and a message is its text. Reading keys
-- from configuration is not modelled here.
pub mod Padding
pub mod Verification
use Prim.Native.Char.{code}
use Prim.Native.String
use Prim.Native.String.{count}
use toollayer_ai.Base.{
  ℕ, ◌+◌, ◌-◌, ◌%◌, String, Bool, true, false, not, ◌&&◌, Option, none, some, List, [], ◌∷◌, eqb,
  ◌==◌, length, if◌then◌else◌,
}
use toollayer_ai.Json.{Json, null, str, obj, Fields, end, field, get, without}
use toollayer_ai.Contracts.Errors.{
  Failure, signature_error, canonical_json_error, Result, ok, err, ◌>>=◌, ◌>>◌, guard,
}
use toollayer_ai.Contracts.CanonicalJson.{◌⧺◌, canonical_json}

abbrev pub Bytes : Type 0
Bytes = List ℕ

abbrev pub signature_algorithm : String
signature_algorithm = "ed25519"

abbrev pub ed25519_signature_bytes : ℕ
ed25519_signature_bytes = 64

-- `base64.urlsafe_b64encode`, `base64.urlsafe_b64decode` (`none` where it raises), and the methods of
-- the Ed25519 keys of the `cryptography` package.
pub record Crypto : Type 0 where
  pub encode : Bytes → String
  pub decode : String → Option Bytes
  pub public_key : Bytes → Bytes
  pub sign : Bytes → String → Bytes
  pub verify : Bytes → Bytes → String → Bool

pub record VerifyingKey : Type 0 where
  pub key_id : String
  pub public : Bytes

pub record SigningKey : Type 0 where
  pub key_id : String
  pub private : Bytes

pub record TrustedKeyRing : Type 0 where
  pub keys : List VerifyingKey

-- `ring.find(key_id)`
unfoldable pub find_key : String → List VerifyingKey → Option VerifyingKey
find_key key_id [] = none
find_key key_id (key ∷ keys) = if key.key_id == key_id then some key else find_key key_id keys

abbrev pub no_keys : List VerifyingKey → Bool
no_keys [] = true
no_keys (_ ∷ _) = false

-- `text.rstrip("=")`
unfoldable pub strip_padding : String → String
strip_padding String.[] = ""
strip_padding (String.◌∷◌ c s) =
    let rest = strip_padding s in if eqb (code c) b'=' && rest == "" then "" else String.◌∷◌ c rest

-- `"=" * (-length % 4)`
abbrev pub padding : ℕ → String
padding n =
    let r = n % 4 in
    if eqb r 0 then "" else if eqb r 1 then "===" else if eqb r 2 then "==" else "="

abbrev pub or_signature_error {ℓ} : {A : Type ℓ} → Option A → Result A
or_signature_error none = err signature_error
or_signature_error (some a) = ok a

-- `signing_input`, as text
unfoldable pub signing_input : Fields → Option String
signing_input document = canonical_json (obj (without "signature" document))

abbrev pub or_canonical_error : Option String → Result String
or_canonical_error none = err canonical_json_error
or_canonical_error (some text) = ok text

abbrev pub is_text : Json → String → Bool
is_text (str s) t = s == t
is_text _ t = false

-- A non-empty text, where `isinstance(key_id, str)` and `key_id` are tested.
abbrev pub nonempty_text : Json → Result String
nonempty_text (str s) = if s == "" then err signature_error else ok s
nonempty_text _ = err signature_error

abbrev pub text_value : Json → Result String
text_value (str s) = ok s
text_value _ = err signature_error

module _ (crypto : Crypto) where
  unfoldable pub b64u_encode : Bytes → String
  b64u_encode raw = strip_padding (crypto.encode raw)

  abbrev pub of_length : ℕ → Option Bytes → Option Bytes
  of_length n none = none
  of_length n (some raw) = if eqb (length raw) n then some raw else none

  -- `b64u_decode(value, expected_length=n)`; `none` is `InvalidKeyMaterial`.
  unfoldable pub b64u_decode : String → ℕ → Option Bytes
  b64u_decode value n =
      if value == "" then none else of_length n (crypto.decode (value ⧺ padding (count value)))

  -- `key.verify(message, signature)`
  unfoldable pub verify_message : VerifyingKey → String → Bytes → Bool
  verify_message key message signature =
      eqb (length signature) ed25519_signature_bytes && crypto.verify key.public signature message

  unfoldable pub sign_document : Fields → SigningKey → Result Json
  sign_document document key = do
    message ← or_canonical_error (signing_input document)
    ok (
        obj (
          field "algorithm" (str signature_algorithm) (
            field "key_id" (str key.key_id)
              (field "value" (str (b64u_encode (crypto.sign key.private message))) end))))

  -- `verify_document`, once the signature block is an object
  unfoldable pub verify_block : Fields → Fields → List VerifyingKey → Result String
  verify_block document block keys = do
    guard (is_text (get "algorithm" block) signature_algorithm) signature_error
    key_id ← nonempty_text (get "key_id" block)
    guard (not (no_keys keys)) signature_error
    key ← or_signature_error (find_key key_id keys)
    value ← text_value (get "value" block)
    signature ← or_signature_error (b64u_decode value ed25519_signature_bytes)
    message ← or_canonical_error (signing_input document)
    guard (verify_message key message signature) signature_error
    ok key.key_id

  abbrev pub verify_signature : Fields → Json → List VerifyingKey → Result String
  verify_signature document (obj block) keys = verify_block document block keys
  verify_signature document _ keys = err signature_error

  unfoldable pub verify_document : Fields → TrustedKeyRing → Result String
  verify_document document ring = verify_signature document (get "signature" document) ring.keys
