-- ===== src/Contracts/Signing/Padding.antt =====
-- The padding of base64 texts, which signing.py takes off and puts back.
use Prim.Native.Char.{code}
use Prim.Native.String.{count}
use text.Mathlib.TextLemmas.{nil-append, cons-append}
use toollayer_ai.Base.{
  ℕ, zero, suc, ◌+◌, ◌*◌, ◌/◌, ◌%◌, ◌<◌, ◌≡◌, refl, sym, ap, inl, inr, String, Bool, true, false,
  not, ◌&&◌, some, arith, eqb, ◌==◌, eq_iff, length, Bool-cases,
}
use toollayer_ai.Contracts.CanonicalJson.{◌⧺◌}
use toollayer_ai.Contracts.Signing.{Bytes, Crypto, strip_padding, padding, b64u_encode, b64u_decode}

-- A text of this many signs "=".
abbrev pub equal_signs : ℕ → String
equal_signs zero = ""
equal_signs (suc n) = String.◌∷◌ "=" (equal_signs n)

-- No character of the text is "=".
unfoldable pub no_equal_signs : String → Bool
no_equal_signs String.[] = true
no_equal_signs (String.◌∷◌ c s) = not (eqb (code c) b'=') && no_equal_signs s

-- What RFC 4648 says of the encoding of these bytes: four characters for each three bytes begun, of which the last
-- two at most are the padding "="; and decoding gives the bytes.
pub record IsBase64 (crypto : Crypto) (raw : Bytes) : Type 0 where
  pub digits : String
  pub pads : ℕ
  pub written : crypto.encode raw ≡ digits ⧺ equal_signs pads
  pub plain : no_equal_signs digits ≡ true
  pub few : pads < 3
  pub long : count digits + pads ≡ 4 * ((length raw + 2) / 3)
  pub decodes : crypto.decode (crypto.encode raw) ≡ some raw

strip_padding-equal_signs : (n : ℕ) → strip_padding (equal_signs n) ≡ ""
unfolding strip_padding
strip_padding-equal_signs zero = refl
strip_padding-equal_signs (suc n) = rw (strip_padding-equal_signs n) refl

-- Stripping takes the padding off and nothing else.
strip_padding-append :
    (digits : String) (n : ℕ)
    → no_equal_signs digits ≡ true
    → strip_padding (digits ⧺ equal_signs n) ≡ digits
unfolding strip_padding no_equal_signs
strip_padding-append String.[] n h = rw nil-append (strip_padding-equal_signs n)
strip_padding-append (String.◌∷◌ c s) n h =
    rw cons-append (ground (arith, strip_padding-append s n))

-- The padding that is put back makes the length a multiple of four, with three signs at most.
pub padding_lem :
    (n : ℕ) → (pads : ℕ) × (pads < 4) × ((n + pads) % 4 ≡ 0) × (padding n ≡ equal_signs pads)
padding_lem n = elim (Bool-cases (eqb (n % 4) 0)) [
  | inl e ↦ (0, omega arith, ground arith, rw e refl)
  | inr other ↦ elim (Bool-cases (eqb (n % 4) 1)) [
    | inl e ↦ (3, omega arith, ground arith, rw (other, e) refl)
    | inr more ↦ elim (Bool-cases (eqb (n % 4) 2)) [
      | inl e ↦ (2, omega arith, ground arith, rw (other, more, e) refl)
      | inr last ↦ (1, omega arith, ground arith, rw (other, more, last) refl)
    ]
  ]
]

nonempty_count : (s : String) → 0 < count s → (s == "") ≡ false
nonempty_count s h = elim (Bool-cases (s == "")) [
  | inl e ↦
      let empty : count s ≡ 0 = ap count ((eq_iff s "").0 e) in absurd (omega (arith, empty, h))
  | inr other ↦ other
]

-- A text that was encoded and stripped decodes to its bytes, of which there is one at least.
pub b64u_decode-encode :
    (crypto : Crypto) (raw : Bytes) (n : ℕ)
    → IsBase64 crypto raw
    → length raw ≡ suc n
    → b64u_decode crypto (b64u_encode crypto raw) (suc n) ≡ some raw
unfolding b64u_decode b64u_encode
b64u_decode-encode crypto raw n law full =
    let (pads, below, whole, padded) = padding_lem (count law.digits) in
    let same : pads ≡ law.pads = omega (arith, law.long, law.few) in
    let stripped : strip_padding (crypto.encode raw) ≡ law.digits =
      rw law.written (strip_padding-append law.digits law.pads law.plain) in
    let back : law.digits ⧺ padding (count law.digits) ≡ crypto.encode raw =
      rw (padded, same) (sym law.written) in
    let some_digits : (law.digits == "") ≡ false =
      nonempty_count law.digits (omega (arith, law.long, law.few, full)) in
    rw stripped (rw (some_digits, back, law.decodes, full) (ground arith))
