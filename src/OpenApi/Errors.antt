-- ===== src/OpenApi/Errors.antt =====
-- errors.py of the converter: diagnostics, and the exceptions with the pointers that they carry.
use toollayer_ai.Base.{String, Bool, true, false, ◌≡◌, refl, Option, none, some}

-- `Severity`
pub data Severity : Type 0 where
  error warning : Severity

pub record Diagnostic : Type 0 where
  pub code : String
  pub pointer : String
  pub severity : Severity
  pub operation_key : Option String

-- The three subclasses of `ConversionError`, with their pointer, and any other `ValueError`.
pub data Failure : Type 0 where
  invalid_document unsupported_feature document_too_large : String → Failure
  value_error : Failure

pub data Result {ℓ} (Value : Type ℓ) : Type ℓ where
  err : Failure → Result Value
  ok : Value → Result Value

-- `ConversionError.as_diagnostic`; `none` is an exception of another class.
unfoldable pub as_diagnostic : Option String → Failure → Option Diagnostic
as_diagnostic key (invalid_document pointer) = some (record {
  code = "invalid_source_document";
  pointer = pointer;
  severity = error;
  operation_key = key;
})
as_diagnostic key (unsupported_feature pointer) = some (record {
  code = "unsupported_spec_feature";
  pointer = pointer;
  severity = error;
  operation_key = key;
})
as_diagnostic key (document_too_large pointer) =
    some (record {
      code = "source_too_large";
      pointer = pointer;
      severity = error;
      operation_key = key;
    })
as_diagnostic key value_error = none

-- `if not test: raise failure`
abbrev pub guard : Bool → Failure → Result (Unit {0})
guard false failure = err failure
guard true failure = ok tt

infixl 5 ◌>>=◌ ◌>>◌
abbrev pub ◌>>=◌ {κ ℓ} :
    {Value : Type κ} {Next : Type ℓ} → Result Value → (Value → Result Next) → Result Next
err failure >>= rest = err failure
ok value >>= rest = rest value

abbrev pub ◌>>◌ {ℓ} : {Next : Type ℓ} → Result (Unit {0}) → Result Next → Result Next
check >> rest = check >>= λ done. rest

-- A sequence that ends well: its first statement gave a value, and the others ended well on it.
pub >>=-eq-ok {κ ℓ} :
    {Value : Type κ} {Next : Type ℓ} (first : Result Value) (rest : Value → Result Next)
    {end : Next}
    → (first >>= rest) ≡ ok end
    → (value : Value) × (first ≡ ok value) × (rest value ≡ ok end)
>>=-eq-ok (err failure) rest ended = cc
>>=-eq-ok (ok value) rest ended = (value, refl, ended)

pub guard-eq-ok {ℓ} :
    {Next : Type ℓ} (test : Bool) (failure : Failure) (rest : Result Next) {end : Next}
    → (guard test failure >> rest) ≡ ok end
    → (test ≡ true) × (rest ≡ ok end)
guard-eq-ok false failure rest ended = cc
guard-eq-ok true failure rest ended = (refl, ended)
