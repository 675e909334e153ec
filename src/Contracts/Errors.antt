-- ===== src/Contracts/Errors.antt =====
-- errors.py: the stable error codes, their HTTP status, and the exceptions of the services.
-- A caller branches on the code and never on the message, so an exception of the `ToolLayerError`
-- family is its code; messages and pointers are left out.
use toollayer_ai.Base.{ℕ, ◌≡◌, refl, Bool, true, false}

pub data ErrorCode : Type 0 where
  invalid_request contract_violation unsupported_contract_version : ErrorCode
  invalid_source_document unsupported_spec_feature source_too_large : ErrorCode
  not_found already_exists revision_conflict immutable_version : ErrorCode
  invalid_lifecycle_transition not_ready_for_publication : ErrorCode
  unauthenticated forbidden role_not_permitted : ErrorCode
  snapshot_unavailable snapshot_integrity_failed snapshot_signature_invalid : ErrorCode
  unknown_tool argument_validation_failed no_tool_selected confirmation_required : ErrorCode
  destination_not_allowed method_not_allowed private_address_blocked : ErrorCode
  redirect_not_allowed response_too_large upstream_timeout upstream_unavailable : ErrorCode
  internal_error : ErrorCode

unfoldable pub status_for : ErrorCode → ℕ
status_for invalid_request = 400
status_for contract_violation = 422
status_for unsupported_contract_version = 409
status_for invalid_source_document = 422
status_for unsupported_spec_feature = 422
status_for source_too_large = 413
status_for not_found = 404
status_for already_exists = 409
status_for revision_conflict = 409
status_for immutable_version = 409
status_for invalid_lifecycle_transition = 409
status_for not_ready_for_publication = 422
status_for unauthenticated = 401
status_for forbidden = 403
status_for role_not_permitted = 403
status_for snapshot_unavailable = 503
status_for snapshot_integrity_failed = 502
status_for snapshot_signature_invalid = 502
status_for unknown_tool = 404
status_for argument_validation_failed = 422
status_for no_tool_selected = 422
status_for confirmation_required = 409
status_for destination_not_allowed = 403
status_for method_not_allowed = 403
status_for private_address_blocked = 403
status_for redirect_not_allowed = 502
status_for response_too_large = 502
status_for upstream_timeout = 504
status_for upstream_unavailable = 502
status_for internal_error = 500

-- What a function of the source may raise: a `ToolLayerError` by its code, the subclasses of
-- `ValueError` that the model meets, any other `ValueError`, a `TypeError` and an `AssertionError`.
pub data Failure : Type 0 where
  tool_layer : ErrorCode → Failure
  incompatible_version tool_policy_error signature_error canonical_json_error : Failure
  value_error type_error key_error assertion_error : Failure

pub data Result {ℓ} (Value : Type ℓ) : Type ℓ where
  err : Failure → Result Value
  ok : Value → Result Value

-- `if not test: raise failure`
abbrev pub guard : Bool → Failure → Result (Unit {0})
guard false failure = err failure
guard true failure = ok tt

infixl 5 ◌>>=◌ ◌>>◌
-- The statements after one that may raise.
abbrev pub ◌>>=◌ {κ ℓ} :
    {Value : Type κ} {Next : Type ℓ} → Result Value → (Value → Result Next) → Result Next
err failure >>= rest = err failure
ok value >>= rest = rest value

abbrev pub ◌>>◌ {ℓ} : {Next : Type ℓ} → Result (Unit {0}) → Result Next → Result Next
check >> rest = check >>= λ done. rest

-- A sequence that ends well: its first statement gave a value, and the others ended well on it.
pub >>=-eq-ok {κ ℓ} :
    {Value : Type κ} {Next : Type ℓ} (first : Result Value) (rest : Value → Result Next)
    {end : Next}
    → (first >>= rest) ≡ ok end
    → (value : Value) × (first ≡ ok value) × (rest value ≡ ok end)
>>=-eq-ok (err failure) rest ended = cc
>>=-eq-ok (ok value) rest ended = (value, refl, ended)

-- Inversion of a guard: the test passed, and the rest gave the result.
pub guard-eq-ok {ℓ} :
    {Next : Type ℓ} (test : Bool) (failure : Failure) (rest : Result Next) {end : Next}
    → (guard test failure >> rest) ≡ ok end
    → (test ≡ true) × (rest ≡ ok end)
guard-eq-ok false failure rest ended = cc
guard-eq-ok true failure rest ended = (refl, ended)

pub ok-pair {ℓ κ} :
    {A : Type ℓ} {B : Type κ} {p q : A × B} → ok p ≡ ok q → (p.0 ≡ q.0) × (p.1 ≡ q.1)
ok-pair {A = A} {B = B} {p = p} h = (λ i. (value (h i)).0, λ i. (value (h i)).1)
  where
    value : Result (A × B) → A × B
    value (ok r) = r
    value (err e) = p
