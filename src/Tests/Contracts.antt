-- ===== src/Tests/Contracts.antt =====
-- The theorems on the contracts, at concrete documents and versions.
use Prim.Native.Nat.{Ordering}
use toollayer_ai.Base.{
  arith, ◌≡◌, refl, ◌↔◌, ◌≢◌, ◌≤◌, eq_iff, ◌==◌, String, true, none, some, List, [], ◌∷◌,
}
use toollayer_ai.Json.{Json, str, obj, Fields, end, field, put, get}
use toollayer_ai.Contracts.Errors.{ok}
use toollayer_ai.Contracts.Version.{
  ContractVersion, parse_version, require_supported, compare_precedence,
}
use toollayer_ai.Contracts.Version.Text.{parse_version-to_string}
use toollayer_ai.Contracts.Version.{to_string}
use toollayer_ai.Contracts.CanonicalJson.{canonical_json}
use toollayer_ai.Contracts.CanonicalJson.Reordering.{Same, in_object, swap, canonical_json-Same}
use toollayer_ai.Contracts.Signing.{find_key, sign_document, verify_document}
use toollayer_ai.Contracts.Signing.Padding.{no_equal_signs, IsBase64}
use toollayer_ai.Contracts.Signing.Verification.{
  IsAuthentic, ReadsBack, verify_document-IsAuthentic, verify_document-sign_document,
}
use toollayer_ai.Contracts.Models.{make_access_policy, ToolAccessPolicy}
use toollayer_ai.Contracts.Validation.{validate_deployment_snapshot, list_of}
use toollayer_ai.Contracts.Validation.Semantics.{
  HasFreshTexts, AllServable, validate_deployment_snapshot_sound,
}
use toollayer_ai.Tests.World.{
  crypto, schemas, signer, signature_text, ring, unsigned_fields, signed_fields, signature_block,
}

abbrev release : ContractVersion
release = record { major = 1; minor = 0; patch = 0; prerelease = none }

abbrev candidate : ContractVersion
candidate = record { major = 1; minor = 0; patch = 0; prerelease = some "rc.1" }

abbrev next_release : ContractVersion
next_release = record { major = 1; minor = 1; patch = 0; prerelease = none }

parse-candidate : parse_version (str "1.0.0-rc.1") ≡ ok candidate
unfolding parse_version toollayer_ai.Contracts.Version.parse_text
    toollayer_ai.Contracts.Version.match_semver toollayer_ai.Contracts.Version.read_tail
    toollayer_ai.Contracts.Version.read_prerelease toollayer_ai.Base.read_number
    toollayer_ai.Base.digits
parse-candidate = refl

candidate_before_release : compare_precedence candidate release ≡ Ordering.lt
unfolding compare_precedence
candidate_before_release = refl

release_before_next : compare_precedence release next_release ≡ Ordering.lt
unfolding compare_precedence
release_before_next = refl

parse_version-to_string_example : parse_version (str (to_string candidate)) ≡ ok candidate
parse_version-to_string_example =
    parse_version-to_string (str "1.0.0-rc.1") candidate parse-candidate

abbrev one_way : Fields
one_way = field "a" (str "1") (field "b" (str "2") end)

abbrev other_way : Fields
other_way = field "b" (str "2") (field "a" (str "1") end)

apart : ◌≢◌ {A = String} "a" "b"
apart e = let h : "a" == "b" ≡ true = (eq_iff "a" "b").1 e in cc h

reordered : Same (obj one_way) (obj other_way)
reordered = in_object (swap "a" "b" (str "1") (str "2") end apart)

canonical_json-Same_example : canonical_json (obj one_way) ≡ canonical_json (obj other_way)
canonical_json-Same_example = canonical_json-Same reordered

sign_unsigned : sign_document crypto unsigned_fields signer ≡ ok signature_block
unfolding sign_document toollayer_ai.Contracts.Signing.signing_input
    toollayer_ai.Contracts.Signing.b64u_encode toollayer_ai.Contracts.Signing.strip_padding
    toollayer_ai.Json.without canonical_json toollayer_ai.Contracts.CanonicalJson.serializable
sign_unsigned = refl

verify_signed : verify_document crypto signed_fields ring ≡ ok "cp-1"
unfolding verify_document toollayer_ai.Contracts.Signing.verify_block
    toollayer_ai.Contracts.Signing.verify_message toollayer_ai.Contracts.Signing.find_key
    toollayer_ai.Contracts.Signing.b64u_decode toollayer_ai.Contracts.Signing.signing_input
    toollayer_ai.Json.find toollayer_ai.Json.get toollayer_ai.Json.without canonical_json
    toollayer_ai.Contracts.CanonicalJson.serializable
verify_signed = refl

verify_document-IsAuthentic_example : IsAuthentic crypto signed_fields ring "cp-1"
verify_document-IsAuthentic_example =
    verify_document-IsAuthentic crypto signed_fields ring "cp-1" verify_signed

IsBase64-zeros : IsBase64 crypto (crypto.sign signer.private "")
unfolding no_equal_signs
IsBase64-zeros = record {
  digits = signature_text;
  pads = 2;
  written = refl;
  plain = refl;
  few = omega arith;
  long = refl;
  decodes = refl;
}

pub signer-ReadsBack : ReadsBack crypto signer
signer-ReadsBack = record { full = λ m. refl; verifies = λ m. refl; base64 = λ m. IsBase64-zeros }

pub signer_named : signer.key_id ≢ ""
signer_named e = let h : "cp-1" == "" ≡ true = (eq_iff "cp-1" "").1 e in cc h

pub signer_trusted : find_key "cp-1" ring.keys ≡ some (record { key_id = "cp-1"; public = 7 ∷ [] })
unfolding find_key
signer_trusted = refl

verify_document-sign_document_example :
    verify_document crypto (put "signature" signature_block unsigned_fields) ring ≡ ok "cp-1"
verify_document-sign_document_example =
    verify_document-sign_document crypto signer ring unsigned_fields signature_block
      signer-ReadsBack signer_named signer_trusted sign_unsigned

abbrev two_roles : List String
two_roles = "supervisor" ∷ "agent" ∷ []

abbrev access : ToolAccessPolicy
access = record { access_mode = "restricted"; allowed_roles = "agent" ∷ "supervisor" ∷ [] }

accepted : make_access_policy "restricted" two_roles ≡ ok access
unfolding make_access_policy toollayer_ai.Contracts.Models.sorted
    toollayer_ai.Contracts.Models.insert_sorted toollayer_ai.Contracts.Models.all_keys
    toollayer_ai.Contracts.Models.is_resource_key toollayer_ai.Contracts.Models.matches_key
    toollayer_ai.Base.text_lt toollayer_ai.Base.distinct toollayer_ai.Base.contains
accepted = refl

valid_snapshot : validate_deployment_snapshot schemas signed_fields ≡ ok tt
unfolding validate_deployment_snapshot toollayer_ai.Contracts.Validation.require_contract_version
    toollayer_ai.Contracts.Validation.validate_connectors
    toollayer_ai.Contracts.Validation.validate_connector_definition
    toollayer_ai.Contracts.Validation.validate_tools
    toollayer_ai.Contracts.Validation.validate_tool_input_schema require_supported parse_version
    toollayer_ai.Contracts.Version.parse_text toollayer_ai.Contracts.Version.match_semver
    toollayer_ai.Contracts.Version.read_tail toollayer_ai.Base.read_number toollayer_ai.Base.digits
    toollayer_ai.Json.find toollayer_ai.Json.get toollayer_ai.Json.items toollayer_ai.Base.contains
valid_snapshot = refl

validate_deployment_snapshot_sound_example :
    (schemas.snapshot_schema signed_fields ≡ true)
    × HasFreshTexts "connector_key" [] (list_of (get "connectors" signed_fields))
    × AllServable schemas (list_of (get "connectors" signed_fields))
validate_deployment_snapshot_sound_example =
    validate_deployment_snapshot_sound schemas signed_fields valid_snapshot
