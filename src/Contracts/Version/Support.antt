-- ===== src/Contracts/Version/Support.antt =====
-- `require_supported` and `is_supported` of version.py: which documents this build consumes.
use toollayer_ai.Base.{◌≡◌, refl, ◌≤◌, ◌↔◌, none, arith}
use toollayer_ai.Json.{Json}
use toollayer_ai.Contracts.Errors.{ok}
use toollayer_ai.Contracts.Version.{
  contract_version, ContractVersion, parse_text, match_semver, read_tail, parse_version,
  require_supported,
}

parse-contract_version :
    parse_text contract_version ≡ ok (record { major = 1; minor = 1; patch = 0; prerelease = none })
unfolding parse_text match_semver read_tail toollayer_ai.Base.read_number toollayer_ai.Base.digits
parse-contract_version = refl

-- `require_supported` returns a version exactly when the value parses as that version and the
-- version is of the major line 1, with a minor number of at most 1.
pub require_supported-eq-ok_iff :
    (value : Json) (v : ContractVersion)
    → (require_supported value ≡ ok v)
      ↔ ((parse_version value ≡ ok v) × (v.major ≡ 1) × (v.minor ≤ 1))
unfolding require_supported
require_supported-eq-ok_iff value v =
    (λ h. ground (arith, parse-contract_version), λ h. ground (arith, parse-contract_version))
