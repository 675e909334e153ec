-- ===== src/ControlPlane/Versions.antt =====
-- service.py: the versions that a connector may propose and publish, after those it has published.
pub mod Increase
use Prim.Native.Nat.{Ordering}
use text.Mathlib.Text
use Prim.Native.String.{◌++◌}
use toollayer_ai.Base.{
  ℕ, ◌+◌, String, Bool, true, false, not, Option, none, some, List, [], ◌∷◌, ◌==◌, show, text_lt,
  if◌then◌else◌,
}
use toollayer_ai.Contracts.Errors.{
  Failure, tool_layer, invalid_request, type_error, Result, ok, err, ◌>>=◌, ◌>>◌, guard,
}
use toollayer_ai.Contracts.Version.{
  ContractVersion, core_eq, core_lt, parse_text, compare_precedence,
}

-- `compare_precedence(candidate, existing) <= 0`
abbrev pub is_after : Ordering → Bool
is_after Ordering.gt = true
is_after _ = false

-- The loop of `_reject_version_regression`.
unfoldable pub reject_candidate : ContractVersion → List String → Result (Unit {0})
reject_candidate candidate [] = ok tt
reject_candidate candidate (existing ∷ published) = do
  parsed ← parse_text existing
  guard (is_after (compare_precedence candidate parsed)) (tool_layer invalid_request)
  reject_candidate candidate published

-- `_reject_version_regression`, over the published versions
unfoldable pub reject_version_regression : List String → String → Result (Unit {0})
reject_version_regression published version = do
  candidate ← parse_text version
  reject_candidate candidate published

-- `left > right` of two prereleases: a text and `None` cannot be compared.
abbrev pub text_after : Option String → Option String → Result Bool
text_after none none = ok false
text_after (some p) (some q) = ok (text_lt q p)
text_after _ _ = err type_error

-- `left > right` of the named tuples: the prereleases are compared where the numbers agree.
unfoldable pub tuple_after : ContractVersion → ContractVersion → Result Bool
tuple_after left right =
    if core_eq left right
    then text_after left.prerelease right.prerelease
    else ok (core_lt right left)

-- `max(published, key=parse_version)`, parsed: the keys are read and compared in turn.
unfoldable pub highest_from : ContractVersion → List String → Result ContractVersion
highest_from best [] = ok best
highest_from best (next ∷ published) = do
  parsed ← parse_text next
  after ← tuple_after parsed best
  highest_from (if after then parsed else best) published

abbrev pub next_minor : ContractVersion → String
next_minor v = show v.major ++ ("." ++ (show (v.minor + 1) ++ ".0"))

-- `_next_version`
unfoldable pub next_version : List String → Result String
next_version [] = ok "0.1.0"
next_version (first ∷ published) = do
  parsed ← parse_text first
  highest ← highest_from parsed published
  ok (next_minor highest)
