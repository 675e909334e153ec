-- ===== src/ControlPlane/Versions/Increase.antt =====
-- service.py: a version that is accepted, or proposed, exceeds every published one.
use Prim.Native.Nat.{Ordering}
use toollayer_ai.Base.{
  ℕ, ◌+◌, ◌≡◌, refl, ◌↔◌, ◌⊎◌, inl, inr, String, Bool, true, false, Option, none, some, List, [],
  ◌∷◌, All, arith, ◌==◌, show, text_lt, Bool-cases, if◌then◌else◌, ltb, eqb, ◌&&◌,
}
use toollayer_ai.Contracts.Errors.{tool_layer, invalid_request, ok, >>=-eq-ok, guard-eq-ok}
use toollayer_ai.Contracts.Version.{
  ContractVersion, core_eq, core_lt, match_semver, read_tail, parse_text, compare_precedence,
}
use toollayer_ai.Contracts.Version.Order.{compare_precedence_swap, flip}
use toollayer_ai.Contracts.Version.Text.{parse_text-to_string_release}
use toollayer_ai.ControlPlane.Versions.{
  is_after, reject_candidate, reject_version_regression, tuple_after, highest_from, next_minor,
  next_version,
}

-- The published text is a version, of less precedence than the candidate.
abbrev pub IsBelow : ContractVersion → String → Type 0
IsBelow candidate published =
    (w : ContractVersion) × (parse_text published ≡ ok w)
    × (compare_precedence w candidate ≡ Ordering.lt)

is_after-compare :
    (candidate w : ContractVersion)
    → (is_after (compare_precedence candidate w) ≡ true)
      ↔ (compare_precedence w candidate ≡ Ordering.lt)
is_after-compare candidate w = (
  forth _ _ (compare_precedence_swap w candidate),
  λ h. rw (compare_precedence_swap candidate w) (rw h refl),
)
  where
    forth : (o p : Ordering) → p ≡ flip o → is_after o ≡ true → p ≡ Ordering.lt
    forth Ordering.lt p e h = cc h
    forth Ordering.eq p e h = cc h
    forth Ordering.gt p e h = e

reject_candidate_iff :
    (candidate : ContractVersion) (published : List String)
    → (reject_candidate candidate published ≡ ok tt) ↔ All (IsBelow candidate) published
unfolding reject_candidate
reject_candidate_iff candidate [] = (λ h. tt, λ h. refl)
reject_candidate_iff candidate (existing ∷ published) = (
  λ h.
      let (w, parsed, h₁) = >>=-eq-ok (parse_text existing) _ h in
      let (after, h₂) =
        guard-eq-ok (is_after (compare_precedence candidate w)) (tool_layer invalid_request) _ h₁ in
      (
        (w, parsed, (is_after-compare candidate w).0 after),
        (reject_candidate_iff candidate published).0 h₂,
      ),
  λ ((w, parsed, below), rest). rw parsed (
      rw ((is_after-compare candidate w).1 below)
        ((reject_candidate_iff candidate published).1 rest)),
)

-- A version is accepted exactly when it is a version and each published text is a version of less
-- precedence.
pub reject_version_regression_iff :
    (published : List String) (version : String)
    → (reject_version_regression published version ≡ ok tt) ↔ (
        (candidate : ContractVersion) × (parse_text version ≡ ok candidate)
        × All (IsBelow candidate) published)
unfolding reject_version_regression
reject_version_regression_iff published version = (
  λ h.
      let (candidate, parsed, h₁) = >>=-eq-ok (parse_text version) _ h in
      (candidate, parsed, (reject_candidate_iff candidate published).0 h₁),
  λ (candidate, parsed, below). rw parsed ((reject_candidate_iff candidate published).1 below),
)

core_le_trans :
    (a b c : ContractVersion) → core_lt a b ≡ false → core_lt b c ≡ false → core_lt a c ≡ false
core_le_trans a b c h k = ground arith

-- The numbers of neither version exceed those of the greater.
tuple_after-eq-ok :
    (left right greater : ContractVersion) (after : Bool)
    → tuple_after left right ≡ ok after
    → greater ≡ (if after then left else right)
    → (core_lt greater left ≡ false) × (core_lt greater right ≡ false)
unfolding tuple_after
tuple_after-eq-ok left right greater after h e = elim (Bool-cases (core_eq left right)) [
  | inl same ↦ picked after e same
  | inr other ↦ decided after e (rw other at h)
]
  where
    picked :
        (a : Bool)
        → greater ≡ (if a then left else right)
        → core_eq left right ≡ true
        → (core_lt greater left ≡ false) × (core_lt greater right ≡ false)
    picked true q same = rw q (ground arith, ground arith)
    picked false q same = rw q (ground arith, ground arith)

    decided :
        (a : Bool)
        → greater ≡ (if a then left else right)
        → ok (core_lt right left) ≡ ok a
        → (core_lt greater left ≡ false) × (core_lt greater right ≡ false)
    decided true q k = rw q (ground arith, ground arith)
    decided false q k = rw q (ground arith, ground arith)

-- The published text is a version whose numbers do not exceed those of the given one.
abbrev CoreAtMost : ContractVersion → String → Type 0
CoreAtMost highest published =
    (w : ContractVersion) × (parse_text published ≡ ok w) × (core_lt highest w ≡ false)

highest_from_bounds :
    (best highest : ContractVersion) (published : List String)
    → highest_from best published ≡ ok highest
    → (core_lt highest best ≡ false) × All (CoreAtMost highest) published
unfolding highest_from
highest_from_bounds best highest [] h =
    let e : best ≡ highest = ground arith in rw e (ground arith, tt)
highest_from_bounds best highest (next ∷ published) h =
    let (w, parsed, h₁) = >>=-eq-ok (parse_text next) _ h in
    let (after, compared, h₂) = >>=-eq-ok (tuple_after w best) _ h₁ in
    let greater = if after then w else best in
    let (over_w, over_best) = tuple_after-eq-ok w best greater after compared refl in
    let (over, rest) = highest_from_bounds greater highest published h₂ in
    (
      core_le_trans highest greater best over over_best,
      ((w, parsed, core_le_trans highest greater w over over_w), rest),
    )

parse-next_minor :
    (v : ContractVersion)
    → parse_text (next_minor v)
      ≡ ok (record { major = v.major; minor = v.minor + 1; patch = 0; prerelease = none })
unfolding show toollayer_ai.Contracts.Version.to_string
parse-next_minor v =
    parse_text-to_string_release
      (record { major = v.major; minor = v.minor + 1; patch = 0; prerelease = none }) refl

below_next_minor :
    (v w : ContractVersion)
    → core_lt v w ≡ false
    → compare_precedence w
        (record { major = v.major; minor = v.minor + 1; patch = 0; prerelease = none })
      ≡ Ordering.lt
unfolding compare_precedence
below_next_minor v w h = ground arith

All-IsBelow :
    (v : ContractVersion) (published : List String)
    → All (CoreAtMost v) published
    → All
        (IsBelow (record { major = v.major; minor = v.minor + 1; patch = 0; prerelease = none }))
        published
All-IsBelow v [] h = tt
All-IsBelow v (p ∷ published) ((w, parsed, over), rest) =
    ((w, parsed, below_next_minor v w over), All-IsBelow v published rest)

parse-first_version :
    parse_text "0.1.0" ≡ ok (record { major = 0; minor = 1; patch = 0; prerelease = none })
unfolding parse_text match_semver read_tail toollayer_ai.Base.read_number toollayer_ai.Base.digits
parse-first_version = refl

-- A version that is proposed is accepted against the versions that it is derived from.
pub reject_version_regression-next_version :
    (published : List String) (version : String)
    → next_version published ≡ ok version
    → reject_version_regression published version ≡ ok tt
unfolding next_version
reject_version_regression-next_version [] version h =
    let e : "0.1.0" ≡ version = ground arith in
    rw (← e) (
      (reject_version_regression_iff [] "0.1.0").1
        (record { major = 0; minor = 1; patch = 0; prerelease = none }, parse-first_version, tt))
reject_version_regression-next_version (first ∷ published) version h =
    let (w, parsed, h₁) = >>=-eq-ok (parse_text first) _ h in
    let (highest, found, h₂) = >>=-eq-ok (highest_from w published) _ h₁ in
    let e : next_minor highest ≡ version = ground arith in
    let (over, rest) = highest_from_bounds w highest published found in
    rw (← e) (
      (reject_version_regression_iff (first ∷ published) (next_minor highest)).1 (
        record { major = highest.major; minor = highest.minor + 1; patch = 0; prerelease = none },
        parse-next_minor highest,
        All-IsBelow highest (first ∷ published) ((w, parsed, over), rest),
      ))
