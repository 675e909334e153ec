-- ===== src/Contracts/Version/Text.antt =====
-- Writing a version and reading it back: `__str__` and `parse_version` of version.py.
use Prim.Native.Char.{Char, code}
use Prim.Native.String.{[], ◌∷◌, ◌++◌}
use text.Mathlib.TextLemmas.{nil-append, cons-append, append_assoc, append-nil}
use toollayer_ai.Base.{
  ◌≡◌, refl, inl, inr, ◌&&◌, Bool, true, false, Bool-cases, none, some, Option, String, show,
  read_number, read_number-show, IsStop, arith, eqb, ◌==◌, eq_iff, if◌then◌else◌,
}
use toollayer_ai.Json.{Json, str}
use toollayer_ai.Contracts.Errors.{incompatible_version, ok}
use toollayer_ai.Contracts.Version.{
  ContractVersion, prefixed, expect, is_word, at_end, read_prerelease, match_semver, read_tail,
  parse_text, or_raise, parse_version, with_prerelease, to_string, ◌>>=?◌,
}

prefixed-eq-some :
    (c : Char) (o : Option String) {p : String}
    → prefixed c o ≡ some p
    → (t : String) × (o ≡ some t) × (p ≡ c ∷ t)
prefixed-eq-some c none h = cc
prefixed-eq-some c (some t) h = (t, refl, ground arith)

read_at_end :
    (seen end : Bool) (p : String)
    → (if end && seen then some [] else none) ≡ some p
    → read_prerelease seen p ≡ some p
unfolding read_prerelease
read_at_end true true p h = let e : p ≡ [] = ground arith in rw e
read_at_end true false p h = cc
read_at_end false true p h = cc
read_at_end false false p h = cc

-- What the pattern takes as a prerelease is a prerelease that it takes whole.
read_prerelease_idem :
    (seen : Bool) (s p : String) → read_prerelease seen s ≡ some p → read_prerelease seen p ≡ some p
unfolding read_prerelease
read_prerelease_idem true [] p h = let e : p ≡ [] = ground arith in rw e
read_prerelease_idem false [] p h = cc
read_prerelease_idem seen (c ∷ s) p h = elim (Bool-cases (is_word (code c))) [
  | inl word ↦
      let (t, read, e) = prefixed-eq-some c (read_prerelease true s) {p = p} (rw word at h) in
      rw e (rw word (rw (read_prerelease_idem true s t read)))
  | inr other ↦ elim (Bool-cases (eqb (code c) b'.' && seen)) [
    | inl dot ↦
        let (t, read, e) =
          prefixed-eq-some c (read_prerelease false s) {p = p} (rw dot at (rw other at h)) in
        rw e (rw other (rw dot (rw (read_prerelease_idem false s t read))))
    | inr stop ↦ read_at_end seen (at_end (c ∷ s)) p (rw stop at (rw other at h))
  ]
]

-- The text after the numbers.
abbrev suffix : Option String → String
suffix none = []
suffix (some p) = "-" ++ p

-- The pattern reads the suffix as the same prerelease.
abbrev Readable : Option String → Type 0
Readable o = read_tail (suffix o) ≡ some o

suffix-IsStop : (o : Option String) → IsStop (suffix o)
suffix-IsStop none = tt
suffix-IsStop (some p) = rw cons-append refl

abbrev written : ContractVersion → String
written v =
    show v.major ++ ("." ++ (show v.minor ++ ("." ++ (show v.patch ++ suffix v.prerelease))))

match_semver-written :
    (v : ContractVersion) → Readable v.prerelease → match_semver (written v) ≡ some v
unfolding match_semver
match_semver-written v h =
    rw
      (read_number-show v.major
        ("." ++ (show v.minor ++ ("." ++ (show v.patch ++ suffix v.prerelease))))
        (rw cons-append refl))
      (rw cons-append (
        rw nil-append (
          rw
            (read_number-show v.minor ("." ++ (show v.patch ++ suffix v.prerelease))
              (rw cons-append refl))
            (rw cons-append (
              rw nil-append (
                rw (read_number-show v.patch (suffix v.prerelease) (suffix-IsStop v.prerelease))
                  (rw h refl)))))))

nonempty_of_Readable : (p : String) → Readable (some p) → (p == "") ≡ false
unfolding read_tail read_prerelease
nonempty_of_Readable p h = elim (Bool-cases (p == "")) [
  | inl empty ↦
      let e : p ≡ "" = (eq_iff p "").0 empty in
      let k : read_tail ("-" ++ "") ≡ some (some "") = rw e at h in absurd (cc k)
  | inr full ↦ full
]

bind-eq-some {ℓ κ} :
    {A : Type ℓ} {B : Type κ} (o : Option A) (f : A → Option B) {b : B}
    → (o >>=? f) ≡ some b
    → (a : A) × (o ≡ some a) × (f a ≡ some b)
bind-eq-some none f h = cc
bind-eq-some (some a) f h = (a, refl, h)

read_end : (end : Bool) (o : Option String) → (if end then some none else none) ≡ some o → o ≡ none
read_end true o h = ground arith
read_end false o h = cc

with_prerelease-eq :
    (base : String) (o : Option String) → Readable o → with_prerelease base o ≡ base ++ suffix o
with_prerelease-eq base none h = rw append-nil
with_prerelease-eq base (some p) h = rw (nonempty_of_Readable p h)

to_string-eq-written : (v : ContractVersion) → Readable v.prerelease → to_string v ≡ written v
unfolding to_string
to_string-eq-written v h = rw (with_prerelease-eq _ v.prerelease h) (simp append_assoc)

read_tail_dash :
    (s : String) (o : Option String)
    → (read_prerelease false s >>=? λ p. some (some p)) ≡ some o
    → Readable o
unfolding read_tail
read_tail_dash s o h =
    let (p, read, e) = bind-eq-some (read_prerelease false s) _ h in
    let e' : o ≡ some p = ground arith in
    rw e' (rw cons-append (rw nil-append (rw (read_prerelease_idem false s p read))))

read_tail-Readable : (s : String) (o : Option String) → read_tail s ≡ some o → Readable o
unfolding read_tail
read_tail-Readable [] o h = let e : o ≡ none = ground arith in rw e
read_tail-Readable (c ∷ s) o h = elim (Bool-cases (eqb (code c) b'-')) [
  | inl dash ↦ read_tail_dash s o (rw dash at h)
  | inr other ↦ let e : o ≡ none = read_end (at_end (c ∷ s)) o (rw other at h) in rw e
]

match_semver-Readable :
    (s : String) (v : ContractVersion) → match_semver s ≡ some v → Readable v.prerelease
unfolding match_semver
match_semver-Readable s v h =
    let (x, _, h₁) = bind-eq-some (read_number s) _ h in
    let (s₁, _, h₂) = bind-eq-some (expect b'.' x.1) _ h₁ in
    let (y, _, h₃) = bind-eq-some (read_number s₁) _ h₂ in
    let (s₂, _, h₄) = bind-eq-some (expect b'.' y.1) _ h₃ in
    let (z, _, h₅) = bind-eq-some (read_number s₂) _ h₄ in
    let (p, tail, h₆) = bind-eq-some (read_tail z.1) _ h₅ in
    let e : p ≡ v.prerelease = ground arith in read_tail-Readable z.1 v.prerelease (rw e at tail)

or_raise-eq-ok :
    (o : Option ContractVersion) {v : ContractVersion}
    → or_raise incompatible_version o ≡ ok v
    → o ≡ some v
or_raise-eq-ok none h = cc
or_raise-eq-ok (some v) h = ground arith

parse_text-Readable :
    (s : String) (v : ContractVersion) → parse_text s ≡ ok v → Readable v.prerelease
unfolding parse_text
parse_text-Readable s v h = match_semver-Readable s v (or_raise-eq-ok (match_semver s) h)

-- Every version that parses is read back, as itself, from its own text.
pub parse_version-to_string :
    (value : Json) (v : ContractVersion)
    → parse_version value ≡ ok v
    → parse_version (str (to_string v)) ≡ ok v
unfolding parse_version
parse_version-to_string (str s) v h =
    let k = parse_text-Readable s v h in
    rw (to_string-eq-written v k) (unfold parse_text in rw (match_semver-written v k))
parse_version-to_string _ v h = cc

release-Readable : Readable none
unfolding read_tail
release-Readable = refl

-- A release is read back from its text.
pub parse_text-to_string_release :
    (v : ContractVersion) → v.prerelease ≡ none → parse_text (to_string v) ≡ ok v
unfolding parse_text
parse_text-to_string_release v e =
    let k : Readable v.prerelease = rw e release-Readable in
    rw (to_string-eq-written v k) (rw (match_semver-written v k) refl)
