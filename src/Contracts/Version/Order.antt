-- ===== src/Contracts/Version/Order.antt =====
-- `compare_precedence` of version.py as an order.
use Prim.Native.Nat.{Ordering}
use toollayer_ai.Base.{
  ◌≡◌, refl, ◌↔◌, ◌<◌, ◌⊎◌, inl, inr, String, Option, none, some, arith, eq_iff, text_lt_asymm,
  text_lt_trans, text_lt_cases,
}
use toollayer_ai.Contracts.Version.{ContractVersion, compare_prerelease, compare_precedence}

-- The answer for the two versions in the other order.
abbrev pub flip : Ordering → Ordering
flip Ordering.lt = Ordering.gt
flip Ordering.eq = Ordering.eq
flip Ordering.gt = Ordering.lt

compare_prerelease_swap :
    (p q : Option String) → compare_prerelease p q ≡ flip (compare_prerelease q p)
unfolding compare_prerelease
compare_prerelease_swap none none = refl
compare_prerelease_swap none (some q) = refl
compare_prerelease_swap (some p) none = refl
compare_prerelease_swap (some p) (some q) =
    ground (arith, eq_iff p q, eq_iff q p, text_lt_asymm p q, text_lt_asymm q p, text_lt_cases p q)

compare_prerelease-eq : (p q : Option String) → compare_prerelease p q ≡ Ordering.eq → p ≡ q
unfolding compare_prerelease
compare_prerelease-eq none none h = refl
compare_prerelease-eq none (some q) h = ground arith
compare_prerelease-eq (some p) none h = ground arith
compare_prerelease-eq (some p) (some q) h = ground (arith, eq_iff p q)

compare_prerelease_refl : (p : Option String) → compare_prerelease p p ≡ Ordering.eq
unfolding compare_prerelease
compare_prerelease_refl none = refl
compare_prerelease_refl (some p) = ground (arith, eq_iff p p)

compare_prerelease_trans :
    (p q r : Option String)
    → compare_prerelease p q ≡ Ordering.lt
    → compare_prerelease q r ≡ Ordering.lt
    → compare_prerelease p r ≡ Ordering.lt
unfolding compare_prerelease
compare_prerelease_trans none none r h k = ground arith
compare_prerelease_trans none (some q) r h k = ground arith
compare_prerelease_trans (some p) none none h k = ground arith
compare_prerelease_trans (some p) none (some r) h k = ground arith
compare_prerelease_trans (some p) (some q) none h k = refl
compare_prerelease_trans (some p) (some q) (some r) h k =
    ground (arith, eq_iff p q, eq_iff q r, eq_iff p r, text_lt_trans p q r, text_lt_asymm p q)

-- Comparing in the other order gives the opposite answer: of two versions exactly one precedes, or
-- neither does in both orders.
pub compare_precedence_swap :
    (left right : ContractVersion)
    → compare_precedence left right ≡ flip (compare_precedence right left)
unfolding compare_precedence
compare_precedence_swap left right =
    ground (arith, compare_prerelease_swap left.prerelease right.prerelease)

-- Two versions have equal precedence exactly when they are the same version, prerelease included.
pub compare_precedence-eq_iff :
    (left right : ContractVersion) → (compare_precedence left right ≡ Ordering.eq) ↔ (left ≡ right)
unfolding compare_precedence
compare_precedence-eq_iff left right = (
  λ h. ground (arith, compare_prerelease-eq left.prerelease right.prerelease),
  λ e. rw e (ground (arith, compare_prerelease_refl right.prerelease)),
)

abbrev CoreLt : ContractVersion → ContractVersion → Type 0
CoreLt a b =
    (a.major < b.major)
    ⊎ (((a.major ≡ b.major) × (a.minor < b.minor))
        ⊎ ((a.major ≡ b.major) × (a.minor ≡ b.minor) × (a.patch < b.patch)))

abbrev CoreEq : ContractVersion → ContractVersion → Type 0
CoreEq a b = (a.major ≡ b.major) × (a.minor ≡ b.minor) × (a.patch ≡ b.patch)

-- A version precedes another by its numbers, or by its prerelease where the numbers agree.
abbrev pub Precedes : ContractVersion → ContractVersion → Type 0
Precedes a b =
    CoreLt a b ⊎ (CoreEq a b × (compare_prerelease a.prerelease b.prerelease ≡ Ordering.lt))

pub Precedes-of_lt : (a b : ContractVersion) → compare_precedence a b ≡ Ordering.lt → Precedes a b
unfolding compare_precedence
Precedes-of_lt a b h = ground arith

pub lt_of_Precedes : (a b : ContractVersion) → Precedes a b → compare_precedence a b ≡ Ordering.lt
unfolding compare_precedence
lt_of_Precedes a b (inl (inl h)) = ground arith
lt_of_Precedes a b (inl (inr (inl h))) = ground arith
lt_of_Precedes a b (inl (inr (inr h))) = ground arith
lt_of_Precedes a b (inr h) = ground arith

CoreLt-trans : (a b c : ContractVersion) → CoreLt a b → CoreLt b c → CoreLt a c
CoreLt-trans a b c h k = ground arith

Precedes-trans : (a b c : ContractVersion) → Precedes a b → Precedes b c → Precedes a c
Precedes-trans a b c (inl h) (inl k) = inl (CoreLt-trans a b c h k)
Precedes-trans a b c (inl h) (inr (k, _)) = inl (ground arith)
Precedes-trans a b c (inr (h, _)) (inl k) = inl (ground arith)
Precedes-trans a b c (inr (h, p)) (inr (k, q)) = inr (
  (omega arith, omega arith, omega arith),
  compare_prerelease_trans a.prerelease b.prerelease c.prerelease p q,
)

-- Precedence is transitive: a version before one that is before a third is before the third.
pub compare_precedence_trans :
    (a b c : ContractVersion)
    → compare_precedence a b ≡ Ordering.lt
    → compare_precedence b c ≡ Ordering.lt
    → compare_precedence a c ≡ Ordering.lt
compare_precedence_trans a b c h k =
    lt_of_Precedes a c (Precedes-trans a b c (Precedes-of_lt a b h) (Precedes-of_lt b c k))
