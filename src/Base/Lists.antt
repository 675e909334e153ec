-- ===== src/Base/Lists.antt =====
-- Lists measured by native numbers, predicates over lists, and membership of texts.
use Prim.Native.Nat.{ℕ, suc, ◌+◌}
use Prim.Native.String.{String}
use mathlib.Core.Path.{◌≡◌}
use mathlib.Core.Logic.{◌⊎◌, inl, inr}
use mathlib.Core.Bool.{Bool, true, false, ◌||◌}
use mathlib.Core.List.{List, [], ◌∷◌, ◌++◌}
use native.Mathlib.Omega.{arith}
use text.Mathlib.Text.{◌==◌}
use text.Mathlib.TextEquality.{eq_iff}
use toollayer_ai.Base.Tests.{if◌then◌else◌, Bool-cases}

module _ {ℓ} {A : Type ℓ} where
  abbrev pub length : List A → ℕ
  length [] = 0
  length (x ∷ xs) = suc (length xs)

  pub length-append : (xs ys : List A) → length (xs ++ ys) ≡ length xs + length ys
  length-append [] ys = omega arith
  length-append (x ∷ xs) ys = omega (arith, length-append xs ys)

  -- The elements that pass a Boolean test, as a comprehension with `if`.
  unfoldable pub select : (A → Bool) → List A → List A
  select p [] = []
  select p (x ∷ xs) = if p x then x ∷ select p xs else select p xs

module _ {ℓ κ} {A : Type ℓ} (P : A → Type κ) where
  abbrev pub All : List A → Type κ
  All [] = Unit
  All (x ∷ xs) = P x × All xs

  pub All-append : (xs ys : List A) → All xs → All ys → All (xs ++ ys)
  All-append [] ys h k = k
  All-append (x ∷ xs) ys (p, h) k = (p, All-append xs ys h k)

  pub All-append_left : (xs ys : List A) → All (xs ++ ys) → All xs
  All-append_left [] ys h = tt
  All-append_left (x ∷ xs) ys (p, h) = (p, All-append_left xs ys h)

  pub All-append_right : (xs ys : List A) → All (xs ++ ys) → All ys
  All-append_right [] ys h = h
  All-append_right (x ∷ xs) ys (p, h) = All-append_right xs ys h

-- No value, at any level.
pub data Empty {ℓ} : Type ℓ where

-- The proof that a value stands in a list.
abbrev pub Elem {ℓ} : {A : Type ℓ} → A → List A → Type ℓ
Elem a [] = Empty
Elem a (x ∷ xs) = (x ≡ a) ⊎ Elem a xs

-- `x in xs` for texts
unfoldable pub contains : List String → String → Bool
contains [] a = false
contains (x ∷ xs) a = x == a || contains xs a

-- The proof that a text stands in a list.
abbrev pub In : String → List String → Type 0
In a [] = ⊥
In a (x ∷ xs) = (x ≡ a) ⊎ In a xs

pub contains→In : (xs : List String) (a : String) → contains xs a ≡ true → In a xs
unfolding contains
contains→In [] a h = ground arith
contains→In (x ∷ xs) a h = ground (arith, eq_iff x a, contains→In xs a)

pub In→contains : (xs : List String) (a : String) → In a xs → contains xs a ≡ true
unfolding contains
In→contains [] a h = absurd h
In→contains (x ∷ xs) a h = ground (arith, eq_iff x a, In→contains xs a)

-- No text stands twice: `len(set(xs)) == len(xs)`.
unfoldable pub distinct : List String → Bool
distinct [] = true
distinct (x ∷ xs) = if contains xs x then false else distinct xs

abbrev pub IsDistinct : List String → Type 0
IsDistinct [] = Unit
IsDistinct (x ∷ xs) = (¬ In x xs) × IsDistinct xs

pub distinct→IsDistinct : (xs : List String) → distinct xs ≡ true → IsDistinct xs
unfolding distinct
distinct→IsDistinct [] h = tt
distinct→IsDistinct (x ∷ xs) h = elim (Bool-cases (contains xs x)) [
  | inl found ↦ absurd (ground arith)
  | inr fresh ↦ (λ i. ground (arith, In→contains xs x i), distinct→IsDistinct xs (ground arith))
]
