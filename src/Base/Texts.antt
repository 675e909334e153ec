-- ===== src/Base/Texts.antt =====
-- Texts by their characters: the tests that the patterns of the source use, the order of Python's
-- `<` on `str`, and the decimal numerals of `str(int)` and `int(str)`.
use Prim.Native.Nat.{ℕ, zero, suc, ◌+◌, ◌-◌, ◌*◌, ◌/◌, ◌%◌, ◌<◌}
use Prim.Native.Char.{Char, code}
use Prim.Native.String.{String, [], ◌∷◌, ◌++◌}
use mathlib.Core.Path.{◌≡◌, refl, ap, ap₂, ◌∙◌}
use mathlib.Core.Logic.{◌⊎◌, inl, inr}
use mathlib.Core.Bool.{Bool, true, false, ◌&&◌}
use mathlib.Core.Option.{Option, none, some}
use native.Mathlib.Omega.{arith}
use text.Mathlib.TextEquality.{Char-path}
use text.Mathlib.TextLemmas.{nil-append, cons-append}
use toollayer_ai.Base.Tests.{leb, ltb, eqb, if◌then◌else◌, Bool-cases, ltb→lt}

abbrev pub is_digit : ℕ → Bool
is_digit c = leb b'0' c && leb c b'9'

abbrev pub is_lower : ℕ → Bool
is_lower c = leb b'a' c && leb c b'z'

abbrev pub is_upper : ℕ → Bool
is_upper c = leb b'A' c && leb c b'Z'

-- `left < right` on texts: lexicographic by code point.
unfoldable pub text_lt : String → String → Bool
text_lt [] [] = false
text_lt [] (d ∷ t) = true
text_lt (c ∷ s) [] = false
text_lt (c ∷ s) (d ∷ t) = if eqb (code c) (code d) then text_lt s t else ltb (code c) (code d)

pub text_lt_irrefl : (s : String) → text_lt s s ≡ false
unfolding text_lt
text_lt_irrefl [] = refl
text_lt_irrefl (c ∷ s) = ground (arith, text_lt_irrefl s)

pub text_lt_asymm : (s t : String) → text_lt s t ≡ true → text_lt t s ≡ false
unfolding text_lt
text_lt_asymm [] [] h = refl
text_lt_asymm [] (d ∷ t) h = refl
text_lt_asymm (c ∷ s) [] h = ground arith
text_lt_asymm (c ∷ s) (d ∷ t) h = ground (arith, text_lt_asymm s t)

pub text_lt_trans : (s t u : String) → text_lt s t ≡ true → text_lt t u ≡ true → text_lt s u ≡ true
unfolding text_lt
text_lt_trans [] [] u h k = k
text_lt_trans [] (d ∷ t) [] h k = k
text_lt_trans [] (d ∷ t) (e ∷ u) h k = refl
text_lt_trans (c ∷ s) [] u h k = ground arith
text_lt_trans (c ∷ s) (d ∷ t) [] h k = k
text_lt_trans (c ∷ s) (d ∷ t) (e ∷ u) h k = ground (arith, text_lt_trans s t u)

-- Of two texts one is less, or they are the same.
pub text_lt_cases : (s t : String) → (s ≡ t) ⊎ ((text_lt s t ≡ true) ⊎ (text_lt t s ≡ true))
unfolding text_lt
text_lt_cases [] [] = inl refl
text_lt_cases [] (d ∷ t) = inr (inl refl)
text_lt_cases (c ∷ s) [] = inr (inr refl)
text_lt_cases (c ∷ s) (d ∷ t) = elim (Bool-cases (eqb (code c) (code d))) [
  | inl same ↦
      let e : code c ≡ code d = ground arith in
      elim (text_lt_cases s t) [
        | inl q ↦ inl (ap₂ (λ (x : Char) (y : String). x ∷ y) (Char-path c d e) q)
        | inr less ↦ inr (ground arith)
      ]
  | inr other ↦ inr (ground arith)
]

-- The digit of a number below ten.
unfoldable pub digit_char : ℕ → Char
digit_char zero = "0"
digit_char (suc zero) = "1"
digit_char (suc (suc zero)) = "2"
digit_char (suc (suc (suc zero))) = "3"
digit_char (suc (suc (suc (suc zero)))) = "4"
digit_char (suc (suc (suc (suc (suc zero))))) = "5"
digit_char (suc (suc (suc (suc (suc (suc zero)))))) = "6"
digit_char (suc (suc (suc (suc (suc (suc (suc zero))))))) = "7"
digit_char (suc (suc (suc (suc (suc (suc (suc (suc zero)))))))) = "8"
digit_char _ = "9"

code-digit_char : (d : ℕ) → d < 10 → code (digit_char d) ≡ 48 + d
unfolding digit_char
code-digit_char zero h = refl
code-digit_char (suc zero) h = refl
code-digit_char (suc (suc zero)) h = refl
code-digit_char (suc (suc (suc zero))) h = refl
code-digit_char (suc (suc (suc (suc zero)))) h = refl
code-digit_char (suc (suc (suc (suc (suc zero))))) h = refl
code-digit_char (suc (suc (suc (suc (suc (suc zero)))))) h = refl
code-digit_char (suc (suc (suc (suc (suc (suc (suc zero))))))) h = refl
code-digit_char (suc (suc (suc (suc (suc (suc (suc (suc zero)))))))) h = refl
code-digit_char _ h = omega arith

-- `str(n)`: the fuel is more than the number of digits.
show_from : ℕ → ℕ → String → String
show_from zero n acc = acc
show_from (suc f) n acc =
    let more = show_from f (n / 10) (digit_char (n % 10) ∷ acc) in
    if ltb n 10 then digit_char n ∷ acc else more

unfoldable pub show : ℕ → String
unfolding show_from digit_char
show n = show_from (suc n) n []

-- The digits that follow, greedily, and the rest of the text.
unfoldable pub digits : ℕ → String → ℕ × String
digits n [] = (n, [])
digits n (c ∷ s) = if is_digit (code c) then digits (n * 10 + (code c - 48)) s else (n, c ∷ s)

-- The pattern `0|[1-9][0-9]*`, with its value.
unfoldable pub read_number : String → Option (ℕ × String)
unfolding digits
read_number [] = none
read_number (c ∷ s) =
    if eqb (code c) b'0'
    then some (0, s)
    else if is_digit (code c)
    then some (digits (code c - 48) s)
    else none

show_from-append :
    (f n : ℕ) (acc rest : String) → show_from f n acc ++ rest ≡ show_from f n (acc ++ rest)
unfolding show_from
show_from-append zero n acc rest = refl
show_from-append (suc f) n acc rest = elim (Bool-cases (ltb n 10)) [
  | inl small ↦ rw small (cons-append (digit_char n) acc rest)
  | inr large ↦ rw large (
      show_from-append f (n / 10) (digit_char (n % 10) ∷ acc) rest
      ∙ ap (show_from f (n / 10)) (cons-append (digit_char (n % 10)) acc rest))
]

digits-digit_char :
    (n d : ℕ) (s : String) → d < 10 → digits n (digit_char d ∷ s) ≡ digits (n * 10 + d) s
unfolding digits
digits-digit_char n d s h = ground (arith, code-digit_char d h)

read_number-digit_char :
    (n : ℕ) (acc : String) → n < 10 → 0 < n → read_number (digit_char n ∷ acc) ≡ some (digits n acc)
unfolding read_number
read_number-digit_char n acc h pos =
    let e = code-digit_char n h in
    let back : 48 + n - 48 ≡ n = omega arith in rw e (rw back (ground arith))

read_number-show_from :
    (f n : ℕ) (acc : String) → n < f → 0 < n → read_number (show_from f n acc) ≡ some (digits n acc)
unfolding show_from
read_number-show_from zero n acc h pos = absurd (omega arith)
read_number-show_from (suc f) n acc h pos = elim (Bool-cases (ltb n 10)) [
  | inl small ↦ rw small (read_number-digit_char n acc (ltb→lt n 10 small) pos)
  | inr large ↦ rw large (
      read_number-show_from f (n / 10) (digit_char (n % 10) ∷ acc) (ground arith) (ground arith)
      ∙ ap some (
          digits-digit_char (n / 10) (n % 10) acc (omega arith)
          ∙ ap (λ m. digits m acc) (omega arith)))
]

-- No digit begins the text.
abbrev pub IsStop : String → Type 0
IsStop [] = Unit
IsStop (c ∷ s) = is_digit (code c) ≡ false

digits-IsStop : (n : ℕ) (s : String) → IsStop s → digits n s ≡ (n, s)
unfolding digits
digits-IsStop n [] h = refl
digits-IsStop n (c ∷ s) h = rw h

-- Reading back a number that was written before a text that begins with no digit.
pub read_number-show :
    (n : ℕ) (rest : String) → IsStop rest → read_number (show n ++ rest) ≡ some (n, rest)
unfolding show read_number
read_number-show zero rest h = rw (show_from-append 1 zero [] rest) (rw nil-append refl)
read_number-show (suc n) rest h = rw (show_from-append (suc (suc n)) (suc n) [] rest) (
    rw nil-append (
      read_number-show_from (suc (suc n)) (suc n) rest (omega arith) (omega arith)
      ∙ ap some (digits-IsStop (suc n) rest h)))
