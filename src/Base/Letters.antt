-- ===== src/Base/Letters.antt =====
-- The lower case of ASCII letters.
use Prim.Native.Nat.{ℕ, zero, suc, ◌-◌, ◌<◌}
use Prim.Native.Char.{Char, code}
use Prim.Native.String.{String, [], ◌∷◌}
use mathlib.Core.Path.{◌≡◌, refl}
use mathlib.Core.Bool.{Bool, true, false}
use native.Mathlib.Omega.{arith}
use toollayer_ai.Base.Tests.{if◌then◌else◌}
use toollayer_ai.Base.Texts.{is_lower, is_upper}

nth : ℕ → String → Char
nth n [] = "?"
nth zero (c ∷ s) = c
nth (suc n) (c ∷ s) = nth n s

-- The letter at this place of the alphabet.
letter : ℕ → Char
unfolding nth
letter n = nth n "abcdefghijklmnopqrstuvwxyz"

-- `str.lower` of an ASCII character
unfoldable pub ascii_lower : Char → Char
unfolding letter
ascii_lower c = if is_upper (code c) then letter (code c - 65) else c

-- `str.lower` of a text of ASCII characters
unfoldable pub lower_text : String → String
unfolding ascii_lower
lower_text [] = ""
lower_text (c ∷ s) = ascii_lower c ∷ lower_text s

-- The letters before this place are of lower case.
lower_before : ℕ → Bool
lower_before zero = true
lower_before (suc place) =
    let earlier = lower_before place in if is_lower (code (letter place)) then earlier else false

lower_before-letter :
    (place limit : ℕ)
    → place < limit
    → lower_before limit ≡ true
    → is_lower (code (letter place)) ≡ true
unfolding lower_before
lower_before-letter place zero inside h = absurd (omega arith)
lower_before-letter place (suc limit) inside h = ground (arith, lower_before-letter place limit)

alphabet : lower_before 26 ≡ true
unfolding lower_before letter
alphabet = refl

pub ascii_lower-is_lower :
    (c : Char) → is_upper (code c) ≡ true → is_lower (code (ascii_lower c)) ≡ true
unfolding ascii_lower
ascii_lower-is_lower c upper =
    rw upper (lower_before-letter (code c - 65) 26 (ground arith) alphabet)

pub ascii_lower_other : (c : Char) → is_upper (code c) ≡ false → ascii_lower c ≡ c
unfolding ascii_lower
ascii_lower_other c h = rw h
