-- ===== src/Base/Strip.antt =====
-- `str.strip`, which reviews and requests are read with.
use Prim.Native.Nat.{ℕ}
use Prim.Native.Char.{code}
use Prim.Native.String.{String, [], ◌∷◌}
use mathlib.Core.Bool.{Bool, ◌&&◌, ◌||◌}
use text.Mathlib.Text.{◌==◌}
use toollayer_ai.Base.Tests.{leb, eqb, if◌then◌else◌}

-- `str.isspace` of a character
abbrev is_space : ℕ → Bool
is_space c =
    (leb 9 c && leb c 13)
    || (leb 28 c && leb c 32)
    || eqb c 133
    || eqb c 160
    || eqb c 5760
    || (leb 8192 c && leb c 8202)
    || eqb c 8232
    || eqb c 8233
    || eqb c 8239
    || eqb c 8287
    || eqb c 12288

strip_left : String → String
strip_left [] = ""
strip_left (c ∷ s) = let rest = strip_left s in if is_space (code c) then rest else c ∷ s

strip_right : String → String
strip_right [] = ""
strip_right (c ∷ s) =
    let rest = strip_right s in if is_space (code c) && rest == "" then "" else c ∷ rest

-- `text.strip()`
unfoldable pub strip : String → String
unfolding strip_left strip_right
strip s = strip_right (strip_left s)
