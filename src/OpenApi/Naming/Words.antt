-- ===== src/OpenApi/Naming/Words.antt =====
-- The words that `_snake_case` makes: letters of lower case and digits between single "_".
use Prim.Native.Char.{Char, code}
use text.Mathlib.TextLemmas.{nil-append, cons-append}
use toollayer_ai.Base.{
  ℕ, zero, suc, ◌≡◌, refl, ◌⊎◌, inl, inr, String, Bool, true, false, not, ◌&&◌, ◌||◌, Option, none,
  some, arith, eqb, ◌==◌, is_digit, is_lower, is_upper, ascii_lower, lower_text,
  ascii_lower-is_lower, ascii_lower_other, Bool-cases,
}
use toollayer_ai.Contracts.CanonicalJson.{◌⧺◌}
use toollayer_ai.Policy.UrlText.{all_chars}
use toollayer_ai.OpenApi.Naming.{
  split_acronym, split_camel, is_alnum, next_is, replace_runs, strip_under_left, strip_under_right,
  snake_case, take_chars,
}

abbrev pub or_text : String → Option String → String
or_text s none = s
or_text s (some t) = t

abbrev pub word : ℕ → Bool
word c = is_lower c || is_digit c || eqb c b'_'

abbrev identifier : ℕ → Bool
identifier c = is_alnum c || eqb c b'_'

module _ (p : ℕ → Bool) where
  pub all_chars-append :
      (s t : String) → all_chars p s ≡ true → all_chars p t ≡ true → all_chars p (s ⧺ t) ≡ true
  unfolding all_chars
  all_chars-append String.[] t h k = rw nil-append k
  all_chars-append (String.◌∷◌ c s) t h k = rw cons-append (ground (arith, all_chars-append s t))

  pub all_chars-strip_under_right :
      (s : String) → all_chars p s ≡ true → all_chars p (strip_under_right s) ≡ true
  unfolding all_chars strip_under_right
  all_chars-strip_under_right String.[] h = refl
  all_chars-strip_under_right (String.◌∷◌ c s) h =
      let rest = all_chars-strip_under_right s (ground arith) in
      elim (Bool-cases (eqb (code c) b'_' && strip_under_right s == "")) [
        | inl bare ↦ rw bare refl
        | inr kept ↦ rw kept (ground arith)
      ]

  all_chars-strip_under_left :
      (s : String) → all_chars p s ≡ true → all_chars p (strip_under_left s) ≡ true
  unfolding all_chars strip_under_left
  all_chars-strip_under_left String.[] h = refl
  all_chars-strip_under_left (String.◌∷◌ c s) h = ground (arith, all_chars-strip_under_left s)

  pub all_chars-take_chars :
      (n : ℕ) (s : String) → all_chars p s ≡ true → all_chars p (take_chars n s) ≡ true
  unfolding all_chars take_chars
  all_chars-take_chars zero s h = refl
  all_chars-take_chars (suc n) String.[] h = refl
  all_chars-take_chars (suc n) (String.◌∷◌ c s) h = ground (arith, all_chars-take_chars n s)

identifier-replace_runs :
    (in_run : Bool) (s : String) → all_chars identifier (replace_runs in_run s) ≡ true
unfolding all_chars replace_runs
identifier-replace_runs in_run String.[] = refl
identifier-replace_runs in_run (String.◌∷◌ c s) =
    ground (arith, identifier-replace_runs (not (is_alnum (code c))) s)

word-ascii_lower : (c : Char) → identifier (code c) ≡ true → word (code (ascii_lower c)) ≡ true
word-ascii_lower c h = elim (Bool-cases (is_upper (code c))) [
  | inl up ↦ rw (ascii_lower-is_lower c up) refl
  | inr low ↦ rw (ascii_lower_other c low) (ground arith)
]

word-lower_text :
    (s : String) → all_chars identifier s ≡ true → all_chars word (lower_text s) ≡ true
unfolding all_chars lower_text
word-lower_text String.[] h = refl
word-lower_text (String.◌∷◌ c s) h = ground (arith, word-ascii_lower c, word-lower_text s)

abbrev pub plain : ℕ → Bool
plain c = is_lower c || is_digit c

-- Empty, or begun by a letter or digit.
abbrev IsTrimmed : String → Type 0
IsTrimmed s = (s ≡ "") ⊎ (next_is plain s ≡ true)

-- Empty, or begun by no "_".
abbrev HasHead : String → Type 0
HasHead String.[] = Unit
HasHead (String.◌∷◌ c s) = eqb (code c) b'_' ≡ false

HasHead-strip_under_left : (s : String) → HasHead (strip_under_left s)
unfolding strip_under_left
HasHead-strip_under_left String.[] = tt
HasHead-strip_under_left (String.◌∷◌ c s) = elim (Bool-cases (eqb (code c) b'_')) [
  | inl under ↦ rw (under, HasHead) (HasHead-strip_under_left s)
  | inr other ↦ rw (other, HasHead) other
]

plain-ascii_lower :
    (c : Char)
    → identifier (code c) ≡ true
    → eqb (code c) b'_' ≡ false
    → plain (code (ascii_lower c)) ≡ true
plain-ascii_lower c h other = elim (Bool-cases (is_upper (code c))) [
  | inl up ↦ rw (ascii_lower-is_lower c up) refl
  | inr low ↦ rw (ascii_lower_other c low) (ground arith)
]

IsTrimmed-lower_text :
    (t : String)
    → HasHead t
    → all_chars identifier t ≡ true
    → IsTrimmed (lower_text (strip_under_right t))
unfolding all_chars strip_under_right lower_text
IsTrimmed-lower_text String.[] head h = inl refl
IsTrimmed-lower_text (String.◌∷◌ c s) head h =
    let first = plain-ascii_lower c (ground arith) head in inr (rw head first)

-- The words of `snake_case`.
abbrev pub IsWord : String → Type 0
IsWord s = (all_chars word s ≡ true) × IsTrimmed s

pub snake_case-IsWord : (value : String) → IsWord (snake_case value)
unfolding snake_case
snake_case-IsWord value =
    let runs = replace_runs false (split_acronym (split_camel value)) in
    let left = strip_under_left runs in
    let all =
      all_chars-strip_under_left identifier runs
        (identifier-replace_runs false (split_acronym (split_camel value))) in
    (
      word-lower_text (strip_under_right left) (all_chars-strip_under_right identifier left all),
      IsTrimmed-lower_text left (HasHead-strip_under_left runs) all,
    )
