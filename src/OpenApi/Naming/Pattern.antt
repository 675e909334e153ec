-- ===== src/OpenApi/Naming/Pattern.antt =====
-- The names that naming.py makes are tool names: `^[a-z][a-z0-9_]*$`, of 64 characters at most.
use Prim.Native.Char.{code}
use Prim.Native.String.{count}
use text.Mathlib.Text.{starts_with}
use text.Mathlib.TextLemmas.{cons-append, length-nil, length-cons, length-append}
use toollayer_ai.Base.{
  ℕ, zero, suc, ◌-◌, ◌≤◌, ◌≡◌, refl, subst, ap, inl, inr, String, Bool, true, false, not, ◌&&◌,
  Option, none, some, List, [], ◌∷◌, All, All-append, arith, leb, eqb, ◌==◌, eq_iff, is_digit,
  is_lower, Bool-cases, if◌then◌else◌,
}
use toollayer_ai.Contracts.CanonicalJson.{◌⧺◌}
use toollayer_ai.Policy.UrlText.{split_slash, all_chars}
use toollayer_ai.OpenApi.Errors.{value_error, ok, >>=-eq-ok, guard-eq-ok}
use toollayer_ai.OpenApi.Naming.{
  but_last_char, drop_first, ends_with_brace, version_text, nonempty_segments, next_is,
  strip_under_right, snake_case, take_chars, bounded, with_letter, max_tool_name_length,
  normalize_tool_name, method_verb, words_of, all_words, path_words, join_words, named,
  or_unsupported, NameTables, derive_tool_name, tool_name_of,
}
use toollayer_ai.OpenApi.Naming.Words.{
  or_text, word, all_chars-append, all_chars-strip_under_right, all_chars-take_chars, plain, IsWord,
  snake_case-IsWord,
}

-- `TOOL_NAME_PATTERN` and the length of a `ToolName`
pub is_tool_name : String → Bool
is_tool_name s = next_is is_lower s && all_chars word s && leb (count s) 64

-- What `_bounded` is given.
abbrev IsName : String → Type 0
IsName s = (next_is is_lower s ≡ true) × (all_chars word s ≡ true)

next_is-append : (p : ℕ → Bool) (s t : String) → next_is p s ≡ true → next_is p (s ⧺ t) ≡ true
next_is-append p String.[] t h = cc
next_is-append p (String.◌∷◌ c s) t h = rw cons-append h

is_lower-of_plain :
    (s : String) → next_is plain s ≡ true → next_is is_digit s ≡ false → next_is is_lower s ≡ true
is_lower-of_plain String.[] h other = h
is_lower-of_plain (String.◌∷◌ c s) h other = ground arith

with_letter-IsName : (s : String) → IsWord s → s == "" ≡ false → IsName (with_letter s)
unfolding all_chars
with_letter-IsName s (all, inl empty) some_text = (let same = (eq_iff s "").1 empty in ground arith)
with_letter-IsName s (all, inr head) some_text = elim (Bool-cases (next_is is_digit s)) [
  | inl digit ↦
      rw digit (next_is-append is_lower "op_" s refl, all_chars-append word "op_" s refl all)
  | inr letter ↦ rw letter (is_lower-of_plain s head letter, all)
]

count-take_chars : (n : ℕ) (s : String) → count (take_chars n s) ≤ n
unfolding take_chars
count-take_chars zero s = omega (arith, length-nil)
count-take_chars (suc n) String.[] = omega (arith, length-nil)
count-take_chars (suc n) (String.◌∷◌ c s) =
    omega (arith, length-cons c (take_chars n s), count-take_chars n s)

count-strip_under_right : (s : String) → count (strip_under_right s) ≤ count s
unfolding strip_under_right
count-strip_under_right String.[] = omega arith
count-strip_under_right (String.◌∷◌ c s) =
    elim (Bool-cases (eqb (code c) b'_' && strip_under_right s == "")) [
      | inl bare ↦ rw bare (omega (arith, length-nil))
      | inr kept ↦ rw kept (
          omega (
            arith,
            length-cons c s,
            length-cons c (strip_under_right s),
            count-strip_under_right s,
          ))
    ]

-- Shortening keeps the first letter.
next_is-shortened :
    (n : ℕ) (s t : String)
    → next_is is_lower s ≡ true
    → next_is is_lower (strip_under_right (take_chars (suc n) s) ⧺ t) ≡ true
unfolding take_chars strip_under_right
next_is-shortened n String.[] t h = cc
next_is-shortened n (String.◌∷◌ c s) t h =
    let other : eqb (code c) b'_' ≡ false = ground arith in rw other (rw cons-append h)

-- Ten digits of a digest.
abbrev pub IsDigest : (String → String) → Type 0
IsDigest digest =
    (text : String) → (count (digest text) ≡ 10) × (all_chars word (digest text) ≡ true)

small : (n : ℕ) → n ≤ 64 → leb n 64 ≡ true
small n h = ground arith

bounded-is_tool_name :
    (digest : String → String) (s : String)
    → IsDigest digest
    → IsName s
    → is_tool_name (bounded digest s) ≡ true
unfolding bounded is_tool_name all_chars
bounded-is_tool_name digest s ten (head, all) = elim (Bool-cases (leb (count s) 64)) [
  | inl short ↦ rw short (rw head (rw all short))
  | inr long ↦
      let prefix = strip_under_right (take_chars 53 s) in
      let kept : max_tool_name_length - count (digest s) - 1 ≡ 53 = omega (arith, (ten s).0) in
      let chars =
        all_chars-append word prefix ("_" ⧺ digest s)
          (all_chars-strip_under_right word (take_chars 53 s) (all_chars-take_chars word 53 s all))
          (all_chars-append word "_" (digest s) refl (ten s).1) in
      rw long (
        rw kept (
          rw (next_is-shortened 52 s ("_" ⧺ digest s) head) (
            rw chars (
              small (count (prefix ⧺ ("_" ⧺ digest s))) (
                omega (
                  arith,
                  length-append prefix ("_" ⧺ digest s),
                  length-append "_" (digest s),
                  (ten s).0,
                  count-strip_under_right (take_chars 53 s),
                  count-take_chars 53 s,
                ))))))
]

normalize_tool_name-is_tool_name :
    (digest : String → String) (value name : String)
    → IsDigest digest
    → normalize_tool_name digest value ≡ ok name
    → is_tool_name name ≡ true
unfolding normalize_tool_name
normalize_tool_name-is_tool_name digest value name ten h =
    let candidate = snake_case value in
    let (some_text, h₁) = guard-eq-ok (not (candidate == "")) value_error _ h in
    let same : bounded digest (with_letter candidate) ≡ name = ground arith in
    rw (← same) (
      bounded-is_tool_name digest (with_letter candidate) ten
        (with_letter-IsName candidate (snake_case-IsWord value) (ground arith)))

All-if :
    (b : Bool) (xs ys : List String)
    → All IsWord xs
    → All IsWord ys
    → All IsWord (if b then xs else ys)
All-if true xs ys h k = h
All-if false xs ys h k = k

one-IsWord : (s : String) → IsWord s → All IsWord (if s == "" then [] else s ∷ [])
one-IsWord s h = All-if (s == "") [] (s ∷ []) tt (h, tt)

words_of-All : (segment : String) → All IsWord (words_of segment)
unfolding words_of all_chars
words_of-All segment =
    let inner = snake_case (but_last_char (drop_first segment)) in
    All-if (starts_with segment "{" && ends_with_brace segment) _ _
      (All-if (inner == "") [] ("by" ∷ inner ∷ []) tt
        (((refl, inr refl), (snake_case-IsWord (but_last_char (drop_first segment)), tt))))
      (one-IsWord (snake_case segment) (snake_case-IsWord segment))

all_words-All : (segments : List String) → All IsWord (all_words segments)
unfolding all_words
all_words-All [] = tt
all_words-All (segment ∷ segments) =
    All-append IsWord (words_of segment) (all_words segments) (words_of-All segment)
      (all_words-All segments)

path_words-All :
    (decimal : ℕ → Bool) (lower : String → String) (segments : List String)
    → All IsWord (path_words decimal lower segments)
unfolding path_words
path_words-All decimal lower [] = tt
path_words-All decimal lower (segment ∷ segments) =
    elim (Bool-cases (version_text decimal (lower segment))) [
      | inl version ↦ rw version (all_words-All segments)
      | inr other ↦ rw other (all_words-All (segment ∷ segments))
    ]

word-join_words :
    (words : List String) → All IsWord words → all_chars word (join_words words) ≡ true
unfolding join_words all_chars
word-join_words [] h = refl
word-join_words (w ∷ []) h = h.0.0
word-join_words (w ∷ next ∷ words) h =
    all_chars-append word w ("_" ⧺ join_words (next ∷ words)) h.0.0 (
      all_chars-append word "_" (join_words (next ∷ words)) refl
        (word-join_words (next ∷ words) h.1))

one_verb :
    (b : Bool) (v : String) (rest : Option String) {verb : String}
    → IsName v
    → (rest ≡ some verb → IsName verb)
    → (if b then some v else rest) ≡ some verb
    → IsName verb
one_verb true v rest is other h = subst IsName (ap (or_text v) h) is
one_verb false v rest is other h = other h

method_verb-IsName : (method verb : String) → method_verb method ≡ some verb → IsName verb
unfolding method_verb all_chars
method_verb-IsName method verb h =
    one_verb (method == "get") "get" _ (refl, refl)
      (one_verb (method == "post") "create" _ (refl, refl)
        (one_verb (method == "put") "replace" _ (refl, refl)
          (one_verb (method == "patch") "update" _ (refl, refl)
            (one_verb (method == "delete") "delete" none (refl, refl) (λ bad. ground arith)))))
      h

prefixed-IsName :
    (verb rest : String) → IsName verb → all_chars word rest ≡ true → IsName (verb ⧺ ("_" ⧺ rest))
unfolding all_chars
prefixed-IsName verb rest (head, all) more = (
  next_is-append is_lower verb ("_" ⧺ rest) head,
  all_chars-append word verb ("_" ⧺ rest) all (all_chars-append word "_" rest refl more),
)

named-is_tool_name :
    (digest : String → String) (verb : String) (words : List String)
    → IsDigest digest
    → IsName verb
    → All IsWord words
    → is_tool_name (named digest verb words) ≡ true
unfolding all_chars
named-is_tool_name digest verb [] ten is all =
    bounded-is_tool_name digest (verb ⧺ "_root") ten
      (next_is-append is_lower verb "_root" is.0, all_chars-append word verb "_root" is.1 refl)
named-is_tool_name digest verb (w ∷ words) ten is all =
    bounded-is_tool_name digest (verb ⧺ ("_" ⧺ join_words (w ∷ words))) ten
      (prefixed-IsName verb (join_words (w ∷ words)) is (word-join_words (w ∷ words) all))

or_unsupported-eq-ok :
    (o : Option String) {verb : String} → or_unsupported o ≡ ok verb → o ≡ some verb
or_unsupported-eq-ok none h = ground arith
or_unsupported-eq-ok (some v) h = ground arith

derive_tool_name-is_tool_name :
    (tables : NameTables) (method path name : String)
    → IsDigest tables.digest
    → derive_tool_name tables method path ≡ ok name
    → is_tool_name name ≡ true
unfolding derive_tool_name
derive_tool_name-is_tool_name tables method path name ten h =
    let (verb, found, h₁) = >>=-eq-ok (or_unsupported (method_verb (tables.lower method))) _ h in
    let words = path_words tables.decimal tables.lower (nonempty_segments (split_slash path)) in
    let same : named tables.digest verb words ≡ name = ground arith in
    rw (← same) (
      named-is_tool_name tables.digest verb words ten
        (method_verb-IsName (tables.lower method) verb (or_unsupported-eq-ok _ found))
        (path_words-All tables.decimal tables.lower (nonempty_segments (split_slash path))))

-- Every tool name, of an `operationId` or of a method and path, matches the pattern `^[a-z][a-z0-9_]*$` of the contract
-- and has 64 characters at most; a digest gives ten characters of `[a-z0-9_]`.
pub tool_name_of-is_tool_name :
    (tables : NameTables) (operation_id : Option String) (method path name : String)
    → IsDigest tables.digest
    → tool_name_of tables operation_id method path ≡ ok name
    → is_tool_name name ≡ true
unfolding tool_name_of
tool_name_of-is_tool_name tables (some value) method path name ten h =
    normalize_tool_name-is_tool_name tables.digest value name ten h
tool_name_of-is_tool_name tables none method path name ten h =
    derive_tool_name-is_tool_name tables method path name ten h
