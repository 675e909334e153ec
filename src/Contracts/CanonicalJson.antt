-- ===== src/Contracts/CanonicalJson.antt =====
-- canonical_json.py: the text that digests and signatures are taken over. A document is canonical
-- text, not bytes: UTF-8 is one to one on the texts that `json.dumps` writes. SHA-256 is a
-- parameter. The numbers in brackets in the source's error messages are left out.
pub mod Reordering
use Prim.Native.Char.{Char, code}
use Prim.Native.String
use text.Mathlib.Text.{starts_with}
use toollayer_ai.Base.{
  ℕ, zero, suc, ◌+◌, ◌/◌, ◌%◌, String, Bool, true, false, ◌&&◌, Option, none, some, List, [], ◌∷◌,
  ltb, eqb, ◌==◌, text_lt, show, digit_char, contains, if◌then◌else◌,
}
use toollayer_ai.Json.{
  ℤ, pos, negsuc, Json, null, bool, int, float, str, arr, obj, Items, nil, cons, Fields, end, field,
  find, without,
}

infixr 65 ◌⧺◌
abbrev pub ◌⧺◌ : String → String → String
s ⧺ t = String.◌++◌ s t

-- `_assert_serializable`: every float is finite. Keys are texts, and no other type is a `Json`.
unfoldable mutual
  pub serializable : Json → Bool
  serializable null = true
  serializable (bool b) = true
  serializable (int n) = true
  serializable (float finite text) = finite
  serializable (str s) = true
  serializable (arr xs) = serializable_items xs
  serializable (obj fs) = serializable_fields fs

  pub serializable_items : Items → Bool
  serializable_items nil = true
  serializable_items (cons x xs) = serializable x && serializable_items xs

  pub serializable_fields : Fields → Bool
  serializable_fields end = true
  serializable_fields (field k v fs) = serializable v && serializable_fields fs

-- A digit of `\u00xx`, in lower case.
hex_char : ℕ → Char
hex_char d =
    if ltb d 10
    then digit_char d
    else if eqb d 10
    then "a"
    else if eqb d 11
    then "b"
    else if eqb d 12
    then "c"
    else if eqb d 13
    then "d"
    else if eqb d 14
    then "e"
    else "f"

abbrev single : Char → String
single c = String.◌∷◌ c String.[]

-- `json.dumps` of one character, with `ensure_ascii=False`
unfoldable pub escape_char : Char → String
unfolding hex_char
escape_char c =
    if eqb (code c) b'"'
    then "\\\""
    else if eqb (code c) 92
    then "\\\\"
    else if eqb (code c) 10
    then "\\n"
    else if eqb (code c) 13
    then "\\r"
    else if eqb (code c) 9
    then "\\t"
    else if eqb (code c) 12
    then "\\f"
    else if eqb (code c) 8
    then "\\b"
    else if ltb (code c) 32
    then "\\u00" ⧺ single (hex_char (code c / 16)) ⧺ single (hex_char (code c % 16))
    else single c

unfoldable pub escape : String → String
escape String.[] = ""
escape (String.◌∷◌ c s) = escape_char c ⧺ escape s

unfoldable pub quoted : String → String
unfolding escape escape_char
quoted s = "\"" ⧺ escape s ⧺ "\""

pub render_int : ℤ → String
render_int (pos n) = show n
render_int (negsuc n) = "-" ⧺ show (suc n)

-- `separators=(",", ":")`
unfoldable pub join : List String → String
join [] = ""
join (s ∷ []) = s
join (s ∷ t ∷ rest) = s ⧺ "," ⧺ join (t ∷ rest)

-- `sort_keys=True`, over the entries with their values rendered
abbrev pub Entry : Type 0
Entry = String × String

unfoldable pub insert_entry : Entry → List Entry → List Entry
insert_entry e [] = e ∷ []
insert_entry e (x ∷ xs) = if text_lt x.0 e.0 then x ∷ insert_entry e xs else e ∷ x ∷ xs

unfoldable pub write_entries : List Entry → List String
write_entries [] = []
write_entries (e ∷ es) = (quoted e.0 ⧺ ":" ⧺ e.1) ∷ write_entries es

mutual
  pub render : Json → String
  render null = "null"
  render (bool true) = "true"
  render (bool false) = "false"
  render (int n) = render_int n
  render (float finite text) = text
  render (str s) = quoted s
  render (arr xs) = "[" ⧺ join (render_items xs) ⧺ "]"
  render (obj fs) = "{" ⧺ join (write_entries (render_fields fs)) ⧺ "}"

  pub render_items : Items → List String
  render_items nil = []
  render_items (cons x xs) = render x ∷ render_items xs

  pub render_fields : Fields → List Entry
  render_fields end = []
  render_fields (field k v fs) = insert_entry (k, render v) (render_fields fs)

-- `none` is `CanonicalJsonError`.
unfoldable pub canonical_json : Json → Option String
canonical_json document = if serializable document then some (render document) else none

-- `{key: value for key, value in document.items() if key not in excluded}`
unfoldable pub excluding : List String → Fields → Fields
excluding excluded end = end
excluding excluded (field k v fs) =
    if contains excluded k then excluding excluded fs else field k v (excluding excluded fs)

abbrev pub digest_prefix : String
digest_prefix = "sha256:"

abbrev pub snapshot_digest_excluded : List String
snapshot_digest_excluded = "snapshot_id" ∷ "snapshot_digest" ∷ "signature" ∷ []

module _ (sha256_hex : String → String) where
  abbrev pub prefixed_digest : Option String → Option String
  prefixed_digest none = none
  prefixed_digest (some text) = some (digest_prefix ⧺ sha256_hex text)

  -- `content_digest` of an object; an empty `exclude` leaves the document as it is.
  unfoldable pub content_digest : List String → Fields → Option String
  content_digest exclude document =
      prefixed_digest (canonical_json (obj (excluding exclude document)))

  abbrev pub digest_is : Option String → String → Bool
  digest_is none expected = false
  digest_is (some actual) expected = actual == expected

  -- A text with another prefix is refused before the document is read.
  unfoldable pub verify_digest : List String → Fields → String → Bool
  verify_digest exclude document expected =
      starts_with expected digest_prefix && digest_is (content_digest exclude document) expected
