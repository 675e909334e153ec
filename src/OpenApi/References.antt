-- ===== src/OpenApi/References.antt =====
-- references.py: the inlining of same-document references. The fuel of `resolve` is what is left of the depth that
-- the resolver allows, so it runs out exactly where the resolver refuses. `read_int` is Python's `int` of a text.
pub mod Inlined
pub mod Siblings
use Prim.Native.Char.{code}
use Prim.Native.String
use text.Mathlib.Text.{starts_with}
use toollayer_ai.Base.{
  ℕ, zero, suc, String, Bool, true, false, not, ◌&&◌, Option, none, some, List, [], ◌∷◌, ◌++◌, ◌==◌,
  show, contains, ltb, if◌then◌else◌,
}
use toollayer_ai.Json.{
  ℤ, pos, negsuc, Json, null, str, arr, obj, Items, nil, cons, Fields, end, field, find, get, put,
  items,
}
use toollayer_ai.Contracts.CanonicalJson.{◌⧺◌}
use toollayer_ai.Policy.UrlText.{replace}
use toollayer_ai.Policy.Arguments.{tokens}
use toollayer_ai.OpenApi.Errors.{
  Failure, invalid_document, unsupported_feature, Result, ok, err, ◌>>=◌, ◌>>◌, guard,
}

-- `encode_pointer_token`
unfoldable pub encode_pointer_token : String → String
encode_pointer_token token = replace "/" "~1" (replace "~" "~0" token)

abbrev pub max_resolution_depth : ℕ
max_resolution_depth = 32

abbrev drop_first : String → String
drop_first String.[] = ""
drop_first (String.◌∷◌ c s) = s

-- `_reference_pointer`
unfoldable pub reference_pointer : Json → String → Result String
reference_pointer (str reference) pointer = do
  guard (not (reference == "")) (invalid_document pointer)
  guard (starts_with reference "#/") (unsupported_feature pointer)
  ok (drop_first reference)
reference_pointer _ pointer = err (invalid_document pointer)

-- `current[index]` for an index in range; `none` is one out of range.
unfoldable pub element : ℕ → Items → Option Json
element n nil = none
element zero (cons x xs) = some x
element (suc n) (cons x xs) = element n xs

abbrev at_index : Option ℤ → Items → Option Json
at_index (some (pos n)) xs = element n xs
at_index _ xs = none

-- One token of a pointer; every failure is an `InvalidDocumentError` at the origin.
unfoldable pub descend : (String → Option ℤ) → String → Json → Option Json
unfolding element
descend read_int key (obj fields) = find key fields
descend read_int key (arr xs) = at_index (read_int key) xs
descend read_int key _ = none

abbrev or_invalid : String → Option Json → Result Json
or_invalid origin none = err (invalid_document origin)
or_invalid origin (some value) = ok value

unfoldable pub walk : (String → Option ℤ) → String → List String → Json → Result Json
walk read_int origin [] current = ok current
walk read_int origin (key ∷ keys) current = do
  next ← or_invalid origin (descend read_int key current)
  walk read_int origin keys next

-- `_dereference`; `tokens` splits and unescapes a pointer.
unfoldable pub dereference : (String → Option ℤ) → Fields → String → String → Result Json
dereference read_int document target origin = walk read_int origin (tokens target) (obj document)

-- A resolution of one node, at a pointer, with the references that led to it.
abbrev pub Step : Type 0
Step = Json → String → List String → Result Json

-- `f"{pointer}/{encode_pointer_token(key)}"`
abbrev pub below : String → String → String
below pointer key = pointer ⧺ ("/" ⧺ encode_pointer_token key)

-- The comprehension over the entries of a `dict`.
unfoldable pub resolve_fields : Step → Fields → String → List String → Result Fields
resolve_fields again end pointer seen = ok end
resolve_fields again (field key value fs) pointer seen = do
  first ← again value (below pointer key) seen
  rest ← resolve_fields again fs pointer seen
  ok (field key first rest)

-- The comprehension over a `list`, from an index on.
unfoldable pub resolve_items : Step → ℕ → Items → String → List String → Result Items
resolve_items again index nil pointer seen = ok nil
resolve_items again index (cons x xs) pointer seen = do
  first ← again x (pointer ⧺ ("/" ⧺ show index)) seen
  rest ← resolve_items again (suc index) xs pointer seen
  ok (cons first rest)

-- The siblings of "$ref", each resolved and assigned over the target's entry.
unfoldable pub merge_siblings : Step → Fields → String → List String → Fields → Result Fields
merge_siblings again end pointer seen merged = ok merged
merge_siblings again (field key value fs) pointer seen merged =
    if key == "$ref" then merge_siblings again fs pointer seen merged else (do
      resolved ← again value (below pointer key) seen
      merge_siblings again fs pointer seen (put key resolved merged))

unfoldable pub overlay : Step → Fields → String → List String → Json → Result Json
overlay again node pointer seen (obj resolved) = do
  merged ← merge_siblings again node pointer seen resolved
  ok (obj merged)
overlay again node pointer seen resolved = ok resolved

-- The statements for a `dict` that has a reference.
unfoldable pub resolve_reference :
    (String → Option ℤ) → Fields → Step → Fields → Json → String → List String → Result Json
resolve_reference read_int document again node reference pointer seen = do
  target_pointer ← reference_pointer reference pointer
  guard (not (contains seen target_pointer)) (unsupported_feature pointer)
  target ← dereference read_int document target_pointer pointer
  resolved ← again target target_pointer (seen ++ (target_pointer ∷ []))
  overlay again node pointer seen resolved

-- A `dict` by its entry "$ref".
unfoldable pub resolve_object :
    (String → Option ℤ) → Fields → Step → Fields → Json → String → List String → Result Json
resolve_object read_int document again node null pointer seen = do
  fields ← resolve_fields again node pointer seen
  ok (obj fields)
resolve_object read_int document again node reference pointer seen =
    resolve_reference read_int document again node reference pointer seen

-- `_resolve`
unfoldable pub resolve_from : (String → Option ℤ) → Fields → ℕ → Step
resolve_from read_int document zero node pointer seen = err (unsupported_feature pointer)
resolve_from read_int document (suc left) (obj node) pointer seen =
    resolve_object read_int document (resolve_from read_int document left) node (get "$ref" node)
      pointer seen
resolve_from read_int document (suc left) (arr xs) pointer seen = do
  resolved ← resolve_items (resolve_from read_int document left) 0 xs pointer seen
  ok (arr resolved)
resolve_from read_int document (suc left) node pointer seen = ok node

-- `ReferenceResolver.resolve`
unfoldable pub resolve : (String → Option ℤ) → Fields → Json → String → Result Json
resolve read_int document node pointer =
    resolve_from read_int document (suc max_resolution_depth) node pointer []
