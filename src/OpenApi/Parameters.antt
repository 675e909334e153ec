-- ===== src/OpenApi/Parameters.antt =====
-- converter.py: the parameters of an operation, and the placeholders of its path.
use Prim.Native.Char.{code}
use toollayer_ai.Base.{
  String, Bool, true, false, not, ◌&&◌, ◌||◌, Option, none, some, List, [], ◌∷◌, eqb, ◌==◌, strip,
  contains, distinct, if◌then◌else◌,
}
use toollayer_ai.Json.{Json, null, bool, str, arr, obj, Items, nil, cons, Fields, find, get}
use toollayer_ai.Contracts.CanonicalJson.{◌⧺◌}
use toollayer_ai.Contracts.Models.{BindingTarget, path, query}
use toollayer_ai.OpenApi.Errors.{
  Failure, invalid_document, unsupported_feature, Result, ok, err, ◌>>=◌, ◌>>◌, guard,
}
use toollayer_ai.OpenApi.Schemas.{has}

-- `InvalidDocumentError` and `UnsupportedFeatureError` without a pointer
abbrev pub invalid : Failure
invalid = invalid_document ""

abbrev pub unsupported : Failure
unsupported = unsupported_feature ""

-- `_Parameter`; its location is a target of bindings.
pub record Parameter : Type 0 where
  pub name : String
  pub location : BindingTarget
  pub required : Bool
  pub schema : Fields
  pub description : Option String

-- `fields.get(key, default)` where a value that is no Boolean is refused.
abbrev pub flag_or : Bool → Option Json → Result Bool
flag_or default none = ok default
flag_or default (some (bool b)) = ok b
flag_or default (some _) = err invalid

abbrev nonempty : Json → Result String
nonempty (str s) = guard (not (s == "")) invalid >> ok s
nonempty _ = err invalid

abbrev location_of : String → Result BindingTarget
location_of text =
    if text == "header" || text == "cookie"
    then err unsupported
    else if text == "path"
    then ok path
    else if text == "query"
    then ok query
    else err invalid

abbrev pub is_path : BindingTarget → Bool
is_path path = true
is_path _ = false

abbrev is_default_style : Bool → Option Json → Bool
is_default_style in_path none = true
is_default_style in_path (some (str s)) = s == (if in_path then "simple" else "form")
is_default_style in_path (some _) = false

abbrev same_flag : Bool → Bool → Bool
same_flag true b = b
same_flag false b = not b

-- `_reject_unsupported_serialization`
unfoldable pub reject_serialization : Fields → Bool → Result (Unit {0})
reject_serialization entry in_path = do
  guard (is_default_style in_path (find "style" entry)) unsupported
  explode ← flag_or (not in_path) (find "explode" entry)
  guard (same_flag explode (not in_path)) unsupported
  reserved ← flag_or false (find "allowReserved" entry)
  guard (not reserved) unsupported
  empty ← flag_or false (find "allowEmptyValue" entry)
  guard (not empty) unsupported

abbrev pub object_of : Json → Result Fields
object_of (obj fields) = ok fields
object_of _ = err invalid

abbrev description_of : Json → Result (Option String)
description_of null = ok none
description_of (str s) = ok (some (strip s))
description_of _ = err invalid

-- `_parse_parameter`
unfoldable pub parse_parameter : Json → Result Parameter
parse_parameter given = do
  entry ← object_of given
  guard (not (has "$ref" entry)) invalid
  name ← nonempty (get "name" entry)
  text ← nonempty (get "in" entry)
  location ← location_of text
  required ← flag_or false (find "required" entry)
  guard (not (is_path location && not required)) invalid
  reject_serialization entry (is_path location)
  guard (not (has "content" entry)) unsupported
  schema ← object_of (get "schema" entry)
  description ← description_of (get "description" entry)
  ok (record {
    name = name;
    location = location;
    required = required;
    schema = schema;
    description = description;
  })

abbrev same_location : BindingTarget → BindingTarget → Bool
same_location path path = true
same_location query query = true
same_location _ _ = false

-- The keys of `merged` are equal.
abbrev same_key : Parameter → Parameter → Bool
same_key p q = p.name == q.name && same_location p.location q.location

unfoldable pub is_seen : Parameter → List Parameter → Bool
is_seen p [] = false
is_seen p (q ∷ qs) = same_key p q || is_seen p qs

-- `merged[key] = parameter`
unfoldable pub merge : Parameter → List Parameter → List Parameter
merge p [] = p ∷ []
merge p (q ∷ qs) = let rest = merge p qs in if same_key p q then p ∷ qs else q ∷ rest

-- The loop over the parameters of one source, with those seen in it before.
unfoldable pub merge_entries : Items → List Parameter → List Parameter → Result (List Parameter)
merge_entries nil seen merged = ok merged
merge_entries (cons entry entries) seen merged = do
  parameter ← parse_parameter entry
  guard (not (is_seen parameter seen)) invalid
  merge_entries entries (parameter ∷ seen) (merge parameter merged)

unfoldable pub merge_source : Json → List Parameter → Result (List Parameter)
merge_source null merged = ok merged
merge_source (arr entries) merged = merge_entries entries [] merged
merge_source _ merged = err invalid

-- `_collect_parameters`
unfoldable pub collect_parameters : Fields → Fields → Result (List Parameter)
collect_parameters path_item operation = do
  merged ← merge_source (get "parameters" path_item) []
  merge_source (get "parameters" operation) merged

-- The loop over the characters of a path: `depth` says whether a placeholder is open, and `current` is its text so far.
unfoldable pub placeholders : Bool → String → String → Result (List String)
placeholders depth current String.[] = guard (not depth) invalid >> ok []
placeholders depth current (String.◌∷◌ c s) =
    let opened = placeholders true "" s in
    let closed = placeholders false current s in
    let longer = placeholders true (current ⧺ String.◌∷◌ c "") s in
    if eqb (code c) b'{'
    then guard (not depth) invalid >> opened
    else if eqb (code c) b'}'
    then guard depth invalid >> (closed >>= λ names. ok (current ∷ names))
    else if depth
    then longer
    else closed

-- The names of the parameters in the path
unfoldable pub path_names : List Parameter → List String
path_names [] = []
path_names (p ∷ ps) = let rest = path_names ps in if is_path p.location then p.name ∷ rest else rest

-- No element of `set(names) - set(others)`
unfoldable pub all_among : List String → List String → Bool
all_among [] others = true
all_among (name ∷ names) others = contains others name && all_among names others

-- `_check_path_placeholders`
unfoldable pub check_path_placeholders : String → List Parameter → Result (Unit {0})
check_path_placeholders template parameters = do
  names ← placeholders false "" template
  guard (distinct names) invalid
  guard (all_among names (path_names parameters)) invalid
  guard (all_among (path_names parameters) names) invalid
