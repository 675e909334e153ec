-- ===== src/OpenApi/Schemas.antt =====
-- schema_conversion.py: from the schemas of OpenAPI to JSON Schema. The fuel of `convert_from` is what is left of
-- the depth that the module allows. `equal` is Python's `==`, which compares numbers by value.
pub mod Sound
pub mod Shapes
pub mod Closed
use toollayer_ai.Base.{
  ℕ, zero, suc, String, Bool, true, false, not, ◌&&◌, ◌||◌, Option, none, some, List, [], ◌∷◌, ◌++◌,
  ◌==◌, strip, contains, if◌then◌else◌,
}
use toollayer_ai.Json.{
  Json, null, bool, int, float, str, arr, obj, Items, nil, cons, Fields, end, field, find, get, put,
  without, items, to_items,
}
use toollayer_ai.Contracts.CanonicalJson.{◌⧺◌}
use toollayer_ai.OpenApi.Errors.{
  Failure, invalid_document, unsupported_feature, Result, ok, err, ◌>>=◌, ◌>>◌, guard,
}
use toollayer_ai.OpenApi.References.{below}

abbrev pub max_schema_depth : ℕ
max_schema_depth = 8

-- `key in schema`
abbrev pub has : String → Fields → Bool
has key fs = elim (find key fs) [ none ↦ false | some value ↦ true ]

abbrev pub all_types : List String
all_types = "string" ∷ "integer" ∷ "number" ∷ "boolean" ∷ "object" ∷ "array" ∷ "null" ∷ []

abbrev ignored_keywords : List String
ignored_keywords =
    "example" ∷ "examples" ∷ "externalDocs" ∷ "readOnly" ∷ "writeOnly" ∷ "xml" ∷ "discriminator"
    ∷ []

abbrev is_number : String → Bool
is_number declared = declared == "integer" || declared == "number"

-- `_matches_type`
unfoldable pub matches_type : Json → String → Bool
matches_type null declared = declared == "null"
matches_type (bool b) declared = declared == "boolean"
matches_type (int n) declared = is_number declared
matches_type (float finite text) declared = declared == "number"
matches_type (str s) declared = declared == "string"
matches_type (arr xs) declared = declared == "array"
matches_type (obj fs) declared = declared == "object"

-- The declared type, where it is one of the supported ones.
unfoldable pub declared_type : Json → String → Result String
declared_type (str declared) pointer = do
  guard (contains all_types declared) (unsupported_feature pointer)
  ok declared
declared_type _ pointer = err (unsupported_feature pointer)

-- `_apply_nullable`
unfoldable pub apply_nullable : Json → String → String → Fields → Result Fields
apply_nullable null declared pointer converted = ok converted
apply_nullable (bool true) declared pointer converted =
    ok (put "type" (arr (cons (str declared) (cons (str "null") nil))) converted)
apply_nullable (bool false) declared pointer converted = ok converted
apply_nullable _ declared pointer converted = err (invalid_document pointer)

-- One keyword of `_apply_annotations`
unfoldable pub apply_annotation : String → Option Json → String → Fields → Result Fields
apply_annotation keyword none pointer converted = ok converted
apply_annotation keyword (some (str value)) pointer converted =
    ok (if strip value == "" then converted else put keyword (str (strip value)) converted)
apply_annotation keyword (some _) pointer converted = err (invalid_document pointer)

-- `_apply_annotations`
unfoldable pub apply_annotations : Fields → String → Fields → Result Fields
apply_annotations schema pointer converted = do
  described ← apply_annotation "description" (find "description" schema) pointer converted
  apply_annotation "title" (find "title" schema) pointer described

abbrev is_null : Json → Bool
is_null null = true
is_null _ = false

all_match : Items → String → Bool
all_match nil declared = true
all_match (cons x xs) declared = (is_null x || matches_type x declared) && all_match xs declared

-- `_apply_enum_and_default`, the part on "enum"
unfoldable pub apply_enum : Option Json → String → String → Fields → Result Fields
unfolding all_match
apply_enum none declared pointer converted = ok converted
apply_enum (some (arr nil)) declared pointer converted = err (invalid_document pointer)
apply_enum (some (arr (cons x xs))) declared pointer converted = do
  guard (all_match (cons x xs) declared) (invalid_document pointer)
  ok (put "enum" (arr (cons x xs)) converted)
apply_enum (some _) declared pointer converted = err (invalid_document pointer)

among : (Json → Json → Bool) → Json → Items → Bool
among equal value nil = false
among equal value (cons x xs) = equal value x || among equal value xs

-- `"enum" in converted and default not in converted["enum"]`
abbrev outside_enum : (Json → Json → Bool) → Json → Option Json → Bool
outside_enum equal value (some (arr xs)) = not (among equal value xs)
outside_enum equal value _ = false

-- The part on "default"
unfoldable pub apply_default :
    (Json → Json → Bool) → Option Json → String → String → Fields → Result Fields
unfolding among
apply_default equal none declared pointer converted = ok converted
apply_default equal (some value) declared pointer converted = do
  guard (matches_type value declared) (invalid_document pointer)
  guard (not (outside_enum equal value (find "enum" converted))) (invalid_document pointer)
  ok (put "default" value converted)

abbrev is_text_keyword : String → Bool
is_text_keyword keyword = keyword == "pattern" || keyword == "format"

abbrev number_value : Json → Bool
number_value (int n) = true
number_value (float finite text) = true
number_value _ = false

abbrev nonempty_text : Json → Bool
nonempty_text (str s) = not (s == "")
nonempty_text _ = false

-- One keyword of `_copy_supported`
unfoldable pub copy_keyword : String → Option Json → String → Fields → Result Fields
copy_keyword keyword none pointer converted = ok converted
copy_keyword keyword (some value) pointer converted = do
  guard (if is_text_keyword keyword then nonempty_text value else number_value value)
      (invalid_document pointer)
  ok (put keyword value converted)

-- `_copy_supported`; the keywords are given in ascending order.
unfoldable pub copy_supported : List String → Fields → String → Fields → Result Fields
copy_supported [] schema pointer converted = ok converted
copy_supported (keyword ∷ keywords) schema pointer converted = do
  next ← copy_keyword keyword (find keyword schema) pointer converted
  copy_supported keywords schema pointer next

-- `converted.pop(bound)` where there is one
abbrev exclusive_of : String → String → Option Json → String → Fields → Result Fields
exclusive_of bound exclusive none pointer converted = err (invalid_document pointer)
exclusive_of bound exclusive (some null) pointer converted = err (invalid_document pointer)
exclusive_of bound exclusive (some value) pointer converted =
    ok (put exclusive value (without bound converted))

-- One bound of `_apply_exclusive_bounds`
unfoldable pub apply_exclusive : String → String → Option Json → String → Fields → Result Fields
apply_exclusive bound exclusive none pointer converted = ok converted
apply_exclusive bound exclusive (some (bool false)) pointer converted = ok converted
apply_exclusive bound exclusive (some (bool true)) pointer converted =
    exclusive_of bound exclusive (find bound converted) pointer converted
apply_exclusive bound exclusive (some (int n)) pointer converted =
    ok (put exclusive (int n) converted)
apply_exclusive bound exclusive (some (float finite text)) pointer converted =
    ok (put exclusive (float finite text) converted)
apply_exclusive bound exclusive (some _) pointer converted = err (invalid_document pointer)

-- `_apply_exclusive_bounds`
unfoldable pub apply_exclusive_bounds : Fields → String → Fields → Result Fields
apply_exclusive_bounds schema pointer converted = do
  low ←
      apply_exclusive "minimum" "exclusiveMinimum" (find "exclusiveMinimum" schema) pointer
        converted
  apply_exclusive "maximum" "exclusiveMaximum" (find "exclusiveMaximum" schema) pointer low

abbrev known_always : List String
known_always =
    "type" ∷ "nullable" ∷ "enum" ∷ "default" ∷ "exclusiveMinimum" ∷ "exclusiveMaximum"
    ∷ "description" ∷ "title" ∷ ignored_keywords

abbrev pub string_keywords : List String
string_keywords = "format" ∷ "maxLength" ∷ "minLength" ∷ "pattern" ∷ []

abbrev pub number_keywords : List String
number_keywords = "maximum" ∷ "minimum" ∷ []

abbrev pub array_keywords : List String
array_keywords = "maxItems" ∷ "minItems" ∷ []

abbrev pub known_for : String → List String
known_for declared =
    if declared == "string"
    then string_keywords
    else if is_number declared
    then number_keywords
    else if declared == "array"
    then "items" ∷ array_keywords
    else if declared == "object"
    then "properties" ∷ "required" ∷ "additionalProperties" ∷ []
    else []

unfoldable pub all_known : List String → Fields → Bool
all_known known end = true
all_known known (field key value fs) = contains known key && all_known known fs

-- `_reject_unknown_keywords`
unfoldable pub reject_unknown : Fields → String → String → Result (Unit {0})
reject_unknown schema declared pointer =
    guard (all_known (known_always ++ known_for declared) schema) (unsupported_feature pointer)

-- The conversion of a nested schema, at its pointer.
abbrev pub Step : Type 0
Step = Json → String → Result Fields

-- The loop over "properties".
unfoldable pub convert_properties : Step → Fields → String → Fields → Result Fields
convert_properties again end pointer properties = ok properties
convert_properties again (field name value fs) pointer properties = do
  guard (not (name == "")) (invalid_document pointer)
  converted ← again value (below (pointer ⧺ "/properties") name)
  convert_properties again fs pointer (put name (obj converted) properties)

-- The loop over "required".
unfoldable pub read_required : Items → Fields → String → List String → Result (List String)
read_required nil properties pointer required = ok required
read_required (cons (str entry) xs) properties pointer required = do
  guard (has entry properties) (invalid_document (pointer ⧺ "/required"))
  read_required xs properties pointer
      (if contains required entry then required else required ++ (entry ∷ []))
read_required (cons _ xs) properties pointer required =
    err (invalid_document (pointer ⧺ "/required"))

abbrev required_items : String → Option Json → Result Items
required_items pointer none = ok nil
required_items pointer (some (arr xs)) = ok xs
required_items pointer (some _) = err (invalid_document (pointer ⧺ "/required"))

abbrev pub texts : List String → Items
texts [] = nil
texts (s ∷ ss) = cons (str s) (texts ss)

-- `schema.get("additionalProperties") in (None, False)`
abbrev closed_source : (Json → Json → Bool) → Json → Bool
closed_source equal null = true
closed_source equal value = equal value (bool false)

abbrev properties_of : String → Json → Result Fields
properties_of pointer (obj (field name value fs)) = ok (field name value fs)
properties_of pointer _ = err (unsupported_feature pointer)

-- `_convert_object`, with the update of what was converted before.
unfoldable pub convert_object :
    (Json → Json → Bool) → Step → Fields → String → Fields → Result Fields
convert_object equal again schema pointer converted = do
  source ← properties_of pointer (get "properties" schema)
  guard (closed_source equal (get "additionalProperties" schema)) (unsupported_feature pointer)
  properties ← convert_properties again source pointer end
  entries ← required_items pointer (find "required" schema)
  required ← read_required entries properties pointer []
  ok (
      put "additionalProperties" (bool false)
        (put "required" (arr (texts required)) (put "properties" (obj properties) converted)))

unfoldable pub convert_array : Step → Fields → String → Fields → Result Fields
convert_array again schema pointer converted = do
  copied ← copy_supported array_keywords schema pointer converted
  guard (not (is_null (get "items" schema))) (unsupported_feature pointer)
  converted_items ← again (get "items" schema) (pointer ⧺ "/items")
  ok (put "items" (obj converted_items) copied)

-- The statements for the types that are neither texts nor numbers.
unfoldable pub convert_compound :
    (Json → Json → Bool) → Step → String → Fields → String → Fields → Result Fields
convert_compound equal again declared schema pointer converted =
    if declared == "array"
    then convert_array again schema pointer converted
    else if declared == "object"
    then convert_object equal again schema pointer converted
    else ok converted

-- The statements that depend on the declared type.
unfoldable pub convert_by_type :
    (Json → Json → Bool) → Step → String → Fields → String → Fields → Result Fields
convert_by_type equal again declared schema pointer converted =
    if declared == "string"
    then copy_supported string_keywords schema pointer converted
    else if is_number declared
    then (do
      copied ← copy_supported number_keywords schema pointer converted
      apply_exclusive_bounds schema pointer copied)
    else convert_compound equal again declared schema pointer converted

abbrev composed : Fields → Bool
composed schema = has "oneOf" schema || has "allOf" schema || has "anyOf" schema || has "not" schema

unfoldable pub convert_fields : (Json → Json → Bool) → Step → Fields → String → Result Fields
convert_fields equal again schema pointer = do
  guard (not (composed schema)) (unsupported_feature pointer)
  guard (not (has "$ref" schema)) (invalid_document pointer)
  declared ← declared_type (get "type" schema) pointer
  typed ← apply_nullable (get "nullable" schema) declared pointer (field "type" (str declared) end)
  annotated ← apply_annotations schema pointer typed
  listed ← apply_enum (find "enum" schema) declared pointer annotated
  defaulted ← apply_default equal (find "default" schema) declared pointer listed
  converted ← convert_by_type equal again declared schema pointer defaulted
  reject_unknown schema declared pointer
  ok converted

-- `convert_schema` at depth `suc max_schema_depth - left`
unfoldable pub convert_from : (Json → Json → Bool) → ℕ → Step
convert_from equal zero (obj schema) pointer = err (unsupported_feature pointer)
convert_from equal (suc left) (obj schema) pointer =
    convert_fields equal (convert_from equal left) schema pointer
convert_from equal _ _ pointer = err (invalid_document pointer)

unfoldable pub convert_schema : (Json → Json → Bool) → Json → String → Result Fields
convert_schema equal schema pointer = convert_from equal (suc max_schema_depth) schema pointer
