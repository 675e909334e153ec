-- ===== src/Contracts/Models/Operations.antt =====
-- models.py: the validators of `ToolOperation` and `ToolDefinition`, which compare the bindings with each other, with
-- the media type of the body and with the input schema.
use Prim.Native.Char.{code}
use toollayer_ai.Base.{
  String, Bool, true, false, not, ◌&&◌, ◌||◌, Option, none, some, List, [], ◌∷◌, eqb, ◌==◌,
  if◌then◌else◌,
}
use toollayer_ai.Json.{Json, bool, str, arr, obj, Fields, end, field, get}
use toollayer_ai.Contracts.Models.{
  BindingTarget, path, query, header, body, ArgumentBinding, ToolOperation, ToolDefinition, is_body,
}

abbrev same_target : BindingTarget → BindingTarget → Bool
same_target path path = true
same_target query query = true
same_target header header = true
same_target body body = true
same_target _ _ = false

is_bound : ArgumentBinding → List ArgumentBinding → Bool
is_bound b [] = false
is_bound b (c ∷ cs) =
    (same_target b.target c.target && b.target_name == c.target_name) || is_bound b cs

distinct_locations : List ArgumentBinding → Bool
unfolding is_bound
distinct_locations [] = true
distinct_locations (b ∷ bs) = not (is_bound b bs) && distinct_locations bs

has_body : List ArgumentBinding → Bool
has_body [] = false
has_body (b ∷ bs) = is_body b.target || has_body bs

abbrev is_none : Option String → Bool
is_none none = true
is_none (some _) = false

-- `ToolOperation._bindings_are_consistent`
unfoldable pub bindings_are_consistent : ToolOperation → Bool
unfolding distinct_locations has_body
bindings_are_consistent operation =
    distinct_locations operation.bindings
    && (if has_body operation.bindings
        then not (is_none operation.request_body_media_type)
        else is_none operation.request_body_media_type)

-- `text.lstrip("/")`
strip_slash : String → String
strip_slash String.[] = ""
strip_slash (String.◌∷◌ c s) =
    let rest = strip_slash s in if eqb (code c) b'/' then rest else String.◌∷◌ c s

-- `text.split("/", 1)[0]`
until_slash : String → String
until_slash String.[] = ""
until_slash (String.◌∷◌ c s) =
    let rest = until_slash s in if eqb (code c) b'/' then "" else String.◌∷◌ c rest

-- The text is a key.
has_name : String → Fields → Bool
has_name name end = false
has_name name (field key value fs) = key == name || has_name name fs

reads_declared : Fields → List ArgumentBinding → Bool
unfolding strip_slash until_slash has_name
reads_declared properties [] = true
reads_declared properties (b ∷ bs) =
    has_name (until_slash (strip_slash b.argument_pointer)) properties
    && reads_declared properties bs

abbrev fields_of : Json → Fields
fields_of (obj fields) = fields
fields_of _ = end

-- `ToolDefinition._bindings_reference_declared_arguments`
unfoldable pub bindings_reference_declared : ToolDefinition → Bool
unfolding reads_declared
bindings_reference_declared tool =
    reads_declared (fields_of (get "properties" tool.input_schema)) tool.operation.bindings

abbrev is_text : String → Json → Bool
is_text text (str s) = s == text
is_text text _ = false

abbrev is_false : Json → Bool
is_false (bool false) = true
is_false _ = false

abbrev is_dict : Json → Bool
is_dict (obj fields) = true
is_dict _ = false

abbrev is_list : Json → Bool
is_list (arr xs) = true
is_list _ = false

-- `ToolDefinition._closed_object_schema`
unfoldable pub closed_object_schema : Fields → Bool
closed_object_schema schema =
    is_text "object" (get "type" schema)
    && is_false (get "additionalProperties" schema)
    && is_text "https://json-schema.org/draft/2020-12/schema" (get "$schema" schema)
    && is_dict (get "properties" schema)
    && is_list (get "required" schema)
