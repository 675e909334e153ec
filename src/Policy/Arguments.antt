-- ===== src/Policy/Arguments.antt =====
-- arguments.py: from a model's arguments to a request. The validator of JSON Schema is a parameter. A text is
-- a list of code points, and the bytes of a body are the UTF-8 of the text here.
pub mod Declared
pub mod Containment
pub mod Headers
use Prim.Native.Char.{code}
use Prim.Native.String
use toollayer_ai.Base.{
  ℕ, ◌+◌, String, Bool, true, false, not, ◌||◌, Option, none, some, List, [], ◌∷◌, ◌++◌, map, ltb,
  ◌==◌, show, length, if◌then◌else◌,
}
use toollayer_ai.Json.{
  Json, null, bool, int, float, str, arr, obj, Items, nil, cons, Fields, end, field, find, get, put,
}
use toollayer_ai.Contracts.Errors.{
  Failure, tool_layer, argument_validation_failed, Result, ok, err, ◌>>=◌, ◌>>◌, guard,
}
use toollayer_ai.Contracts.CanonicalJson.{◌⧺◌, quoted, render_int}
use toollayer_ai.Contracts.Models.{
  BindingTarget, path, query, header, body, ArgumentBinding, ToolOperation, ToolDefinition,
  has_char,
}
use toollayer_ai.Policy.UrlText.{
  replace, occurs, split_slash, strip_slashes, utf8, quote, urlencode,
}

abbrev pub argument_error : Failure
argument_error = tool_layer argument_validation_failed

-- `json.dumps(value, ensure_ascii=False, separators=(comma, colon))`
unfoldable mutual
  pub dumps : String → String → Json → String
  dumps comma colon null = "null"
  dumps comma colon (bool true) = "true"
  dumps comma colon (bool false) = "false"
  dumps comma colon (int n) = render_int n
  dumps comma colon (float finite text) = text
  dumps comma colon (str s) = quoted s
  dumps comma colon (arr xs) = "[" ⧺ (dumps_items comma colon "" xs ⧺ "]")
  dumps comma colon (obj fs) = "{" ⧺ (dumps_fields comma colon "" fs ⧺ "}")

  -- `before` separates the first value from what precedes it.
  pub dumps_items : String → String → String → Items → String
  dumps_items comma colon before nil = ""
  dumps_items comma colon before (cons x xs) =
      before ⧺ (dumps comma colon x ⧺ dumps_items comma colon comma xs)

  pub dumps_fields : String → String → String → Fields → String
  dumps_fields comma colon before end = ""
  dumps_fields comma colon before (field k v fs) =
      before ⧺ (quoted k ⧺ (colon ⧺ (dumps comma colon v ⧺ dumps_fields comma colon comma fs)))

-- `len(text.encode("utf-8"))`
unfoldable pub byte_length : String → ℕ
byte_length String.[] = 0
byte_length (String.◌∷◌ c s) = length (utf8 (code c)) + byte_length s

abbrev pub max_argument_bytes : ℕ
max_argument_bytes = 65536

-- `validate_arguments`; `satisfies schema arguments` says that the validator finds no error.
unfoldable pub validate_arguments : (Fields → Fields → Bool) → ToolDefinition → Json → Result Fields
validate_arguments satisfies tool (obj arguments) = do
  guard (not (ltb max_argument_bytes (byte_length (dumps ", " ": " (obj arguments)))))
      argument_error
  guard (satisfies tool.input_schema arguments) argument_error
  ok arguments
validate_arguments satisfies tool _ = err argument_error

-- A token of a JSON pointer, unescaped.
abbrev pub unescape : String → String
unescape token = replace "~0" "~" (replace "~1" "/" token)

abbrev rest_of : List String → List String
rest_of [] = []
rest_of (x ∷ xs) = xs

-- `pointer.split("/")[1:]`, unescaped
unfoldable pub tokens : String → List String
tokens pointer = map unescape (rest_of (split_slash pointer))

unfoldable pub read_tokens : List String → Json → Option Json
read_tokens [] current = some current
read_tokens (key ∷ keys) (obj fields) = elim (find key fields) [
  | none ↦ none
  | some value ↦ read_tokens keys value
]
read_tokens (key ∷ keys) _ = none

-- `_read_pointer`; `none` is `(False, None)`.
unfoldable pub read_pointer : Fields → String → Option Json
read_pointer document pointer =
    if pointer == "" then some (obj document) else read_tokens (tokens pointer) (obj document)

abbrev pub object_of : Json → Fields
object_of (obj fields) = fields
object_of _ = end

-- The loop of `_write_pointer` and its last assignment; the list is not empty.
unfoldable pub write_tokens : List String → Json → Fields → Fields
write_tokens [] value fields = fields
write_tokens (key ∷ []) value fields = put key value fields
write_tokens (key ∷ next ∷ keys) value fields =
    put key (obj (write_tokens (next ∷ keys) value (object_of (get key fields)))) fields

abbrev no_tokens : List String → Bool
no_tokens [] = true
no_tokens (_ ∷ _) = false

unfoldable pub write_pointer : Fields → String → Json → Result Fields
write_pointer document pointer value = do
  guard (not (no_tokens (tokens pointer))) argument_error
  ok (write_tokens (tokens pointer) value document)

-- `_scalar`
unfoldable pub scalar : Json → Result String
scalar (bool true) = ok "true"
scalar (bool false) = ok "false"
scalar (int n) = ok (render_int n)
scalar (float finite text) = ok text
scalar (str s) = ok s
scalar _ = err argument_error

-- A character that ends a header value.
abbrev pub has_control : String → Bool
has_control text = has_char 13 text || (has_char 10 text || has_char 0 text)

-- `_header_value`
unfoldable pub header_value : Json → Result String
header_value value = do text ← scalar value; guard (not (has_control text)) argument_error; ok text

-- The local variables of the loop in `prepare_request`; `body` is `none` while `has_body` is false.
pub record Parts : Type 0 where
  pub url_path : String
  pub query_pairs : List (String × String)
  pub header_pairs : List (String × String)
  pub body_fields : Option Fields

abbrev pub placeholder : String → String
placeholder name = "{" ⧺ (name ⧺ "}")

abbrev pub body_so_far : Option Fields → Fields
body_so_far none = end
body_so_far (some fields) = fields

-- One binding with its value, which is not `None`.
unfoldable pub place : BindingTarget → String → Json → Parts → Result Parts
place path name value parts = do
  guard (occurs (placeholder name) parts.url_path) argument_error
  text ← scalar value
  ok (record parts { url_path = replace (placeholder name) (quote text) parts.url_path })
place query name value parts = do
  text ← scalar value
  ok (record parts { query_pairs = parts.query_pairs ++ (name, text) ∷ [] })
place header name value parts = do
  text ← header_value value
  ok (record parts { header_pairs = parts.header_pairs ++ (name, text) ∷ [] })
place body name value parts = do
  written ← write_pointer (body_so_far parts.body_fields) name value
  ok (record parts { body_fields = some written })

abbrev pub place_value : ArgumentBinding → Option Json → Parts → Result Parts
place_value binding none parts = ok parts
place_value binding (some null) parts = ok parts
place_value binding (some value) parts = place binding.target binding.target_name value parts

-- The loop over the bindings.
unfoldable pub place_all : Fields → List ArgumentBinding → Parts → Result Parts
place_all arguments [] parts = ok parts
place_all arguments (binding ∷ bindings) parts = do
  next ← place_value binding (read_pointer arguments binding.argument_pointer) parts
  place_all arguments bindings next

pub record PreparedRequest : Type 0 where
  pub method : String
  pub url : String
  pub url_path : String
  pub query_pairs : List (String × String)
  pub headers : List (String × String)
  pub body_text : Option String
  pub content_type : Option String

-- `request_body_media_type or "application/json"`, where there is a body
abbrev pub media_type : Option Fields → Option String → Option String
media_type none declared = none
media_type (some fields) none = some "application/json"
media_type (some fields) (some s) = some (if s == "" then "application/json" else s)

abbrev body_json : Option Fields → Option String
body_json none = none
body_json (some fields) = some (dumps "," ":" (obj fields))

abbrev with_query : String → List (String × String) → String
with_query url [] = url
with_query url (pair ∷ pairs) = url ⧺ ("?" ⧺ urlencode (pair ∷ pairs))

abbrev pub protocol_headers : Option String → List (String × String)
protocol_headers none = ("accept", "application/json") ∷ []
protocol_headers (some content_type) =
    ("accept", "application/json") ∷ ("content-type", content_type) ∷ []

unfoldable pub finish : ToolOperation → String → Parts → Result PreparedRequest
finish operation base_url parts = do
  guard (not (has_char b'{' parts.url_path || has_char b'}' parts.url_path)) argument_error
  let content_type = media_type parts.body_fields operation.request_body_media_type
  ok (record {
    method = operation.method;
    url = with_query (strip_slashes base_url ⧺ parts.url_path) parts.query_pairs;
    url_path = parts.url_path;
    query_pairs = parts.query_pairs;
    headers = protocol_headers content_type ++ parts.header_pairs;
    body_text = body_json parts.body_fields;
    content_type = content_type;
  })

abbrev pub first_parts : ToolOperation → Parts
first_parts operation = record {
  url_path = operation.path_template;
  query_pairs = [];
  header_pairs = [];
  body_fields = none;
}

unfoldable pub prepare_request : ToolDefinition → Fields → String → Result PreparedRequest
prepare_request tool arguments base_url = do
  parts ← place_all arguments tool.operation.bindings (first_parts tool.operation)
  finish tool.operation base_url parts
