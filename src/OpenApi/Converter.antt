-- ===== src/OpenApi/Converter.antt =====
-- converter.py: from an operation of an OpenAPI document to the definition of a tool. The display name and the
-- provenance of a tool are not part of the model; what they refuse is.
pub mod Filled
use Prim.Native.String.{count}
use toollayer_ai.Base.{
  ◌≡◌, String, Bool, true, false, not, ◌&&◌, ◌||◌, Option, none, some, List, [], ◌∷◌, ◌++◌, ◌==◌,
  leb, strip, contains, if◌then◌else◌,
}
use toollayer_ai.Json.{
  Json, null, bool, str, arr, obj, Items, nil, cons, Fields, end, field, find, get, put,
}
use toollayer_ai.Contracts.CanonicalJson.{◌⧺◌}
use toollayer_ai.Contracts.Models.{
  BindingTarget, path, query, header, body, EffectClass, read, write, destructive, ArgumentBinding,
  ToolOperation, ToolDefinition,
}
use toollayer_ai.Contracts.Models.Operations.{
  bindings_are_consistent, bindings_reference_declared, closed_object_schema,
}
use toollayer_ai.Policy.Executor.{take_text}
use toollayer_ai.OpenApi.Errors.{Failure, value_error, Result, ok, err, ◌>>=◌, ◌>>◌, guard}
use toollayer_ai.OpenApi.Naming.{NameTables, tool_name_of}
use toollayer_ai.OpenApi.References.{below}
use toollayer_ai.OpenApi.Schemas.{has, texts, convert_schema}
use toollayer_ai.OpenApi.Parameters.{
  invalid, unsupported, Parameter, flag_or, object_of, collect_parameters, check_path_placeholders,
}

-- What of a method a tool needs: its upper case, and its entry in `_METHOD_POLICY`.
pub record MethodEntry : Type 0 where
  pub upper : String
  pub effect : EffectClass
  pub confirmed : Bool

-- `SUPPORTED_METHODS` and `_METHOD_POLICY`
unfoldable pub method_entry : String → Result MethodEntry
method_entry method =
    if method == "get"
    then ok (record { upper = "GET"; effect = read; confirmed = false })
    else if method == "post"
    then ok (record { upper = "POST"; effect = write; confirmed = false })
    else if method == "put"
    then ok (record { upper = "PUT"; effect = write; confirmed = false })
    else if method == "patch"
    then ok (record { upper = "PATCH"; effect = write; confirmed = false })
    else if method == "delete"
    then ok (record { upper = "DELETE"; effect = destructive; confirmed = true })
    else err unsupported

abbrev no_security : Json → Bool
no_security null = true
no_security (arr nil) = true
no_security _ = false

-- `_reject_unsupported_operation_features`
unfoldable pub reject_features : Fields → Fields → Result (Unit {0})
reject_features path_item operation = do
  guard (not (has "servers" path_item || has "servers" operation)) unsupported
  guard (not (has "callbacks" operation)) unsupported
  guard (no_security (get "security" operation)) unsupported

-- The three collections that the loop over the parameters fills.
pub record Collected : Type 0 where
  pub properties : Fields
  pub required : List String
  pub bindings : List ArgumentBinding

-- `if description: schema.setdefault("description", description)`
abbrev with_description : Option String → Fields → Fields
with_description none schema = schema
with_description (some text) schema =
    if text == "" || has "description" schema then schema else put "description" (str text) schema

-- pydantic's checks of the fields of each model, and the equality of JSON values
pub record Checks : Type 0 where
  pub equal : Json → Json → Bool
  pub binding : ArgumentBinding → Bool
  pub operation : ToolOperation → Bool
  pub tool : ToolDefinition → Bool

abbrev pub parameter_binding : Parameter → ArgumentBinding
parameter_binding parameter = record {
  argument_pointer = below "" parameter.name;
  target = parameter.location;
  target_name = parameter.name;
}

unfoldable pub collect : Checks → List Parameter → Collected → Result Collected
collect checks [] collected = ok collected
collect checks (parameter ∷ parameters) collected = do
  guard (not (has parameter.name collected.properties)) unsupported
  schema ← convert_schema checks.equal (obj parameter.schema) ("/parameters/" ⧺ parameter.name)
  guard (checks.binding (parameter_binding parameter)) value_error
  collect checks parameters (record {
    properties =
        put parameter.name (obj (with_description parameter.description schema))
          collected.properties;
    required =
        if parameter.required
        then collected.required ++ (parameter.name ∷ [])
        else collected.required;
    bindings = collected.bindings ++ (parameter_binding parameter ∷ []);
  })

abbrev pub body_argument : String
body_argument = "body"

abbrev json_media_type : String
json_media_type = "application/json"

-- The bindings of a body, one for each property.
unfoldable pub body_bindings : Fields → List ArgumentBinding
body_bindings end = []
body_bindings (field name schema fs) =
    record { argument_pointer = below "/body" name; target = body; target_name = below "" name }
    ∷ body_bindings fs

abbrev properties_of : Json → Fields
properties_of (obj fields) = fields
properties_of _ = end

abbrev is_object : Json → Bool
is_object (str text) = text == "object"
is_object _ = false

abbrev some_entries : Fields → Result Fields
some_entries end = err invalid
some_entries (field key value fs) = ok (field key value fs)

all_valid : (ArgumentBinding → Bool) → List ArgumentBinding → Bool
all_valid valid [] = true
all_valid valid (binding ∷ bindings) = valid binding && all_valid valid bindings

-- `_convert_request_body`, for a body that is there
unfoldable pub convert_body : Checks → Fields → Collected → Result Collected
unfolding all_valid
convert_body checks raw collected = do
  found ← object_of (get "content" raw)
  content ← some_entries found
  guard (has json_media_type content) unsupported
  media ← object_of (get json_media_type content)
  schema ← object_of (get "schema" media)
  guard (not (has body_argument collected.properties)) unsupported
  converted ← convert_schema checks.equal (obj schema) "/requestBody"
  guard (is_object (get "type" converted)) unsupported
  required ← flag_or false (find "required" raw)
  guard (all_valid checks.binding (body_bindings (properties_of (get "properties" converted))))
      value_error
  ok (record {
    properties = put body_argument (obj converted) collected.properties;
    required = if required then collected.required ++ (body_argument ∷ []) else collected.required;
    bindings = collected.bindings ++ body_bindings (properties_of (get "properties" converted));
  })

-- `_convert_request_body`: what was collected, with the media type of the body.
unfoldable pub convert_request_body : Checks → Json → Collected → Result (Collected × Option String)
convert_request_body checks null collected = ok (collected, none)
convert_request_body checks given collected = do
  raw ← object_of given
  after ← convert_body checks raw collected
  ok (after, some json_media_type)

-- `_operation_id`
unfoldable pub operation_id : Option Json → Result (Option String)
operation_id none = ok none
operation_id (some (str value)) = do
  guard (not (strip value == "")) invalid
  guard (leb (count value) 256) invalid
  ok (some value)
operation_id (some _) = err invalid

abbrev or_next : Json → String → String
or_next (str value) next = if strip value == "" then next else take_text 1024 (strip value)
or_next _ next = next

-- `_description`
unfoldable pub description : Fields → String → String → String
description operation upper template = or_next (get "description" operation) (
    or_next (get "summary" operation)
      (take_text 1024 ("Call " ⧺ (upper ⧺ (" " ⧺ (template ⧺ " on the connected API."))))))

all_texts : Items → Bool
all_texts nil = true
all_texts (cons (str text) tags) = not (strip text == "") && all_texts tags
all_texts (cons _ tags) = false

-- What `_tags` refuses
unfoldable pub check_tags : Option Json → Result (Unit {0})
unfolding all_texts
check_tags none = ok tt
check_tags (some (arr tags)) = guard (all_texts tags) invalid
check_tags (some _) = err invalid

abbrev pub dialect : String
dialect = "https://json-schema.org/draft/2020-12/schema"

-- The input schema of what was collected.
abbrev pub input_schema : Collected → Fields
input_schema collected = field "$schema" (str dialect) (
    field "type" (str "object") (
      field "properties" (obj collected.properties) (
        field "required" (arr (texts collected.required))
          (field "additionalProperties" (bool false) end))))

-- The making of a `ToolDefinition`, with its validators.
unfoldable pub check_tool : Checks → ToolDefinition → Result ToolDefinition
check_tool checks tool = do
  guard
      (checks.tool tool
        && closed_object_schema tool.input_schema
        && bindings_reference_declared tool)
      value_error
  ok tool

-- The statements after the path's placeholders were checked.
unfoldable pub build_tool :
    NameTables
    → Checks
    → MethodEntry
    → String
    → String
    → Fields
    → List Parameter
    → Result ToolDefinition
build_tool tables checks entry method template operation parameters = do
  collected ← collect checks parameters (record { properties = end; required = []; bindings = [] })
  (complete, media_type) ← convert_request_body checks (get "requestBody" operation) collected
  id ← operation_id (find "operationId" operation)
  name ← tool_name_of tables id method template
  let request : ToolOperation = record {
    method = entry.upper;
    path_template = template;
    bindings = complete.bindings;
    request_body_media_type = media_type;
  }
  guard (checks.operation request && bindings_are_consistent request) value_error
  check_tags (find "tags" operation)
  deprecated ← flag_or false (find "deprecated" operation)
  let tool : ToolDefinition = record {
    tool_name = name;
    description = description operation entry.upper template;
    input_schema = input_schema complete;
    operation = request;
    policy = record {
      effect_class = entry.effect;
      requires_confirmation = entry.confirmed;
      access = record { access_mode = "public"; allowed_roles = [] };
    };
  }
  check_tool checks tool

-- `convert_operation`
unfoldable pub convert_operation :
    NameTables → Checks → String → String → Fields → Fields → Result ToolDefinition
convert_operation tables checks template method path_item operation = do
  entry ← method_entry (tables.lower method)
  reject_features path_item operation
  parameters ← collect_parameters path_item operation
  check_path_placeholders template parameters
  build_tool tables checks entry (tables.lower method) template operation parameters
