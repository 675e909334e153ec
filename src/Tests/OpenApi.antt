-- ===== src/Tests/OpenApi.antt =====
-- The theorems on the converter, at a document with a schema that others refer to.
use toollayer_ai.Base.{
  ◌≡◌, refl, ℕ, suc, Bool, true, false, String, Option, none, some, List, [], ◌∷◌,
}
use toollayer_ai.Json.{ℤ, Json, null, bool, str, arr, obj, nil, cons, Fields, end, field, find, get}
use toollayer_ai.Contracts.Models.{path, read, ToolDefinition}
use toollayer_ai.OpenApi.Errors.{ok}
use toollayer_ai.OpenApi.Converter.{Checks, dialect, convert_operation}
use toollayer_ai.OpenApi.Converter.Filled.{IsFilled, convert_operation-IsFilled}
use toollayer_ai.OpenApi.Naming.{NameTables, tool_name_of}
use toollayer_ai.OpenApi.Naming.Pattern.{IsDigest, is_tool_name, tool_name_of-is_tool_name}
use toollayer_ai.OpenApi.References.{max_resolution_depth, resolve, resolve_from}
use toollayer_ai.OpenApi.References.Inlined.{IsInlined, resolve-IsInlined}
use toollayer_ai.OpenApi.References.Siblings.{IsDict, Overlaid, resolve_sibling}
use toollayer_ai.OpenApi.Schemas.{max_schema_depth, convert_schema}
use toollayer_ai.OpenApi.Schemas.Shapes.{IsClosed}
use toollayer_ai.OpenApi.Schemas.Closed.{convert_schema-IsClosed}

abbrev pub tables : NameTables
tables = record { lower = λ s. s; decimal = λ c. false; digest = λ s. "0123456789" }

ten : IsDigest tables.digest
unfolding toollayer_ai.Policy.UrlText.all_chars
ten text = (refl, refl)

named : tool_name_of tables (some "getOrderById") "get" "/orders/{id}" ≡ ok "get_order_by_id"
unfolding tool_name_of toollayer_ai.OpenApi.Naming.normalize_tool_name
    toollayer_ai.OpenApi.Naming.snake_case toollayer_ai.OpenApi.Naming.bounded
named = refl

tool_name_of-is_tool_name_example : is_tool_name "get_order_by_id" ≡ true
tool_name_of-is_tool_name_example =
    tool_name_of-is_tool_name tables (some "getOrderById") "get" "/orders/{id}" "get_order_by_id"
      ten named

abbrev pub no_integers : String → Option ℤ
no_integers text = none

abbrev document : Fields
document =
    field "components"
      (obj (
        field "schemas"
          (obj
            (field "Key" (obj (field "type" (str "string") (field "title" (str "Key") end))) end))
          end))
      end

abbrev node : Fields
node = field "$ref" (str "#/components/schemas/Key") (field "type" (str "integer") end)

abbrev resolved_node : Fields
resolved_node = field "type" (str "integer") (field "title" (str "Key") end)

resolved : resolve no_integers document (obj node) "/paths" ≡ ok (obj resolved_node)
unfolding resolve resolve_from toollayer_ai.OpenApi.References.resolve_object
    toollayer_ai.OpenApi.References.resolve_reference
    toollayer_ai.OpenApi.References.reference_pointer toollayer_ai.OpenApi.References.dereference
    toollayer_ai.OpenApi.References.walk toollayer_ai.OpenApi.References.descend
    toollayer_ai.OpenApi.References.overlay toollayer_ai.OpenApi.References.merge_siblings
    toollayer_ai.OpenApi.References.resolve_fields
    toollayer_ai.OpenApi.References.encode_pointer_token toollayer_ai.Policy.Arguments.tokens
    toollayer_ai.Policy.UrlText.replace_from toollayer_ai.Policy.UrlText.split_slash
    toollayer_ai.Json.find toollayer_ai.Json.get toollayer_ai.Json.put toollayer_ai.Base.contains
resolved = refl

resolve-IsInlined_example : IsInlined (obj resolved_node)
resolve-IsInlined_example =
    resolve-IsInlined no_integers document (obj node) "/paths" (obj resolved_node) resolved

refers : get "$ref" node ≡ str "#/components/schemas/Key"
unfolding toollayer_ai.Json.get toollayer_ai.Json.find
refers = refl

there : find "type" node ≡ some (str "integer")
unfolding toollayer_ai.Json.find
there = refl

once : IsDict node
unfolding toollayer_ai.Json.find
once = (refl, (refl, tt))

resolve_sibling_example :
    Overlaid
      (resolve_from no_integers document max_resolution_depth)
      "/paths"
      []
      resolved_node
      "type"
      (str "integer")
resolve_sibling_example =
    resolve_sibling no_integers document node resolved_node "#/components/schemas/Key" "type"
      "/paths" (str "integer") once refers refl there resolved

abbrev schema : Fields
schema = field "type" (str "object") (
    field "properties"
      (obj (field "id" (obj (field "type" (str "string") (field "nullable" (bool true) end))) end))
      (field "required" (arr (cons (str "id") nil)) end))

abbrev converted : Fields
converted = field "type" (str "object") (
    field "properties"
      (obj (
        field "id" (obj (field "type" (arr (cons (str "string") (cons (str "null") nil))) end))
          end))
      (field "required" (arr (cons (str "id") nil))
        (field "additionalProperties" (bool false) end)))

abbrev equal : Json → Json → Bool
equal x y = false

conversion : convert_schema equal (obj schema) "/parameters/id" ≡ ok converted
unfolding convert_schema toollayer_ai.OpenApi.Schemas.convert_from
    toollayer_ai.OpenApi.Schemas.convert_fields toollayer_ai.OpenApi.Schemas.declared_type
    toollayer_ai.OpenApi.Schemas.apply_nullable toollayer_ai.OpenApi.Schemas.apply_annotations
    toollayer_ai.OpenApi.Schemas.apply_annotation toollayer_ai.OpenApi.Schemas.apply_enum
    toollayer_ai.OpenApi.Schemas.apply_default toollayer_ai.OpenApi.Schemas.convert_by_type
    toollayer_ai.OpenApi.Schemas.convert_compound toollayer_ai.OpenApi.Schemas.convert_object
    toollayer_ai.OpenApi.Schemas.convert_properties toollayer_ai.OpenApi.Schemas.copy_supported
    toollayer_ai.OpenApi.Schemas.copy_keyword toollayer_ai.OpenApi.Schemas.reject_unknown
    toollayer_ai.OpenApi.Schemas.all_known toollayer_ai.OpenApi.Schemas.read_required find get
    toollayer_ai.Json.put toollayer_ai.Json.without toollayer_ai.Base.contains
    toollayer_ai.Base.strip toollayer_ai.OpenApi.References.encode_pointer_token
    toollayer_ai.Policy.UrlText.replace_from
conversion = refl

convert_schema-IsClosed_example : IsClosed (suc max_schema_depth) converted
convert_schema-IsClosed_example =
    convert_schema-IsClosed equal (obj schema) "/parameters/id" converted conversion

abbrev pub checks : Checks
checks = record {
  equal = equal;
  binding = λ binding. true;
  operation = λ operation. true;
  tool = λ tool. true;
}

abbrev pub order_operation : Fields
order_operation = field "operationId" (str "getOrder") (
    field "parameters"
      (arr (
        cons
          (obj (
            field "name" (str "id") (
              field "in" (str "path") (
                field "required" (bool true)
                  (field "schema" (obj (field "type" (str "string") end)) end)))))
          nil))
      end)

abbrev pub order_tool : ToolDefinition
order_tool = record {
  tool_name = "get_order";
  description = "Call GET /orders/{id} on the connected API.";
  input_schema = field "$schema" (str dialect) (
      field "type" (str "object") (
        field "properties" (obj (field "id" (obj (field "type" (str "string") end)) end)) (
          field "required" (arr (cons (str "id") nil))
            (field "additionalProperties" (bool false) end))));
  operation = record {
    method = "GET";
    path_template = "/orders/{id}";
    bindings = record { argument_pointer = "/id"; target = path; target_name = "id" } ∷ [];
    request_body_media_type = none;
  };
  policy = record {
    effect_class = read;
    requires_confirmation = false;
    access = record { access_mode = "public"; allowed_roles = [] };
  };
}

order_converted :
    convert_operation tables checks "/orders/{id}" "get" end order_operation ≡ ok order_tool
unfolding convert_operation toollayer_ai.OpenApi.Converter.method_entry
    toollayer_ai.OpenApi.Converter.reject_features toollayer_ai.OpenApi.Converter.collect
    toollayer_ai.OpenApi.Converter.build_tool toollayer_ai.OpenApi.Converter.convert_request_body
    toollayer_ai.OpenApi.Converter.operation_id toollayer_ai.OpenApi.Converter.description
    toollayer_ai.OpenApi.Converter.check_tags toollayer_ai.OpenApi.Converter.check_tool
    toollayer_ai.OpenApi.Parameters.collect_parameters toollayer_ai.OpenApi.Parameters.merge_source
    toollayer_ai.OpenApi.Parameters.merge_entries toollayer_ai.OpenApi.Parameters.parse_parameter
    toollayer_ai.OpenApi.Parameters.reject_serialization toollayer_ai.OpenApi.Parameters.is_seen
    toollayer_ai.OpenApi.Parameters.merge toollayer_ai.OpenApi.Parameters.check_path_placeholders
    toollayer_ai.OpenApi.Parameters.placeholders toollayer_ai.OpenApi.Parameters.path_names
    toollayer_ai.OpenApi.Parameters.all_among
    toollayer_ai.Contracts.Models.Operations.bindings_are_consistent
    toollayer_ai.Contracts.Models.Operations.bindings_reference_declared
    toollayer_ai.Contracts.Models.Operations.closed_object_schema tool_name_of
    toollayer_ai.OpenApi.Naming.normalize_tool_name toollayer_ai.OpenApi.Naming.snake_case
    toollayer_ai.OpenApi.Naming.bounded toollayer_ai.Base.distinct
    toollayer_ai.Policy.Executor.take_text convert_schema toollayer_ai.OpenApi.Schemas.convert_from
    toollayer_ai.OpenApi.Schemas.convert_fields toollayer_ai.OpenApi.Schemas.declared_type
    toollayer_ai.OpenApi.Schemas.apply_nullable toollayer_ai.OpenApi.Schemas.apply_annotations
    toollayer_ai.OpenApi.Schemas.apply_annotation toollayer_ai.OpenApi.Schemas.apply_enum
    toollayer_ai.OpenApi.Schemas.apply_default toollayer_ai.OpenApi.Schemas.convert_by_type
    toollayer_ai.OpenApi.Schemas.convert_compound toollayer_ai.OpenApi.Schemas.convert_object
    toollayer_ai.OpenApi.Schemas.convert_properties toollayer_ai.OpenApi.Schemas.copy_supported
    toollayer_ai.OpenApi.Schemas.copy_keyword toollayer_ai.OpenApi.Schemas.reject_unknown
    toollayer_ai.OpenApi.Schemas.all_known toollayer_ai.OpenApi.Schemas.read_required find get
    toollayer_ai.Json.put toollayer_ai.Json.without toollayer_ai.Base.contains
    toollayer_ai.Base.strip toollayer_ai.OpenApi.References.encode_pointer_token
    toollayer_ai.Policy.UrlText.replace_from
order_converted = refl

convert_operation-IsFilled_example :
    (order_tool.operation.path_template ≡ "/orders/{id}")
    × IsFilled "/orders/{id}" order_tool.operation.bindings
convert_operation-IsFilled_example =
    convert_operation-IsFilled tables checks "/orders/{id}" "get" end order_operation order_tool
      order_converted
