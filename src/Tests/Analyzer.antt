-- ===== src/Tests/Analyzer.antt =====
-- The theorem on the analysis of a document, at one whose two operations have the same operationId.
use toollayer_ai.Base.{
  ◌≡◌, refl, ◌≤◌, String, true, false, some, none, List, [], ◌∷◌, length, IsDistinct,
}
use toollayer_ai.Json.{obj, Fields, end, field}
use toollayer_ai.OpenApi.Errors.{ok, error, warning}
use toollayer_ai.OpenApi.Analyzer.{Analysis, analyze_document}
use toollayer_ai.OpenApi.Analyzer.Names.{tool_names}
use toollayer_ai.OpenApi.Analyzer.Distinct.{analyze_document-IsDistinct}
use toollayer_ai.Tests.OpenApi.{tables, checks, no_integers, order_operation, order_tool}

abbrev template : String
template = "/orders/{id}"

abbrev paths : Fields
paths =
    field "/orders/{id}"
      (obj (field "get" (obj order_operation) (field "delete" (obj order_operation) end))) end

abbrev document : Fields
document = field "paths" (obj paths) end

abbrev analysis : Analysis
analysis = record {
  operations =
      record {
        key = "get /orders/{id}";
        operation_path = template;
        method = "get";
        pointer = "/paths/~1orders~1{id}/get";
        source_operation = order_operation;
        tool = some order_tool;
        diagnostics =
            record {
              code = "description_generated";
              pointer = "/paths/~1orders~1{id}/get";
              severity = warning;
              operation_key = some "get /orders/{id}";
            }
            ∷ [];
      }
      ∷ record {
        key = "delete /orders/{id}";
        operation_path = template;
        method = "delete";
        pointer = "/paths/~1orders~1{id}/delete";
        source_operation = order_operation;
        tool = none;
        diagnostics =
            record {
              code = "tool_name_collision";
              pointer = "/paths/~1orders~1{id}/delete";
              severity = error;
              operation_key = some "delete /orders/{id}";
            }
            ∷ [];
      }
      ∷ [];
  diagnostics = [];
  seen = ("get_order", "get /orders/{id}") ∷ [];
  count = 2;
}

analyzed : analyze_document tables checks no_integers 64 document paths ≡ ok analysis
unfolding analyze_document toollayer_ai.OpenApi.Analyzer.analyze_paths
    toollayer_ai.OpenApi.Analyzer.analyze_path toollayer_ai.OpenApi.Analyzer.analyze_item
    toollayer_ai.OpenApi.Analyzer.analyze_methods toollayer_ai.OpenApi.Analyzer.analyze_operation
    toollayer_ai.OpenApi.Analyzer.report_unsupported toollayer_ai.OpenApi.Analyzer.claim_name
    toollayer_ai.OpenApi.Analyzer.previous toollayer_ai.OpenApi.Analyzer.warnings
    toollayer_ai.OpenApi.Analyzer.report_failure toollayer_ai.Contracts.Models.sorted
    toollayer_ai.Contracts.Models.insert_sorted toollayer_ai.OpenApi.References.resolve_items
    toollayer_ai.OpenApi.Converter.convert_operation toollayer_ai.OpenApi.Converter.method_entry
    toollayer_ai.OpenApi.Converter.reject_features toollayer_ai.OpenApi.Converter.collect
    toollayer_ai.OpenApi.Converter.build_tool toollayer_ai.OpenApi.Converter.convert_request_body
    toollayer_ai.OpenApi.Converter.operation_id toollayer_ai.OpenApi.Converter.description
    toollayer_ai.OpenApi.Converter.check_tags toollayer_ai.OpenApi.Converter.check_tool
    toollayer_ai.OpenApi.Parameters.collect_parameters toollayer_ai.OpenApi.Parameters.merge_source
    toollayer_ai.OpenApi.Parameters.merge_entries toollayer_ai.OpenApi.Parameters.parse_parameter
    toollayer_ai.OpenApi.Parameters.reject_serialization toollayer_ai.OpenApi.Parameters.is_seen
    toollayer_ai.OpenApi.Parameters.merge toollayer_ai.OpenApi.Parameters.check_path_placeholders
    toollayer_ai.OpenApi.Parameters.placeholders toollayer_ai.OpenApi.Parameters.path_names
    toollayer_ai.OpenApi.Parameters.all_among
    toollayer_ai.Contracts.Models.Operations.bindings_are_consistent
    toollayer_ai.Contracts.Models.Operations.bindings_reference_declared
    toollayer_ai.Contracts.Models.Operations.closed_object_schema
    toollayer_ai.OpenApi.Naming.tool_name_of toollayer_ai.OpenApi.Naming.normalize_tool_name
    toollayer_ai.OpenApi.Naming.snake_case toollayer_ai.OpenApi.Naming.bounded
    toollayer_ai.Base.distinct toollayer_ai.Policy.Executor.take_text
    toollayer_ai.OpenApi.Schemas.convert_schema toollayer_ai.OpenApi.Schemas.convert_from
    toollayer_ai.OpenApi.Schemas.convert_fields toollayer_ai.OpenApi.Schemas.declared_type
    toollayer_ai.OpenApi.Schemas.apply_nullable toollayer_ai.OpenApi.Schemas.apply_annotations
    toollayer_ai.OpenApi.Schemas.apply_annotation toollayer_ai.OpenApi.Schemas.apply_enum
    toollayer_ai.OpenApi.Schemas.apply_default toollayer_ai.OpenApi.Schemas.convert_by_type
    toollayer_ai.OpenApi.Schemas.convert_compound toollayer_ai.OpenApi.Schemas.convert_object
    toollayer_ai.OpenApi.Schemas.convert_properties toollayer_ai.OpenApi.Schemas.copy_supported
    toollayer_ai.OpenApi.Schemas.copy_keyword toollayer_ai.OpenApi.Schemas.reject_unknown
    toollayer_ai.OpenApi.Schemas.all_known toollayer_ai.OpenApi.Schemas.read_required
    toollayer_ai.Json.find toollayer_ai.Json.get toollayer_ai.Json.put toollayer_ai.Json.without
    toollayer_ai.Base.contains toollayer_ai.Base.strip
    toollayer_ai.OpenApi.References.encode_pointer_token toollayer_ai.Policy.UrlText.replace_from
    toollayer_ai.OpenApi.References.resolve toollayer_ai.OpenApi.References.resolve_from
    toollayer_ai.OpenApi.References.resolve_object toollayer_ai.OpenApi.References.resolve_reference
    toollayer_ai.OpenApi.References.reference_pointer toollayer_ai.OpenApi.References.dereference
    toollayer_ai.OpenApi.References.walk toollayer_ai.OpenApi.References.descend
    toollayer_ai.OpenApi.References.overlay toollayer_ai.OpenApi.References.merge_siblings
    toollayer_ai.OpenApi.References.resolve_fields toollayer_ai.Policy.Arguments.tokens
    toollayer_ai.Policy.UrlText.split_slash
analyzed = refl

analyze_document-IsDistinct_example :
    IsDistinct (tool_names analysis.operations) × (length analysis.operations ≤ 64)
analyze_document-IsDistinct_example =
    analyze_document-IsDistinct tables checks no_integers 64 document paths analysis analyzed
