-- ===== src/OpenApi/Analyzer.antt =====
-- analyzer.py: the operations of a document, each with the tool that it became or the reason why it became none. The
-- title, the summary and the versions of a result are not part of the model.
pub mod Names
pub mod Distinct
use text.Mathlib.Text.{starts_with}
use toollayer_ai.Base.{
  ℕ, suc, String, Bool, true, false, not, ◌&&◌, ◌||◌, Option, none, some, List, [], ◌∷◌, ◌++◌, ◌==◌,
  leb, strip, if◌then◌else◌,
}
use toollayer_ai.Json.{Json, null, bool, str, arr, obj, Fields, end, field, find, get}
use toollayer_ai.Contracts.CanonicalJson.{◌⧺◌}
use toollayer_ai.Contracts.Models.{ToolDefinition, sorted}
use toollayer_ai.OpenApi.Errors.{
  Severity, error, warning, Diagnostic, Failure, invalid_document, unsupported_feature,
  document_too_large, value_error, Result, ok, err, ◌>>=◌, ◌>>◌, guard, as_diagnostic,
}
use toollayer_ai.OpenApi.Naming.{NameTables}
use toollayer_ai.OpenApi.References.{resolve, encode_pointer_token}
use toollayer_ai.Json.{ℤ}
use toollayer_ai.OpenApi.Schemas.{has}
use toollayer_ai.OpenApi.Converter.{Checks, convert_operation}

-- `AnalyzedOperation`
pub record AnalyzedOperation : Type 0 where
  pub key : String
  pub operation_path : String
  pub method : String
  pub pointer : String
  pub source_operation : Fields
  pub tool : Option ToolDefinition
  pub diagnostics : List Diagnostic

-- What `analyze_document` collects: `seen` is `seen_tool_names`, with the key of the operation for each name.
pub record Analysis : Type 0 where
  pub operations : List AnalyzedOperation
  pub diagnostics : List Diagnostic
  pub seen : List (String × String)
  pub count : ℕ

-- `operation_key`, for a method in lower case
abbrev operation_key : String → String → String
operation_key template method = method ⧺ (" " ⧺ template)

abbrev diagnostic : String → String → Severity → Option String → Diagnostic
diagnostic code pointer severity key = record {
  code = code;
  pointer = pointer;
  severity = severity;
  operation_key = key;
}

unfoldable pub previous : String → List (String × String) → Option String
previous name [] = none
previous name ((seen_name, key) ∷ seen) = if seen_name == name then some key else previous name seen

abbrev is_prose : Json → Bool
is_prose (str text) = not (strip text == "")
is_prose _ = false

abbrev is_true : Option Json → Bool
is_true (some (bool b)) = b
is_true _ = false

-- The warnings on a tool: its description was generated, or its operation is deprecated.
unfoldable pub warnings : Fields → String → String → List Diagnostic
warnings operation pointer key =
    (if is_prose (get "description" operation) || is_prose (get "summary" operation)
      then []
      else diagnostic "description_generated" pointer warning (some key) ∷ [])
    ++ (if is_true (find "deprecated" operation)
        then diagnostic "operation_deprecated" pointer warning (some key) ∷ []
        else [])

-- `error.pointer or pointer`
abbrev with_pointer : String → Diagnostic → Diagnostic
with_pointer pointer d = if d.pointer == "" then record d { pointer = pointer } else d

abbrev or_uncaught : Option Diagnostic → Result Diagnostic
or_uncaught none = err value_error
or_uncaught (some d) = ok d

-- An operation at its place; `outcome` is its tool with the names that were seen, or a reason against it.
abbrev place :
    String → String → String → Fields → Option ToolDefinition → List Diagnostic → AnalyzedOperation
place template method pointer operation tool diagnostics = record {
  key = operation_key template method;
  operation_path = template;
  method = method;
  pointer = pointer;
  source_operation = operation;
  tool = tool;
  diagnostics = diagnostics;
}

-- `analysis` with one operation more
abbrev pub add : Analysis → AnalyzedOperation → Analysis
add analysis operation = record analysis {
  operations = analysis.operations ++ (operation ∷ []);
  count = suc analysis.count;
}

-- A tool by the key of an earlier operation that has its name.
abbrev pub by_name :
    Option String → String → String → String → Fields → Analysis → ToolDefinition → Analysis
by_name (some earlier) template method pointer operation analysis tool =
    let key = operation_key template method in
    add analysis (
      place template method pointer operation none
        (diagnostic "tool_name_collision" pointer error (some key) ∷ []))
by_name none template method pointer operation analysis tool =
    let key = operation_key template method in
    add (record analysis { seen = (tool.tool_name, key) ∷ analysis.seen })
      (place template method pointer operation (some tool) (warnings operation pointer key))

-- The statements on a converted operation: a name that was seen before gives no tool.
unfoldable pub claim_name : String → String → String → Fields → Analysis → ToolDefinition → Analysis
claim_name template method pointer operation analysis tool =
    by_name (previous tool.tool_name analysis.seen) template method pointer operation analysis tool

-- `except ConversionError`
unfoldable pub report_failure :
    String → String → String → Fields → Analysis → Failure → Result Analysis
report_failure template method pointer operation analysis failure = do
  d ← or_uncaught (as_diagnostic (some (operation_key template method)) failure)
  ok (add analysis (place template method pointer operation none (with_pointer pointer d ∷ [])))

abbrev settle :
    String → String → String → Fields → Analysis → Result ToolDefinition → Result Analysis
settle template method pointer operation analysis (ok tool) =
    ok (claim_name template method pointer operation analysis tool)
settle template method pointer operation analysis (err failure) =
    report_failure template method pointer operation analysis failure

-- `_analyze_operation`, with its operation added to what is collected.
unfoldable pub analyze_operation :
    NameTables → Checks → String → String → Fields → Json → String → Analysis → Result Analysis
analyze_operation tables checks template method path_item (obj operation) pointer analysis =
    settle template method pointer operation analysis
      (convert_operation tables checks template method path_item operation)
analyze_operation tables checks template method path_item _ pointer analysis = ok (
    add analysis (
      place template method pointer end none
        (diagnostic "invalid_operation" pointer error (some (operation_key template method)) ∷ [])))

abbrev report : Analysis → Diagnostic → Analysis
report analysis d = record analysis { diagnostics = analysis.diagnostics ++ (d ∷ []) }

abbrev is_absent : Json → Bool
is_absent null = true
is_absent _ = false

-- The loop over `SUPPORTED_METHODS`, which the limit on operations ends.
unfoldable pub analyze_methods :
    NameTables → Checks → ℕ → String → Fields → String → List String → Analysis → Result Analysis
analyze_methods tables checks maximum template path_item pointer [] analysis = ok analysis
analyze_methods tables checks maximum template path_item pointer (method ∷ methods) analysis =
    let skipped =
      analyze_methods tables checks maximum template path_item pointer methods analysis in
    let analyzed =
      analyze_operation tables checks template method path_item (get method path_item)
        (pointer ⧺ ("/" ⧺ method)) analysis
      >>= analyze_methods tables checks maximum template path_item pointer methods in
    if is_absent (get method path_item)
    then skipped
    else if leb maximum analysis.count
    then ok (report analysis (diagnostic "operation_limit_exceeded" pointer error none))
    else analyzed

abbrev supported_methods : List String
supported_methods = "get" ∷ "post" ∷ "put" ∷ "patch" ∷ "delete" ∷ []

-- The methods of `_HTTP_METHODS` that no tool is made of, in order.
abbrev unsupported_methods : List String
unsupported_methods = "head" ∷ "options" ∷ "trace" ∷ []

unfoldable pub report_unsupported : String → Fields → String → List String → Analysis → Analysis
report_unsupported template path_item pointer [] analysis = analysis
report_unsupported template path_item pointer (method ∷ methods) analysis =
    report_unsupported template path_item pointer methods (
      if has method path_item
      then report analysis (
          diagnostic "unsupported_method" (pointer ⧺ ("/" ⧺ method)) warning
            (some (operation_key template method)))
      else analysis)

-- The statements on a path item that was resolved. One that is no object has no `get`, which nothing catches.
unfoldable pub analyze_item :
    NameTables → Checks → ℕ → String → String → Analysis → Json → Result Analysis
analyze_item tables checks maximum template pointer analysis (obj path_item) = do
  analyzed ←
      analyze_methods tables checks maximum template path_item pointer supported_methods analysis
  ok (report_unsupported template path_item pointer unsupported_methods analyzed)
analyze_item tables checks maximum template pointer analysis _ = err value_error

abbrev item_or_report :
    NameTables → Checks → ℕ → String → String → Analysis → Result Json → Result Analysis
item_or_report tables checks maximum template pointer analysis (ok item) =
    analyze_item tables checks maximum template pointer analysis item
item_or_report tables checks maximum template pointer analysis (err failure) = do
  d ← or_uncaught (as_diagnostic none failure)
  ok (report analysis d)

-- One path of the document
unfoldable pub analyze_path :
    NameTables
    → Checks
    → (String → Option ℤ)
    → ℕ
    → Fields
    → String
    → Json
    → Analysis
    → Result Analysis
analyze_path tables checks read_int maximum document template (obj raw) analysis =
    let pointer = "/paths/" ⧺ encode_pointer_token template in
    if starts_with template "/"
    then item_or_report tables checks maximum template pointer analysis
        (resolve read_int document (obj raw) pointer)
    else ok (report analysis (diagnostic "invalid_path" pointer error none))
analyze_path tables checks read_int maximum document template _ analysis = ok (
    report analysis (
      diagnostic (if starts_with template "/" then "invalid_path_item" else "invalid_path")
        ("/paths/" ⧺ encode_pointer_token template) error none))

-- The loop over the sorted paths
unfoldable pub analyze_paths :
    NameTables
    → Checks
    → (String → Option ℤ)
    → ℕ
    → Fields
    → Fields
    → List String
    → Analysis
    → Result Analysis
analyze_paths tables checks read_int maximum document paths [] analysis = ok analysis
analyze_paths tables checks read_int maximum document paths (template ∷ templates) analysis = do
  next ← analyze_path tables checks read_int maximum document template (get template paths) analysis
  analyze_paths tables checks read_int maximum document paths templates next

path_keys : Fields → List String
path_keys end = []
path_keys (field key value fs) = key ∷ path_keys fs

-- `if not operations`
abbrev report_empty : List AnalyzedOperation → Analysis → Analysis
report_empty [] analysis =
    report analysis (diagnostic "no_convertible_operations" "/paths" error none)
report_empty (operation ∷ operations) analysis = analysis

abbrev pub nothing : Analysis
nothing = record { operations = []; diagnostics = []; seen = []; count = 0 }

-- `analyze_document` on the paths of a document; `maximum` is the limit `max_operations`.
unfoldable pub analyze_document :
    NameTables → Checks → (String → Option ℤ) → ℕ → Fields → Fields → Result Analysis
unfolding path_keys
analyze_document tables checks read_int maximum document paths = do
  analysis ←
      analyze_paths tables checks read_int maximum document paths (sorted (path_keys paths)) nothing
  ok (report_empty analysis.operations analysis)
