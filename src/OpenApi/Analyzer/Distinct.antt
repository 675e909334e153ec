-- ===== src/OpenApi/Analyzer/Distinct.antt =====
-- The tools of an analysis: their names are distinct, and the operations stay within the limit.
use mathlib.Core.List.{append-nil}
use toollayer_ai.Base.{
  ◌≡◌, refl, sym, ◌∙◌, subst, ap, inl, inr, ℕ, suc, ◌≤◌, ◌<◌, String, Bool, true, false, Option,
  none, some, List, [], ◌∷◌, ◌++◌, length, length-append, leb, In, IsDistinct, arith, Bool-cases,
  if◌then◌else◌,
}
use text.Mathlib.Text.{starts_with}
use toollayer_ai.Json.{ℤ, Json, null, bool, int, float, str, arr, obj, Fields, get}
use toollayer_ai.Contracts.CanonicalJson.{◌⧺◌}
use toollayer_ai.Contracts.Models.{ToolDefinition, sorted}
use toollayer_ai.OpenApi.Errors.{Result, ok, err, >>=-eq-ok, as_diagnostic}
use toollayer_ai.OpenApi.Naming.{NameTables}
use toollayer_ai.OpenApi.References.{resolve, encode_pointer_token}
use toollayer_ai.OpenApi.Schemas.{has}
use toollayer_ai.OpenApi.Converter.{Checks, convert_operation}
use toollayer_ai.OpenApi.Analyzer.{
  AnalyzedOperation, Analysis, previous, add, by_name, claim_name, report_failure, settle,
  or_uncaught, analyze_operation, report, is_absent, analyze_methods, supported_methods,
  unsupported_methods, report_unsupported, analyze_item, item_or_report, analyze_path,
  analyze_paths, path_keys, report_empty, nothing, analyze_document,
}
use toollayer_ai.OpenApi.Analyzer.Names.{
  name_of, tool_names, seen_names, tool_names-add, In-append, IsDistinct-append, previous-none,
}

-- The names of the tools are distinct, each is among those seen, and the operations are counted and within the limit.
abbrev IsLawful : ℕ → Analysis → Type 0
IsLawful maximum analysis =
    IsDistinct (tool_names analysis.operations)
    × ((name : String)
        → In name (tool_names analysis.operations)
        → In name (seen_names analysis.seen))
    × (analysis.count ≡ length analysis.operations)
    × (analysis.count ≤ maximum)

add_counted :
    (count : ℕ) (operations : List AnalyzedOperation) (operation : AnalyzedOperation)
    → count ≡ length operations
    → suc count ≡ length (operations ++ (operation ∷ []))
add_counted count operations operation counted =
    omega (arith, counted, length-append operations (operation ∷ []))

-- An operation without a tool is added.
add-IsLawful :
    (maximum : ℕ) (analysis : Analysis) (operation : AnalyzedOperation)
    → operation.tool ≡ none
    → analysis.count < maximum
    → IsLawful maximum analysis
    → IsLawful maximum (add analysis operation)
add-IsLawful maximum analysis operation without room (once, recorded, counted, within) =
    let same : tool_names (analysis.operations ++ (operation ∷ []))
        ≡ tool_names analysis.operations =
      tool_names-add analysis.operations operation
      ∙ ap (λ tool. tool_names analysis.operations ++ name_of tool) without
      ∙ append-nil (tool_names analysis.operations) in
    (
      subst IsDistinct (sym same) once,
      λ name i. recorded name (subst (In name) same i),
      add_counted analysis.count analysis.operations operation counted,
      room,
    )

by_name-IsLawful :
    (maximum : ℕ) (template method pointer : String) (operation : Fields) (analysis : Analysis)
    (tool : ToolDefinition) (found : Option String)
    → previous tool.tool_name analysis.seen ≡ found
    → analysis.count < maximum
    → IsLawful maximum analysis
    → IsLawful maximum (by_name found template method pointer operation analysis tool)
unfolding seen_names
by_name-IsLawful maximum template method pointer operation analysis tool (some earlier) e room
      lawful =
    add-IsLawful maximum analysis _ refl room lawful
by_name-IsLawful maximum template method pointer operation analysis tool none e room lawful =
    let names = tool_names analysis.operations in
    let (once, recorded, counted, within) = lawful in
    let fresh : In tool.tool_name names → ⊥ =
      λ i. previous-none tool.tool_name analysis.seen e (recorded tool.tool_name i) in
    let again = tool_names-add analysis.operations _ in
    (
      subst IsDistinct (sym again) (IsDistinct-append names tool.tool_name once fresh),
      λ name i. elim (In-append names (tool.tool_name ∷ []) name (subst (In name) again i)) [
        | inl j ↦ inr (recorded name j)
        | inr (inl s) ↦ inl s
        | inr (inr j) ↦ absurd j
      ],
      add_counted analysis.count analysis.operations _ counted,
      room,
    )

analysis_or : Analysis → Result Analysis → Analysis
analysis_or other (err failure) = other
analysis_or other (ok analysis) = analysis

Result-IsLawful :
    (maximum : ℕ) (before after : Analysis)
    → IsLawful maximum before
    → ok before ≡ ok after
    → IsLawful maximum after
unfolding analysis_or
Result-IsLawful maximum before after lawful h =
    subst (IsLawful maximum) (ap (analysis_or before) h) lawful

settle-IsLawful :
    (maximum : ℕ) (template method pointer : String) (operation : Fields)
    (analysis after : Analysis) (converted : Result ToolDefinition)
    → analysis.count < maximum
    → IsLawful maximum analysis
    → settle template method pointer operation analysis converted ≡ ok after
    → IsLawful maximum after
unfolding report_failure claim_name
settle-IsLawful maximum template method pointer operation analysis after (ok tool) room lawful h =
    Result-IsLawful maximum _ after
      (by_name-IsLawful maximum template method pointer operation analysis tool
        (previous tool.tool_name analysis.seen) refl room lawful)
      h
settle-IsLawful maximum template method pointer operation analysis after (err failure) room lawful
      h =
    let key = method ⧺ (" " ⧺ template) in
    let (d, e, h₁) = >>=-eq-ok (or_uncaught (as_diagnostic (some key) failure)) _ h in
    Result-IsLawful maximum _ after (add-IsLawful maximum analysis _ refl room lawful) h₁

analyze_operation-IsLawful :
    (tables : NameTables) (checks : Checks) (maximum : ℕ) (template method : String)
    (path_item : Fields) (given : Json) (pointer : String) (analysis after : Analysis)
    → analysis.count < maximum
    → IsLawful maximum analysis
    → analyze_operation tables checks template method path_item given pointer analysis ≡ ok after
    → IsLawful maximum after
unfolding analyze_operation
analyze_operation-IsLawful tables checks maximum template method path_item (obj operation) pointer
      analysis after room lawful h =
    settle-IsLawful maximum template method pointer operation analysis after
      (convert_operation tables checks template method path_item operation) room lawful h
analyze_operation-IsLawful tables checks maximum template method path_item null pointer analysis
      after room lawful h =
    Result-IsLawful maximum _ after (add-IsLawful maximum analysis _ refl room lawful) h
analyze_operation-IsLawful tables checks maximum template method path_item (bool b) pointer analysis
      after room lawful h =
    Result-IsLawful maximum _ after (add-IsLawful maximum analysis _ refl room lawful) h
analyze_operation-IsLawful tables checks maximum template method path_item (int n) pointer analysis
      after room lawful h =
    Result-IsLawful maximum _ after (add-IsLawful maximum analysis _ refl room lawful) h
analyze_operation-IsLawful tables checks maximum template method path_item (float f t) pointer
      analysis after room lawful h =
    Result-IsLawful maximum _ after (add-IsLawful maximum analysis _ refl room lawful) h
analyze_operation-IsLawful tables checks maximum template method path_item (str s) pointer analysis
      after room lawful h =
    Result-IsLawful maximum _ after (add-IsLawful maximum analysis _ refl room lawful) h
analyze_operation-IsLawful tables checks maximum template method path_item (arr xs) pointer analysis
      after room lawful h =
    Result-IsLawful maximum _ after (add-IsLawful maximum analysis _ refl room lawful) h

analyze_methods-IsLawful :
    (tables : NameTables) (checks : Checks) (maximum : ℕ) (template : String) (path_item : Fields)
    (pointer : String) (methods : List String) (analysis after : Analysis)
    → IsLawful maximum analysis
    → analyze_methods tables checks maximum template path_item pointer methods analysis ≡ ok after
    → IsLawful maximum after
unfolding analyze_methods
analyze_methods-IsLawful tables checks maximum template path_item pointer [] analysis after lawful
      h =
    Result-IsLawful maximum analysis after lawful h
analyze_methods-IsLawful tables checks maximum template path_item pointer (method ∷ methods)
      analysis after lawful h =
    elim (Bool-cases (is_absent (get method path_item))) [
      | inl absent ↦
          analyze_methods-IsLawful tables checks maximum template path_item pointer methods analysis
            after lawful (rw absent at h)
      | inr there ↦ elim (Bool-cases (leb maximum analysis.count)) [
        | inl full ↦
            let stopped : ok (report analysis _) ≡ ok after = rw (there, full) at h in
            Result-IsLawful maximum _ after lawful stopped
        | inr room ↦
            let (next, analyzed, rest) =
              >>=-eq-ok
                (analyze_operation tables checks template method path_item (get method path_item)
                  (pointer ⧺ ("/" ⧺ method)) analysis)
                _ (rw (there, room) at h) in
            analyze_methods-IsLawful tables checks maximum template path_item pointer methods next
              after
              (analyze_operation-IsLawful tables checks maximum template method path_item
                (get method path_item) _ analysis next (ground arith) lawful analyzed)
              rest
      ]
    ]

either-IsLawful :
    (maximum : ℕ) (test : Bool) (yes_case no_case : Analysis)
    → IsLawful maximum yes_case
    → IsLawful maximum no_case
    → IsLawful maximum (if test then yes_case else no_case)
either-IsLawful maximum true yes_case no_case lawful other = lawful
either-IsLawful maximum false yes_case no_case other lawful = lawful

-- Diagnostics change nothing that is lawful.
report_unsupported-IsLawful :
    (maximum : ℕ) (template : String) (path_item : Fields) (pointer : String)
    (methods : List String) (analysis : Analysis)
    → IsLawful maximum analysis
    → IsLawful maximum (report_unsupported template path_item pointer methods analysis)
unfolding report_unsupported
report_unsupported-IsLawful maximum template path_item pointer [] analysis lawful = lawful
report_unsupported-IsLawful maximum template path_item pointer (method ∷ methods) analysis lawful =
    report_unsupported-IsLawful maximum template path_item pointer methods _
      (either-IsLawful maximum (has method path_item) _ analysis lawful lawful)

module _ (tables : NameTables) (checks : Checks) (maximum : ℕ) where
  analyze_item-IsLawful :
      (template pointer : String) (analysis after : Analysis) (item : Json)
      → IsLawful maximum analysis
      → analyze_item tables checks maximum template pointer analysis item ≡ ok after
      → IsLawful maximum after
  unfolding analyze_item
  analyze_item-IsLawful template pointer analysis after (obj path_item) lawful h =
      let (analyzed, e, h₁) =
        >>=-eq-ok
          (analyze_methods tables checks maximum template path_item pointer supported_methods
            analysis)
          _ h in
      Result-IsLawful maximum _ after
        (report_unsupported-IsLawful maximum template path_item pointer unsupported_methods analyzed
          (analyze_methods-IsLawful tables checks maximum template path_item pointer
            supported_methods analysis analyzed lawful e))
        h₁
  analyze_item-IsLawful template pointer analysis after null lawful h = ground arith
  analyze_item-IsLawful template pointer analysis after (bool b) lawful h = ground arith
  analyze_item-IsLawful template pointer analysis after (int n) lawful h = ground arith
  analyze_item-IsLawful template pointer analysis after (float f t) lawful h = ground arith
  analyze_item-IsLawful template pointer analysis after (str s) lawful h = ground arith
  analyze_item-IsLawful template pointer analysis after (arr xs) lawful h = ground arith

  item_or_report-IsLawful :
      (template pointer : String) (analysis after : Analysis) (resolved : Result Json)
      → IsLawful maximum analysis
      → item_or_report tables checks maximum template pointer analysis resolved ≡ ok after
      → IsLawful maximum after
  item_or_report-IsLawful template pointer analysis after (ok item) lawful h =
      analyze_item-IsLawful template pointer analysis after item lawful h
  item_or_report-IsLawful template pointer analysis after (err failure) lawful h =
      let (d, e, h₁) = >>=-eq-ok (or_uncaught (as_diagnostic none failure)) _ h in
      Result-IsLawful maximum (report analysis d) after lawful h₁

  module _ (read_int : String → Option ℤ) (document : Fields) where
    analyze_path-IsLawful :
        (template : String) (raw : Json) (analysis after : Analysis)
        → IsLawful maximum analysis
        → analyze_path tables checks read_int maximum document template raw analysis ≡ ok after
        → IsLawful maximum after
    unfolding analyze_path
    analyze_path-IsLawful template (obj raw) analysis after lawful h =
        let pointer = "/paths/" ⧺ encode_pointer_token template in
        elim (Bool-cases (starts_with template "/")) [
          | inl rooted ↦
              item_or_report-IsLawful template pointer analysis after
                (resolve read_int document (obj raw) pointer) lawful (rw rooted at h)
          | inr other ↦
              let reported : ok (report analysis _) ≡ ok after = rw other at h in
              Result-IsLawful maximum _ after lawful reported
        ]
    analyze_path-IsLawful template null analysis after lawful h =
        Result-IsLawful maximum _ after lawful h
    analyze_path-IsLawful template (bool b) analysis after lawful h =
        Result-IsLawful maximum _ after lawful h
    analyze_path-IsLawful template (int n) analysis after lawful h =
        Result-IsLawful maximum _ after lawful h
    analyze_path-IsLawful template (float f t) analysis after lawful h =
        Result-IsLawful maximum _ after lawful h
    analyze_path-IsLawful template (str s) analysis after lawful h =
        Result-IsLawful maximum _ after lawful h
    analyze_path-IsLawful template (arr xs) analysis after lawful h =
        Result-IsLawful maximum _ after lawful h

    analyze_paths-IsLawful :
        (paths : Fields) (templates : List String) (analysis after : Analysis)
        → IsLawful maximum analysis
        → analyze_paths tables checks read_int maximum document paths templates analysis ≡ ok after
        → IsLawful maximum after
    unfolding analyze_paths
    analyze_paths-IsLawful paths [] analysis after lawful h =
        Result-IsLawful maximum analysis after lawful h
    analyze_paths-IsLawful paths (template ∷ templates) analysis after lawful h =
        let (next, e, h₁) =
          >>=-eq-ok
            (analyze_path tables checks read_int maximum document template (get template paths)
              analysis)
            _ h in
        analyze_paths-IsLawful paths templates next after
          (analyze_path-IsLawful template (get template paths) analysis next lawful e) h₁

report_empty_operations :
    (operations : List AnalyzedOperation) (analysis : Analysis)
    → (report_empty operations analysis).operations ≡ analysis.operations
report_empty_operations [] analysis = refl
report_empty_operations (operation ∷ operations) analysis = refl

-- In the analysis of a document no two tools have the same name, and it has at most as many operations as the limit says.
pub analyze_document-IsDistinct :
    (tables : NameTables) (checks : Checks) (read_int : String → Option ℤ) (maximum : ℕ)
    (document paths : Fields) (analysis : Analysis)
    → analyze_document tables checks read_int maximum document paths ≡ ok analysis
    → IsDistinct (tool_names analysis.operations) × (length analysis.operations ≤ maximum)
unfolding analyze_document tool_names seen_names analysis_or
analyze_document-IsDistinct tables checks read_int maximum document paths analysis h =
    let (before, e, h₁) =
      >>=-eq-ok
        (analyze_paths tables checks read_int maximum document paths (sorted (path_keys paths))
          nothing)
        _ h in
    let (once, recorded, counted, within) =
      analyze_paths-IsLawful tables checks maximum read_int document paths
        (sorted (path_keys paths)) nothing before (tt, (λ name i. i), refl, omega arith) e in
    let same : before.operations ≡ analysis.operations =
      sym (report_empty_operations before.operations before)
      ∙ ap (λ r. (analysis_or before r).operations) h₁ in
    (
      subst (λ os. IsDistinct (tool_names os)) same once,
      subst (λ os. length os ≤ maximum) same (omega (arith, counted, within)),
    )
