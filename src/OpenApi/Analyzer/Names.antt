-- ===== src/OpenApi/Analyzer/Names.antt =====
-- The names of tools, and the names that an analysis has seen.
use mathlib.Core.List.{append_assoc, append-nil}
use toollayer_ai.Base.{
  ◌≡◌, sym, ◌∙◌, ap, ◌⊎◌, inl, inr, String, true, Option, none, some, List, [], ◌∷◌, ◌++◌, ◌==◌,
  eq_iff, In, IsDistinct, arith, Bool-cases,
}
use toollayer_ai.Contracts.Models.{ToolDefinition}
use toollayer_ai.OpenApi.Analyzer.{AnalyzedOperation, previous}

abbrev pub name_of : Option ToolDefinition → List String
name_of none = []
name_of (some tool) = tool.tool_name ∷ []

-- The names of the tools of these operations.
unfoldable pub tool_names : List AnalyzedOperation → List String
tool_names [] = []
tool_names (operation ∷ operations) = name_of operation.tool ++ tool_names operations

unfoldable pub seen_names : List (String × String) → List String
seen_names [] = []
seen_names ((name, key) ∷ seen) = name ∷ seen_names seen

pub tool_names-add :
    (operations : List AnalyzedOperation) (operation : AnalyzedOperation)
    → tool_names (operations ++ (operation ∷ [])) ≡ tool_names operations ++ name_of operation.tool
unfolding tool_names
tool_names-add [] operation = append-nil (name_of operation.tool)
tool_names-add (first ∷ operations) operation =
    ap (λ names. name_of first.tool ++ names) (tool_names-add operations operation)
    ∙ sym (append_assoc (name_of first.tool) (tool_names operations) (name_of operation.tool))

pub In-append : (xs ys : List String) (name : String) → In name (xs ++ ys) → In name xs ⊎ In name ys
In-append [] ys name i = inr i
In-append (x ∷ xs) ys name (inl e) = inl (inl e)
In-append (x ∷ xs) ys name (inr i) = elim (In-append xs ys name i) [
  | inl j ↦ inl (inr j)
  | inr j ↦ inr j
]

pub IsDistinct-append :
    (xs : List String) (name : String)
    → IsDistinct xs
    → (In name xs → ⊥)
    → IsDistinct (xs ++ (name ∷ []))
IsDistinct-append [] name once fresh = (λ i. i, tt)
IsDistinct-append (x ∷ xs) name (head, tail) fresh = (
  λ i. elim (In-append xs (name ∷ []) x i) [
    | inl j ↦ head j
    | inr (inl e) ↦ fresh (inl (sym e))
    | inr (inr j) ↦ j
  ],
  IsDistinct-append xs name tail (λ j. fresh (inr j)),
)

pub previous-none :
    (name : String) (seen : List (String × String))
    → previous name seen ≡ none
    → In name (seen_names seen)
    → ⊥
unfolding previous seen_names
previous-none name [] h i = i
previous-none name ((first, key) ∷ seen) h (inl e) =
    let same : first == name ≡ true = (eq_iff first name).1 e in
    let bad : some key ≡ none = rw same at h in absurd (ground arith)
previous-none name ((first, key) ∷ seen) h (inr i) = elim (Bool-cases (first == name)) [
  | inl e ↦ (let bad : some key ≡ none = rw e at h in absurd (ground arith))
  | inr e ↦ previous-none name seen (rw e at h) i
]
