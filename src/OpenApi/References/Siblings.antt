-- ===== src/OpenApi/References/Siblings.antt =====
-- The siblings of a reference in references.py.
use toollayer_ai.Base.{
  ℕ, suc, ◌≡◌, refl, subst, ap, ◌∙◌, inl, inr, String, false, not, Option, none, some, List, [],
  ◌∷◌, ◌++◌, ◌==◌, eq_iff, eq_refl, contains, arith, Bool-cases,
}
use toollayer_ai.Json.{ℤ, Json, null, str, obj, Fields, end, field, find, get, put, find-put}
use toollayer_ai.OpenApi.Errors.{unsupported_feature, Result, ok, >>=-eq-ok, guard-eq-ok}
use toollayer_ai.OpenApi.References.{
  max_resolution_depth, reference_pointer, dereference, Step, below, merge_siblings, overlay,
  resolve_reference, resolve_object, resolve_from, resolve,
}

-- A `dict` has no key twice.
abbrev pub IsDict : Fields → Type 0
IsDict end = Unit
IsDict (field key value fs) = (find key fs ≡ none) × IsDict fs

missing_rest :
    (k key : String) (w : Json) (fs : Fields)
    → find key (field k w fs) ≡ none
    → (k == key ≡ false) × (find key fs ≡ none)
unfolding find
missing_rest k key w fs missing = elim (Bool-cases (k == key)) [
  | inl same ↦ let bad : some w ≡ none = rw same at missing in cc
  | inr distinct ↦ (distinct, rw distinct at missing)
]

abbrev fields_or : Fields → Result Json → Fields
fields_or before (ok (obj fs)) = fs
fields_or before _ = before

abbrev or_json : Json → Option Json → Json
or_json before none = before
or_json before (some value) = value

module _ (again : Step) (pointer : String) (seen : List String) where
  -- An entry that no sibling has stays.
  merge_siblings-find_other :
      (fs merged out : Fields) (key : String)
      → find key fs ≡ none
      → merge_siblings again fs pointer seen merged ≡ ok out
      → find key out ≡ find key merged
  unfolding merge_siblings
  merge_siblings-find_other end merged out key missing h =
      let same : out ≡ merged = ground arith in ap (find key) same
  merge_siblings-find_other (field k w fs) merged out key missing h =
      let (distinct, rest) = missing_rest k key w fs missing in
      elim (Bool-cases (k == "$ref")) [
        | inl here ↦ merge_siblings-find_other fs merged out key rest (rw here at h)
        | inr other ↦
            let (resolved, e, h₁) = >>=-eq-ok (again w (below pointer k) seen) _ (rw other at h) in
            merge_siblings-find_other fs (put k resolved merged) out key rest h₁
            ∙ (rw (find-put k key resolved merged) (rw distinct refl))
      ]

  -- What a sibling becomes.
  abbrev pub Overlaid : Fields → String → Json → Type 0
  Overlaid out key value =
      (resolved : Json) × (again value (below pointer key) seen ≡ ok resolved)
      × (find key out ≡ some resolved)

  merge_siblings-find_first :
      (k : String) (w : Json) (fs merged out : Fields)
      → k == "$ref" ≡ false
      → find k fs ≡ none
      → merge_siblings again (field k w fs) pointer seen merged ≡ ok out
      → Overlaid out k w
  unfolding merge_siblings
  merge_siblings-find_first k w fs merged out other missing h =
      let (resolved, e, h₁) = >>=-eq-ok (again w (below pointer k) seen) _ (rw other at h) in
      (
        resolved,
        e,
        merge_siblings-find_other fs (put k resolved merged) out k missing h₁
            ∙ (rw (find-put k k resolved merged) (rw (eq_refl k) refl)),
      )

  -- A sibling is the entry of its key in the result.
  merge_siblings-find :
      (fs merged out : Fields) (key : String) (value : Json)
      → IsDict fs
      → key == "$ref" ≡ false
      → find key fs ≡ some value
      → merge_siblings again fs pointer seen merged ≡ ok out
      → Overlaid out key value
  unfolding merge_siblings find
  merge_siblings-find end merged out key value dict other found h = cc
  merge_siblings-find (field k w fs) merged out key value dict other found h =
      elim (Bool-cases (k == key)) [
        | inl same ↦
            let e : k ≡ key = (eq_iff k key).0 same in
            let v : w ≡ value = ap (or_json null) (rw same at found) in
            subst (λ t. Overlaid out t value) e
              (subst (λ t. Overlaid out k t) v
                (merge_siblings-find_first k w fs merged out (rw e other) dict.0 h))
        | inr distinct ↦ elim (Bool-cases (k == "$ref")) [
          | inl here ↦
              merge_siblings-find fs merged out key value dict.1 other (rw distinct at found)
                (rw here at h)
          | inr plain ↦
              let (resolved, e, h₁) =
                >>=-eq-ok (again w (below pointer k) seen) _ (rw plain at h) in
              merge_siblings-find fs (put k resolved merged) out key value dict.1 other
                (rw distinct at found) h₁
        ]
      ]

  overlay-find :
      (node out : Fields) (resolved : Json) (key : String) (value : Json)
      → IsDict node
      → key == "$ref" ≡ false
      → find key node ≡ some value
      → overlay again node pointer seen resolved ≡ ok (obj out)
      → Overlaid out key value
  unfolding overlay
  overlay-find node out (obj target) key value dict other found h =
      let (merged, e, h₁) = >>=-eq-ok (merge_siblings again node pointer seen target) _ h in
      let same : merged ≡ out = ap (fields_or end) h₁ in
      subst (λ o. Overlaid o key value) same
        (merge_siblings-find node target merged key value dict other found e)
  overlay-find node out _ key value dict other found h = ground arith

  module _ (read_int : String → Option ℤ) (document : Fields) where
    resolve_reference-find :
        (node out : Fields) (reference : Json) (key : String) (value : Json)
        → IsDict node
        → key == "$ref" ≡ false
        → find key node ≡ some value
        → resolve_reference read_int document again node reference pointer seen ≡ ok (obj out)
        → Overlaid out key value
    unfolding resolve_reference
    resolve_reference-find node out reference key value dict other found h =
        let (target_pointer, e₁, h₁) = >>=-eq-ok (reference_pointer reference pointer) _ h in
        let (fresh, h₂) =
          guard-eq-ok (not (contains seen target_pointer)) (unsupported_feature pointer) _ h₁ in
        let (target, e₂, h₃) =
          >>=-eq-ok (dereference read_int document target_pointer pointer) _ h₂ in
        let before = seen ++ (target_pointer ∷ []) in
        let (resolved, e₃, h₄) = >>=-eq-ok (again target target_pointer before) _ h₃ in
        overlay-find node out resolved key value dict other found h₄

resolve_from-find :
    (read_int : String → Option ℤ) (document : Fields) (left : ℕ) (node out : Fields)
    (reference key pointer : String) (value : Json)
    → IsDict node
    → get "$ref" node ≡ str reference
    → key == "$ref" ≡ false
    → find key node ≡ some value
    → resolve_from read_int document (suc left) (obj node) pointer [] ≡ ok (obj out)
    → Overlaid (resolve_from read_int document left) pointer [] out key value
unfolding resolve_from resolve_object
resolve_from-find read_int document left node out reference key pointer value dict refers other
      found h =
    let again = resolve_from read_int document left in
    resolve_reference-find again pointer [] read_int document node out (str reference) key value
      dict other found
      (subst (λ r. resolve_object read_int document again node r pointer [] ≡ ok (obj out)) refers
        h)

-- Whatever the target of a reference says under a key, a sibling of the reference with that key replaces it, `type` and
-- the other validation keywords included: the result has the resolved sibling there.
pub resolve_sibling :
    (read_int : String → Option ℤ) (document node out : Fields) (reference key pointer : String)
    (value : Json)
    → IsDict node
    → get "$ref" node ≡ str reference
    → key == "$ref" ≡ false
    → find key node ≡ some value
    → resolve read_int document (obj node) pointer ≡ ok (obj out)
    → Overlaid (resolve_from read_int document max_resolution_depth) pointer [] out key value
unfolding resolve
resolve_sibling read_int document node out reference key pointer value dict refers other found h =
    resolve_from-find read_int document max_resolution_depth node out reference key pointer value
      dict refers other found h
