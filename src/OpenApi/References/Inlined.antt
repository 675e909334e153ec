-- ===== src/OpenApi/References/Inlined.antt =====
-- What references.py leaves of the references of a node.
use toollayer_ai.Base.{
  ℕ, zero, suc, ◌≡◌, refl, sym, subst, ap, ◌∙◌, inl, inr, String, false, not, Option, List, [], ◌∷◌,
  ◌++◌, ◌==◌, contains, show, arith, Bool-cases,
}
use toollayer_ai.Json.{
  ℤ, Json, null, bool, int, float, str, arr, obj, Items, nil, cons, Fields, end, field, find, get,
  put, find-put,
}
use toollayer_ai.Contracts.CanonicalJson.{◌⧺◌}
use toollayer_ai.OpenApi.Errors.{unsupported_feature, Result, ok, err, >>=-eq-ok, guard-eq-ok}
use toollayer_ai.OpenApi.References.{
  max_resolution_depth, reference_pointer, dereference, Step, below, resolve_fields, resolve_items,
  merge_siblings, overlay, resolve_reference, resolve_object, resolve_from, resolve,
}

-- No object, at any depth, has a reference: "$ref" is missing or `None`.
mutual
  pub IsInlined : Json → Type 0
  IsInlined null = Unit
  IsInlined (bool b) = Unit
  IsInlined (int n) = Unit
  IsInlined (float finite text) = Unit
  IsInlined (str s) = Unit
  IsInlined (arr xs) = AllItems xs
  IsInlined (obj fs) = (get "$ref" fs ≡ null) × AllFields fs

  pub AllItems : Items → Type 0
  AllItems nil = Unit
  AllItems (cons x xs) = IsInlined x × AllItems xs

  pub AllFields : Fields → Type 0
  AllFields end = Unit
  AllFields (field key value fs) = IsInlined value × AllFields fs

-- A step whose results have no references, and which leaves `None`.
abbrev Inlines : Step → Type 0
Inlines again =
    ((node : Json) (pointer : String) (seen : List String) (result : Json)
      → again node pointer seen ≡ ok result
      → IsInlined result)
    × ((pointer : String) (seen : List String) (result : Json)
        → again null pointer seen ≡ ok result
        → result ≡ null)

AllFields-put :
    (key : String) (value : Json) (fs : Fields)
    → IsInlined value
    → AllFields fs
    → AllFields (put key value fs)
unfolding put AllFields
AllFields-put key value end v h = (v, tt)
AllFields-put key value (field k w fs) v h = elim (Bool-cases (k == key)) [
  | inl same ↦ rw same (v, h.1)
  | inr other ↦ rw other (h.0, AllFields-put key value fs v h.1)
]

get-put_other :
    (key : String) (value : Json) (fs : Fields)
    → key == "$ref" ≡ false
    → get "$ref" (put key value fs) ≡ get "$ref" fs
unfolding get
get-put_other key value fs other = rw (find-put key "$ref" value fs) (rw other refl)

abbrev or_node : Json → Result Json → Json
or_node before (ok node) = node
or_node before (err failure) = before

module _ (again : Step) (inlines : Inlines again) where
  resolve_fields-get :
      (fs : Fields) (pointer : String) (seen : List String) (out : Fields)
      → resolve_fields again fs pointer seen ≡ ok out
      → get "$ref" fs ≡ null
      → get "$ref" out ≡ null
  unfolding resolve_fields get find
  resolve_fields-get end pointer seen out h none_there =
      let same : out ≡ end = ground arith in rw same refl
  resolve_fields-get (field key value fs) pointer seen out h none_there =
      let (first, e₁, h₁) = >>=-eq-ok (again value (below pointer key) seen) _ h in
      let (rest, e₂, h₂) = >>=-eq-ok (resolve_fields again fs pointer seen) _ h₁ in
      let same : field key first rest ≡ out = ground arith in
      subst (λ o. get "$ref" o ≡ null) same
        (elim (Bool-cases (key == "$ref")) [
          | inl here ↦
              let value_null : value ≡ null = rw here at none_there in
              let first_null = inlines.1 (below pointer key) seen first (rw value_null at e₁) in
              rw here first_null
          | inr other ↦
              rw other (resolve_fields-get fs pointer seen rest e₂ (rw other at none_there))
        ])

  resolve_fields-AllFields :
      (fs : Fields) (pointer : String) (seen : List String) (out : Fields)
      → resolve_fields again fs pointer seen ≡ ok out
      → AllFields out
  unfolding resolve_fields AllFields
  resolve_fields-AllFields end pointer seen out h =
      let same : end ≡ out = ground arith in subst AllFields same tt
  resolve_fields-AllFields (field key value fs) pointer seen out h =
      let (first, e₁, h₁) = >>=-eq-ok (again value (below pointer key) seen) _ h in
      let (rest, e₂, h₂) = >>=-eq-ok (resolve_fields again fs pointer seen) _ h₁ in
      let same : field key first rest ≡ out = ground arith in
      subst AllFields same (
        inlines.0 value (below pointer key) seen first e₁,
        resolve_fields-AllFields fs pointer seen rest e₂,
      )

  resolve_items-AllItems :
      (index : ℕ) (xs : Items) (pointer : String) (seen : List String) (out : Items)
      → resolve_items again index xs pointer seen ≡ ok out
      → AllItems out
  unfolding resolve_items AllItems
  resolve_items-AllItems index nil pointer seen out h =
      let same : nil ≡ out = ground arith in subst AllItems same tt
  resolve_items-AllItems index (cons x xs) pointer seen out h =
      let (first, e₁, h₁) = >>=-eq-ok (again x (pointer ⧺ ("/" ⧺ show index)) seen) _ h in
      let (rest, e₂, h₂) = >>=-eq-ok (resolve_items again (suc index) xs pointer seen) _ h₁ in
      let same : cons first rest ≡ out = ground arith in
      subst AllItems same (
        inlines.0 x (pointer ⧺ ("/" ⧺ show index)) seen first e₁,
        resolve_items-AllItems (suc index) xs pointer seen rest e₂,
      )

  merge_siblings-IsInlined :
      (fs : Fields) (pointer : String) (seen : List String) (merged out : Fields)
      → merge_siblings again fs pointer seen merged ≡ ok out
      → IsInlined (obj merged)
      → IsInlined (obj out)
  unfolding merge_siblings IsInlined
  merge_siblings-IsInlined end pointer seen merged out h is =
      let same : merged ≡ out = ground arith in subst (λ fs. IsInlined (obj fs)) same is
  merge_siblings-IsInlined (field key value fs) pointer seen merged out h is =
      elim (Bool-cases (key == "$ref")) [
        | inl here ↦ merge_siblings-IsInlined fs pointer seen merged out (rw here at h) is
        | inr other ↦
            let (resolved, e₁, h₁) =
              >>=-eq-ok (again value (below pointer key) seen) _ (rw other at h) in
            merge_siblings-IsInlined fs pointer seen (put key resolved merged) out h₁ (
              get-put_other key resolved merged other ∙ is.0,
              AllFields-put key resolved merged
                  (inlines.0 value (below pointer key) seen resolved e₁) is.1,
            )
      ]

  overlay-IsInlined :
      (node : Fields) (pointer : String) (seen : List String) (resolved out : Json)
      → IsInlined resolved
      → overlay again node pointer seen resolved ≡ ok out
      → IsInlined out
  unfolding overlay
  overlay-IsInlined node pointer seen (obj resolved) out is h =
      let (merged, e, h₁) = >>=-eq-ok (merge_siblings again node pointer seen resolved) _ h in
      let same : obj merged ≡ out = ground arith in
      subst IsInlined same (merge_siblings-IsInlined node pointer seen resolved merged e is)
  overlay-IsInlined node pointer seen null out is h = subst IsInlined (ap (or_node null) h) is
  overlay-IsInlined node pointer seen (bool b) out is h = subst IsInlined (ap (or_node null) h) is
  overlay-IsInlined node pointer seen (int n) out is h = subst IsInlined (ap (or_node null) h) is
  overlay-IsInlined node pointer seen (float f t) out is h =
      subst IsInlined (ap (or_node null) h) is
  overlay-IsInlined node pointer seen (str s) out is h = subst IsInlined (ap (or_node null) h) is
  overlay-IsInlined node pointer seen (arr xs) out is h = subst IsInlined (ap (or_node null) h) is

  module _ (read_int : String → Option ℤ) (document : Fields) where
    resolve_reference-IsInlined :
        (node : Fields) (reference : Json) (pointer : String) (seen : List String) (out : Json)
        → resolve_reference read_int document again node reference pointer seen ≡ ok out
        → IsInlined out
    unfolding resolve_reference
    resolve_reference-IsInlined node reference pointer seen out h =
        let (target_pointer, e₁, h₁) = >>=-eq-ok (reference_pointer reference pointer) _ h in
        let (fresh, h₂) =
          guard-eq-ok (not (contains seen target_pointer)) (unsupported_feature pointer) _ h₁ in
        let (target, e₂, h₃) =
          >>=-eq-ok (dereference read_int document target_pointer pointer) _ h₂ in
        let before = seen ++ (target_pointer ∷ []) in
        let (resolved, e₃, h₄) = >>=-eq-ok (again target target_pointer before) _ h₃ in
        overlay-IsInlined node pointer seen resolved out
          (inlines.0 target target_pointer before resolved e₃) h₄

    resolve_object-IsInlined :
        (node : Fields) (reference : Json) (pointer : String) (seen : List String) (out : Json)
        → get "$ref" node ≡ reference
        → resolve_object read_int document again node reference pointer seen ≡ ok out
        → IsInlined out
    unfolding resolve_object IsInlined
    resolve_object-IsInlined node null pointer seen out is h =
        let (fields, e, h₁) = >>=-eq-ok (resolve_fields again node pointer seen) _ h in
        let same : obj fields ≡ out = ground arith in
        subst IsInlined same (
          resolve_fields-get node pointer seen fields e is,
          resolve_fields-AllFields node pointer seen fields e,
        )
    resolve_object-IsInlined node (bool b) pointer seen out is h =
        resolve_reference-IsInlined node (bool b) pointer seen out h
    resolve_object-IsInlined node (int n) pointer seen out is h =
        resolve_reference-IsInlined node (int n) pointer seen out h
    resolve_object-IsInlined node (float f t) pointer seen out is h =
        resolve_reference-IsInlined node (float f t) pointer seen out h
    resolve_object-IsInlined node (str s) pointer seen out is h =
        resolve_reference-IsInlined node (str s) pointer seen out h
    resolve_object-IsInlined node (arr xs) pointer seen out is h =
        resolve_reference-IsInlined node (arr xs) pointer seen out h
    resolve_object-IsInlined node (obj fs) pointer seen out is h =
        resolve_reference-IsInlined node (obj fs) pointer seen out h

module _ (read_int : String → Option ℤ) (document : Fields) where
  scalar_IsInlined : (node : Json) {out : Json} → IsInlined node → ok node ≡ ok out → IsInlined out
  scalar_IsInlined node is h = subst IsInlined (ap (or_node null) h) is

  resolve_from-IsInlined :
      (left : ℕ) (node : Json) (pointer : String) (seen : List String) (out : Json)
      → Inlines (resolve_from read_int document left)
      → resolve_from read_int document (suc left) node pointer seen ≡ ok out
      → IsInlined out
  unfolding resolve_from IsInlined
  resolve_from-IsInlined left (obj node) pointer seen out ih h =
      resolve_object-IsInlined (resolve_from read_int document left) ih read_int document node
        (get "$ref" node) pointer seen out refl h
  resolve_from-IsInlined left (arr xs) pointer seen out ih h =
      let again = resolve_from read_int document left in
      let (resolved, e, h₁) = >>=-eq-ok (resolve_items again 0 xs pointer seen) _ h in
      scalar_IsInlined (arr resolved) (resolve_items-AllItems again ih 0 xs pointer seen resolved e)
        h₁
  resolve_from-IsInlined left null pointer seen out ih h = scalar_IsInlined null tt h
  resolve_from-IsInlined left (bool b) pointer seen out ih h = scalar_IsInlined (bool b) tt h
  resolve_from-IsInlined left (int n) pointer seen out ih h = scalar_IsInlined (int n) tt h
  resolve_from-IsInlined left (float f t) pointer seen out ih h = scalar_IsInlined (float f t) tt h
  resolve_from-IsInlined left (str s) pointer seen out ih h = scalar_IsInlined (str s) tt h

  resolve_from-Inlines : (left : ℕ) → Inlines (resolve_from read_int document left)
  unfolding resolve_from
  resolve_from-Inlines zero = (
    λ node pointer seen out h. (let bad : err (unsupported_feature pointer) ≡ ok out = h in cc),
    λ pointer seen out h. (let bad : err (unsupported_feature pointer) ≡ ok out = h in cc),
  )
  resolve_from-Inlines (suc left) =
      let ih = resolve_from-Inlines left in
      (
        λ node pointer seen out h. resolve_from-IsInlined left node pointer seen out ih h,
        λ pointer seen out h. sym (ap (or_node null) h),
      )

  -- A node that resolves has no references left, at any depth of it; a reference that is written as `null` stays.
  pub resolve-IsInlined :
      (node : Json) (pointer : String) (out : Json)
      → resolve read_int document node pointer ≡ ok out
      → IsInlined out
  unfolding resolve
  resolve-IsInlined node pointer out h =
      (resolve_from-Inlines (suc max_resolution_depth)).0 node pointer [] out h
