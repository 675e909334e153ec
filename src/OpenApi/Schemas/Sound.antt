-- ===== src/OpenApi/Schemas/Sound.antt =====
-- What the statements of schema_conversion.py keep of a schema in conversion: its type and the keywords that it has.
use toollayer_ai.Base.{
  ◌≡◌, refl, subst, ap, ◌∙◌, ◌⊎◌, inl, inr, String, Bool, true, false, not, Option, none, some,
  List, [], ◌∷◌, ◌==◌, eq_refl, strip, All, contains, arith, Bool-cases, if◌then◌else◌,
}
use toollayer_ai.Json.{
  Json, null, bool, int, float, str, arr, obj, nil, cons, Fields, end, field, find, put, find-put,
  without, find-without,
}
use toollayer_ai.OpenApi.Errors.{invalid_document, Result, ok, err, >>=-eq-ok, guard-eq-ok}
use toollayer_ai.OpenApi.Schemas.{
  is_number, matches_type, apply_nullable, apply_annotation, apply_annotations, all_match,
  apply_enum, outside_enum, apply_default, is_text_keyword, nonempty_text, number_value,
  copy_keyword, copy_supported, exclusive_of, apply_exclusive, known_for, all_known,
}

-- The keywords of a converted schema, by its type.
abbrev pub output_keywords : String → List String
output_keywords declared =
    "type"
    ∷ "description"
    ∷ "title"
    ∷ "enum"
    ∷ "default"
    ∷ (if is_number declared
        then "exclusiveMinimum" ∷ "exclusiveMaximum" ∷ known_for declared
        else known_for declared)

-- The type, or its union with "null".
abbrev pub HasType : String → Fields → Type 0
HasType declared fs =
    (find "type" fs ≡ some (str declared))
    ⊎ (find "type" fs ≡ some (arr (cons (str declared) (cons (str "null") nil))))

pub all_known-put :
    (known : List String) (key : String) (value : Json) (fs : Fields)
    → contains known key ≡ true
    → all_known known fs ≡ true
    → all_known known (put key value fs) ≡ true
unfolding all_known put
all_known-put known key value end k h = rw k refl
all_known-put known key value (field j w fs) k h = elim (Bool-cases (j == key)) [
  | inl same ↦ rw same h
  | inr other ↦ rw other (ground (arith, all_known-put known key value fs k))
]

all_known-without :
    (known : List String) (key : String) (fs : Fields)
    → all_known known fs ≡ true
    → all_known known (without key fs) ≡ true
unfolding all_known without
all_known-without known key end h = refl
all_known-without known key (field j w fs) h = elim (Bool-cases (j == key)) [
  | inl same ↦ rw same (ground (arith, all_known-without known key fs))
  | inr other ↦ rw other (ground (arith, all_known-without known key fs))
]

-- What the statements before the last one keep.
abbrev pub Sound : String → Fields → Type 0
Sound declared fs = HasType declared fs × (all_known (output_keywords declared) fs ≡ true)

-- A keyword that may be assigned.
abbrev pub Assignable : String → String → Type 0
Assignable declared key = (contains (output_keywords declared) key ≡ true) × (key == "type" ≡ false)

pub find-put_other :
    (key j : String) (value : Json) (fs : Fields)
    → key == j ≡ false
    → find j (put key value fs) ≡ find j fs
find-put_other key j value fs other = rw (find-put key j value fs) (rw other refl)

pub find-put_self :
    (key : String) (value : Json) (fs : Fields) → find key (put key value fs) ≡ some value
find-put_self key value fs = rw (find-put key key value fs) (rw (eq_refl key) refl)

pub HasType-along :
    (declared : String) (fs gs : Fields)
    → find "type" gs ≡ find "type" fs
    → HasType declared fs
    → HasType declared gs
HasType-along declared fs gs same (inl h) = inl (same ∙ h)
HasType-along declared fs gs same (inr h) = inr (same ∙ h)

pub Sound-put :
    (declared key : String) (value : Json) (fs : Fields)
    → Assignable declared key
    → Sound declared fs
    → Sound declared (put key value fs)
Sound-put declared key value fs (known, other) (type, all) = (
  HasType-along declared fs (put key value fs) (find-put_other key "type" value fs other) type,
  all_known-put (output_keywords declared) key value fs known all,
)

Sound-without :
    (declared key : String) (fs : Fields)
    → key == "type" ≡ false
    → Sound declared fs
    → Sound declared (without key fs)
Sound-without declared key fs other (type, all) = (
  HasType-along declared fs (without key fs) (rw (find-without key "type" fs) (rw other refl)) type,
  all_known-without (output_keywords declared) key fs all,
)

fields_or : Fields → Result Fields → Fields
fields_or before (ok fs) = fs
fields_or before (err failure) = before

-- A statement that gives the fields unchanged, or with one keyword assigned.
pub Sound-ok :
    (declared : String) (fs : Fields) {out : Fields}
    → Sound declared fs
    → ok fs ≡ ok out
    → Sound declared out
unfolding fields_or
Sound-ok declared fs is h = subst (Sound declared) (ap (fields_or end) h) is

first_type : (declared : String) → Sound declared (field "type" (str declared) end)
unfolding find all_known contains
first_type declared = (inl refl, refl)

pub nullable-Sound :
    (value : Json) (declared pointer : String) (out : Fields)
    → apply_nullable value declared pointer (field "type" (str declared) end) ≡ ok out
    → Sound declared out
unfolding apply_nullable put find all_known contains
nullable-Sound null declared pointer out h = Sound-ok declared _ (first_type declared) h
nullable-Sound (bool false) declared pointer out h = Sound-ok declared _ (first_type declared) h
nullable-Sound (bool true) declared pointer out h = Sound-ok declared _ (inr refl, refl) h
nullable-Sound (int n) declared pointer out h = ground arith
nullable-Sound (float f t) declared pointer out h = ground arith
nullable-Sound (str s) declared pointer out h = ground arith
nullable-Sound (arr xs) declared pointer out h = ground arith
nullable-Sound (obj fs) declared pointer out h = ground arith

module _ (declared pointer : String) where
  annotation-Sound :
      (keyword : String) (value : Option Json) (fs out : Fields)
      → Assignable declared keyword
      → Sound declared fs
      → apply_annotation keyword value pointer fs ≡ ok out
      → Sound declared out
  unfolding apply_annotation
  annotation-Sound keyword none fs out k is h = Sound-ok declared fs is h
  annotation-Sound keyword (some (str value)) fs out k is h =
      elim (Bool-cases (strip value == "")) [
        | inl empty ↦ Sound-ok declared fs is (rw empty at h)
        | inr full ↦
            Sound-ok declared (put keyword (str (strip value)) fs)
              (Sound-put declared keyword (str (strip value)) fs k is) (rw full at h)
      ]
  annotation-Sound keyword (some _) fs out k is h = ground arith

  pub annotations-Sound :
      (schema fs out : Fields)
      → Sound declared fs
      → apply_annotations schema pointer fs ≡ ok out
      → Sound declared out
  unfolding apply_annotations contains
  annotations-Sound schema fs out is h =
      let (described, e, h₁) =
        >>=-eq-ok (apply_annotation "description" (find "description" schema) pointer fs) _ h in
      annotation-Sound "title" (find "title" schema) described out (refl, refl)
        (annotation-Sound "description" (find "description" schema) fs described (refl, refl) is e)
        h₁

  pub enum-Sound :
      (value : Option Json) (fs out : Fields)
      → Sound declared fs
      → apply_enum value declared pointer fs ≡ ok out
      → Sound declared out
  unfolding apply_enum contains
  enum-Sound none fs out is h = Sound-ok declared fs is h
  enum-Sound (some (arr nil)) fs out is h = ground arith
  enum-Sound (some (arr (cons x xs))) fs out is h =
      let (fits, h₁) =
        guard-eq-ok (all_match (cons x xs) declared) (invalid_document pointer) _ h in
      Sound-ok declared (put "enum" (arr (cons x xs)) fs)
        (Sound-put declared "enum" (arr (cons x xs)) fs (refl, refl) is) h₁
  enum-Sound (some null) fs out is h = ground arith
  enum-Sound (some (bool b)) fs out is h = ground arith
  enum-Sound (some (int n)) fs out is h = ground arith
  enum-Sound (some (float f t)) fs out is h = ground arith
  enum-Sound (some (str s)) fs out is h = ground arith
  enum-Sound (some (obj gs)) fs out is h = ground arith

  pub default-Sound :
      (equal : Json → Json → Bool) (value : Option Json) (fs out : Fields)
      → Sound declared fs
      → apply_default equal value declared pointer fs ≡ ok out
      → Sound declared out
  unfolding apply_default contains
  default-Sound equal none fs out is h = Sound-ok declared fs is h
  default-Sound equal (some value) fs out is h =
      let (fits, h₁) = guard-eq-ok (matches_type value declared) (invalid_document pointer) _ h in
      let (listed, h₂) =
        guard-eq-ok (not (outside_enum equal value (find "enum" fs))) (invalid_document pointer) _
          h₁ in
      Sound-ok declared (put "default" value fs)
        (Sound-put declared "default" value fs (refl, refl) is) h₂

  copy_keyword-Sound :
      (keyword : String) (value : Option Json) (fs out : Fields)
      → Assignable declared keyword
      → Sound declared fs
      → copy_keyword keyword value pointer fs ≡ ok out
      → Sound declared out
  unfolding copy_keyword
  copy_keyword-Sound keyword none fs out k is h = Sound-ok declared fs is h
  copy_keyword-Sound keyword (some value) fs out k is h =
      let (fits, h₁) =
        guard-eq-ok (if is_text_keyword keyword then nonempty_text value else number_value value)
          (invalid_document pointer) _ h in
      Sound-ok declared (put keyword value fs) (Sound-put declared keyword value fs k is) h₁

  pub copy_supported-Sound :
      (keywords : List String) (schema fs out : Fields)
      → All (Assignable declared) keywords
      → Sound declared fs
      → copy_supported keywords schema pointer fs ≡ ok out
      → Sound declared out
  unfolding copy_supported
  copy_supported-Sound [] schema fs out ks is h = Sound-ok declared fs is h
  copy_supported-Sound (keyword ∷ keywords) schema fs out (k, ks) is h =
      let (next, e, h₁) = >>=-eq-ok (copy_keyword keyword (find keyword schema) pointer fs) _ h in
      copy_supported-Sound keywords schema next out ks
        (copy_keyword-Sound keyword (find keyword schema) fs next k is e) h₁

  replaced :
      (bound exclusive : String) (value : Json) (fs : Fields) {out : Fields}
      → bound == "type" ≡ false
      → Assignable declared exclusive
      → Sound declared fs
      → ok (put exclusive value (without bound fs)) ≡ ok out
      → Sound declared out
  replaced bound exclusive value fs other k is h =
      Sound-ok declared (put exclusive value (without bound fs))
        (Sound-put declared exclusive value (without bound fs) k
          (Sound-without declared bound fs other is))
        h

  exclusive_of-Sound :
      (bound exclusive : String) (value : Option Json) (fs out : Fields)
      → bound == "type" ≡ false
      → Assignable declared exclusive
      → Sound declared fs
      → exclusive_of bound exclusive value pointer fs ≡ ok out
      → Sound declared out
  exclusive_of-Sound bound exclusive none fs out other k is h = ground arith
  exclusive_of-Sound bound exclusive (some null) fs out other k is h = ground arith
  exclusive_of-Sound bound exclusive (some (bool b)) fs out other k is h =
      replaced bound exclusive (bool b) fs other k is h
  exclusive_of-Sound bound exclusive (some (int b)) fs out other k is h =
      replaced bound exclusive (int b) fs other k is h
  exclusive_of-Sound bound exclusive (some (float b t)) fs out other k is h =
      replaced bound exclusive (float b t) fs other k is h
  exclusive_of-Sound bound exclusive (some (str b)) fs out other k is h =
      replaced bound exclusive (str b) fs other k is h
  exclusive_of-Sound bound exclusive (some (arr b)) fs out other k is h =
      replaced bound exclusive (arr b) fs other k is h
  exclusive_of-Sound bound exclusive (some (obj b)) fs out other k is h =
      replaced bound exclusive (obj b) fs other k is h

  pub exclusive-Sound :
      (bound exclusive : String) (value : Option Json) (fs out : Fields)
      → bound == "type" ≡ false
      → Assignable declared exclusive
      → Sound declared fs
      → apply_exclusive bound exclusive value pointer fs ≡ ok out
      → Sound declared out
  unfolding apply_exclusive
  exclusive-Sound bound exclusive none fs out other k is h = Sound-ok declared fs is h
  exclusive-Sound bound exclusive (some (bool false)) fs out other k is h =
      Sound-ok declared fs is h
  exclusive-Sound bound exclusive (some (bool true)) fs out other k is h =
      exclusive_of-Sound bound exclusive (find bound fs) fs out other k is h
  exclusive-Sound bound exclusive (some (int n)) fs out other k is h =
      Sound-ok declared (put exclusive (int n) fs) (Sound-put declared exclusive (int n) fs k is) h
  exclusive-Sound bound exclusive (some (float f t)) fs out other k is h =
      Sound-ok declared (put exclusive (float f t) fs)
        (Sound-put declared exclusive (float f t) fs k is) h
  exclusive-Sound bound exclusive (some null) fs out other k is h = ground arith
  exclusive-Sound bound exclusive (some (str s)) fs out other k is h = ground arith
  exclusive-Sound bound exclusive (some (arr xs)) fs out other k is h = ground arith
  exclusive-Sound bound exclusive (some (obj gs)) fs out other k is h = ground arith
