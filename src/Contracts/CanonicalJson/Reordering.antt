-- ===== src/Contracts/CanonicalJson/Reordering.antt =====
-- Equal documents have equal canonical text: `canonical_json` does not see the order in which the
-- keys of an object were inserted, at any depth.
use toollayer_ai.Base.{
  ◌≡◌, refl, sym, ap, ap₂, ◌∙◌, ◌≢◌, inl, inr, String, Bool, true, ◌&&◌, List, [], ◌∷◌, arith,
  Bool-cases, text_lt, text_lt_trans, text_lt_asymm, text_lt_cases,
}
use toollayer_ai.Json.{Json, arr, obj, Items, nil, cons, Fields, end, field}
use toollayer_ai.Contracts.CanonicalJson.{
  Entry, insert_entry, serializable, serializable_items, serializable_fields, render, render_items,
  render_fields, canonical_json,
}

-- The same value up to the order of keys in its objects: two neighbouring entries with different
-- keys may change places, at any depth, any number of times.
mutual
  pub data Same : Json → Json → Type 0 where
    itself : (j : Json) → Same j j
    in_array : {xs ys : Items} → SameItems xs ys → Same (arr xs) (arr ys)
    in_object : {fs gs : Fields} → Reordered fs gs → Same (obj fs) (obj gs)

  pub data SameItems : Items → Items → Type 0 where
    none_left : SameItems nil nil
    and_next :
        {x y : Json} {xs ys : Items}
        → Same x y
        → SameItems xs ys
        → SameItems (cons x xs) (cons y ys)

  pub data Reordered : Fields → Fields → Type 0 where
    no_entry : Reordered end end
    keep :
        (k : String) {v w : Json} {fs gs : Fields}
        → Same v w
        → Reordered fs gs
        → Reordered (field k v fs) (field k w gs)
    swap :
        (k j : String) (v w : Json) (fs : Fields)
        → k ≢ j
        → Reordered (field k v (field j w fs)) (field j w (field k v fs))
    after : {fs gs hs : Fields} → Reordered fs gs → Reordered gs hs → Reordered fs hs

insert_entry_lt :
    (e f : Entry) (xs : List Entry)
    → text_lt e.0 f.0 ≡ true
    → insert_entry e (insert_entry f xs) ≡ insert_entry f (insert_entry e xs)
unfolding insert_entry
insert_entry_lt e f [] d = rw d (rw (text_lt_asymm e.0 f.0 d))
insert_entry_lt e f (x ∷ xs) d = elim (Bool-cases (text_lt x.0 e.0)) [
  | inl below ↦
      let over = text_lt_trans x.0 e.0 f.0 below d in
      rw (below, over) (rw below (ap (λ (r : List Entry). x ∷ r) (insert_entry_lt e f xs d)))
  | inr above ↦ elim (Bool-cases (text_lt x.0 f.0)) [
    | inl middle ↦ rw (above, middle) (rw above (rw d))
    | inr top ↦ rw (above, top) (rw (text_lt_asymm e.0 f.0 d) (rw d))
  ]
]

insert_entry_swap :
    (e f : Entry) (xs : List Entry)
    → e.0 ≢ f.0
    → insert_entry e (insert_entry f xs) ≡ insert_entry f (insert_entry e xs)
insert_entry_swap e f xs ne = elim (text_lt_cases e.0 f.0) [
  | inl same ↦ absurd (ne same)
  | inr (inl less) ↦ insert_entry_lt e f xs less
  | inr (inr more) ↦ sym (insert_entry_lt f e xs more)
]

mutual
  unfolding render

  render-Same : {x y : Json} → Same x y → render x ≡ render y
  render-Same (itself j) = refl
  render-Same (in_array s) = rw (render_items-Same s)
  render-Same (in_object s) = rw (render_fields-Same s)

  render_items-Same : {xs ys : Items} → SameItems xs ys → render_items xs ≡ render_items ys
  render_items-Same none_left = refl
  render_items-Same (and_next s t) =
      ap₂ (λ (a : String) (r : List String). a ∷ r) (render-Same s) (render_items-Same t)

  render_fields-Same : {fs gs : Fields} → Reordered fs gs → render_fields fs ≡ render_fields gs
  render_fields-Same no_entry = refl
  render_fields-Same (keep k s t) =
      ap₂ (λ (a : String) (r : List Entry). insert_entry (k, a) r) (render-Same s)
        (render_fields-Same t)
  render_fields-Same (swap k j v w fs ne) =
      insert_entry_swap (k, render v) (j, render w) (render_fields fs) ne
  render_fields-Same (after s t) = render_fields-Same s ∙ render_fields-Same t

and_swap : (a b c : Bool) → (a && (b && c)) ≡ (b && (a && c))
and_swap a b c = ground arith

mutual
  unfolding serializable

  serializable-Same : {x y : Json} → Same x y → serializable x ≡ serializable y
  serializable-Same (itself j) = refl
  serializable-Same (in_array s) = serializable_items-Same s
  serializable-Same (in_object s) = serializable_fields-Same s

  serializable_items-Same :
      {xs ys : Items} → SameItems xs ys → serializable_items xs ≡ serializable_items ys
  serializable_items-Same none_left = refl
  serializable_items-Same (and_next s t) =
      ap₂ (λ (a b : Bool). a && b) (serializable-Same s) (serializable_items-Same t)

  serializable_fields-Same :
      {fs gs : Fields} → Reordered fs gs → serializable_fields fs ≡ serializable_fields gs
  serializable_fields-Same no_entry = refl
  serializable_fields-Same (keep k s t) =
      ap₂ (λ (a b : Bool). a && b) (serializable-Same s) (serializable_fields-Same t)
  serializable_fields-Same (swap k j v w fs ne) =
      and_swap (serializable v) (serializable w) (serializable_fields fs)
  serializable_fields-Same (after s t) = serializable_fields-Same s ∙ serializable_fields-Same t

-- Documents that differ only in the order of the keys of their objects, at any depth, have the same
-- canonical text, or are both refused.
pub canonical_json-Same :
    {document other : Json} → Same document other → canonical_json document ≡ canonical_json other
unfolding canonical_json
canonical_json-Same s = rw (serializable-Same s) (rw (render-Same s))
