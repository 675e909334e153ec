-- ===== src/ControlPlane/Review/Updates.antt =====
-- What the updates of review.py change, and the invariant of the entries that they keep.
use toollayer_ai.Base.{
  ◌≡◌, refl, sym, ap₂, ◌∙◌, ◌≢◌, inl, inr, String, false, Option, none, some, List, [], ◌∷◌, arith,
  ◌==◌, eq_iff, eq_refl, Bool-cases, Option-cases,
}
use toollayer_ai.Contracts.Errors.{ok, >>=-eq-ok}
use toollayer_ai.ControlPlane.Review.{
  OperationReview, ReviewState, ReviewUpdate, Analysis, find_operation, initial_entry, add_initial,
  add_analyzed, build_initial_review, update_selection, update_description, update_effect,
  update_access, update_entry, replace_entry, or_invalid, apply_update, apply_updates,
  analyzed_keys, reviewed_keys,
}

find_operation_key :
    (key : String) (state : ReviewState) (entry : OperationReview)
    → find_operation key state ≡ some entry
    → entry.operation_key ≡ key
unfolding find_operation
find_operation_key key [] entry h = cc h
find_operation_key key (x ∷ xs) entry h = elim (Bool-cases (x.operation_key == key)) [
  | inl same ↦ let e : x ≡ entry = ground arith in rw (← e) ((eq_iff x.operation_key key).0 same)
  | inr other ↦ find_operation_key key xs entry (rw other at h)
]

or_invalid-eq-ok :
    (found : Option OperationReview) (entry : OperationReview)
    → or_invalid found ≡ ok entry
    → found ≡ some entry
or_invalid-eq-ok none entry h = cc h
or_invalid-eq-ok (some x) entry h = ground arith

replace_entry-reviewed_keys :
    (key : String) (new : OperationReview) (state : ReviewState)
    → new.operation_key ≡ key
    → reviewed_keys (replace_entry key new state) ≡ reviewed_keys state
replace_entry-reviewed_keys key new [] e = refl
replace_entry-reviewed_keys key new (x ∷ xs) e = elim (Bool-cases (x.operation_key == key)) [
  | inl same ↦ rw same (
      ap₂ (λ (a : String) (b : List String). a ∷ b) (e ∙ sym ((eq_iff x.operation_key key).0 same))
        (replace_entry-reviewed_keys key new xs e))
  | inr other ↦ rw other (λ i. x.operation_key ∷ replace_entry-reviewed_keys key new xs e i)
]

eqb_false : (a b : String) → a ≢ b → a == b ≡ false
eqb_false a b h = ground (arith, eq_iff a b)

find_operation-replace_entry_other :
    (key j : String) (new : OperationReview) (state : ReviewState)
    → new.operation_key ≡ key
    → key ≢ j
    → find_operation j (replace_entry key new state) ≡ find_operation j state
unfolding find_operation
find_operation-replace_entry_other key j new [] e apart = refl
find_operation-replace_entry_other key j new (x ∷ xs) e apart =
    let rest = find_operation-replace_entry_other key j new xs e apart in
    elim (Bool-cases (x.operation_key == key)) [
      | inl same ↦
          let x_key = (eq_iff x.operation_key key).0 same in
          rw same (rw (e, x_key) (rw (eqb_false key j apart) rest))
      | inr other ↦ rw other (rw rest refl)
    ]

find_operation-replace_entry :
    (key : String) (new old : OperationReview) (state : ReviewState)
    → new.operation_key ≡ key
    → find_operation key state ≡ some old
    → find_operation key (replace_entry key new state) ≡ some new
unfolding find_operation
find_operation-replace_entry key new old [] e h = cc h
find_operation-replace_entry key new old (x ∷ xs) e h = elim (Bool-cases (x.operation_key == key)) [
  | inl same ↦ rw same (rw e (rw (eq_refl key) refl))
  | inr other ↦ rw other (rw other (find_operation-replace_entry key new old xs e (rw other at h)))
]

update_entry_key :
    (old new : OperationReview) (update : ReviewUpdate)
    → update_entry old update ≡ ok new
    → new.operation_key ≡ old.operation_key
unfolding update_entry
update_entry_key old new update h =
    let (selection, _, h₁) = >>=-eq-ok (update_selection update.selection old.selection) _ h in
    let (described, _, h₂) =
      >>=-eq-ok (update_description update.description update.description_origin old) _ h₁ in
    let (effect, _, h₃) = >>=-eq-ok (update_effect update.effect_class old.effect_class) _ h₂ in
    let (access, _, h₄) =
      >>=-eq-ok (update_access update.access_mode update.allowed_roles old) _ h₃ in
    ground arith

-- The parts of an update that `apply_update` goes through, where it succeeds.
pub apply_update_parts :
    (state next : ReviewState) (update : ReviewUpdate)
    → apply_update state update ≡ ok next
    → (old : OperationReview) × (new : OperationReview) × (find_operation update.operation_key state
        ≡ some old)
      × (update_entry old update ≡ ok new)
      × (new.operation_key ≡ update.operation_key)
      × (next ≡ replace_entry update.operation_key new state)
unfolding apply_update
apply_update_parts state next update h =
    let key = update.operation_key in
    let (old, found, h₁) = >>=-eq-ok (or_invalid (find_operation key state)) _ h in
    let (new, made, h₂) = >>=-eq-ok (update_entry old update) _ h₁ in
    let there = or_invalid-eq-ok (find_operation key state) old found in
    (
      old,
      new,
      there,
      made,
      update_entry_key old new update made ∙ find_operation_key key state old there,
      ground arith,
    )

-- A successful update changes the entry of its operation, to what `update_entry` makes of it, and
-- leaves the entry of every other operation as it is.
pub apply_update_lookup :
    (state next : ReviewState) (update : ReviewUpdate)
    → apply_update state update ≡ ok next
    → ((old : OperationReview) × (new : OperationReview) × (find_operation update.operation_key
            state
          ≡ some old)
        × (update_entry old update ≡ ok new)
        × (find_operation update.operation_key next ≡ some new))
      × ((key : String)
          → update.operation_key ≢ key
          → find_operation key next ≡ find_operation key state)
apply_update_lookup state next update h =
    let (old, new, found, made, keeps, e) = apply_update_parts state next update h in
    let key = update.operation_key in
    rw e (
      (old, new, found, made, find_operation-replace_entry key new old state keeps found),
      λ j apart. find_operation-replace_entry_other key j new state keeps apart,
    )

pub apply_updates-reviewed_keys :
    (state next : ReviewState) (updates : List ReviewUpdate)
    → apply_updates state updates ≡ ok next
    → reviewed_keys next ≡ reviewed_keys state
unfolding apply_updates
apply_updates-reviewed_keys state next [] h = let e : state ≡ next = ground arith in rw e refl
apply_updates-reviewed_keys state next (update ∷ updates) h =
    let (mid, first, rest) = >>=-eq-ok (apply_update state update) _ h in
    let (old, new, found, made, keeps, e) = apply_update_parts state mid update first in
    apply_updates-reviewed_keys mid next updates rest
    ∙ (rw e (replace_entry-reviewed_keys update.operation_key new state keeps))

reviewed_keys-build_initial_review :
    (analysis : Analysis) → reviewed_keys (build_initial_review analysis) ≡ analyzed_keys analysis
unfolding build_initial_review analyzed_keys initial_entry add_initial add_analyzed
reviewed_keys-build_initial_review [] = refl
reviewed_keys-build_initial_review (operation ∷ operations) = elim (Option-cases operation.tool) [
  | inl e ↦ rw e (reviewed_keys-build_initial_review operations)
  | inr (tool, e) ↦ rw e (λ i. operation.key ∷ reviewed_keys-build_initial_review operations i)
]

-- However a review is updated from the state that the analysis seeds, it has one entry for each
-- operation with a tool, in the order of the analysis.
pub apply_updates-build_initial_review :
    (analysis : Analysis) (updates : List ReviewUpdate) (state : ReviewState)
    → apply_updates (build_initial_review analysis) updates ≡ ok state
    → reviewed_keys state ≡ analyzed_keys analysis
apply_updates-build_initial_review analysis updates state h =
    apply_updates-reviewed_keys (build_initial_review analysis) state updates h
    ∙ reviewed_keys-build_initial_review analysis
