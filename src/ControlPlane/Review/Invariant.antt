-- ===== src/ControlPlane/Review/Invariant.antt =====
-- The form of a review entry that the updates of review.py keep: what the console may store.
use Prim.Native.String.{count}
use toollayer_ai.Base.{
  strip, ◌≡◌, ◌≤◌, ◌≢◌, ◌⊎◌, inl, inr, String, not, Option, none, some, List, [], ◌∷◌, arith, ltb,
  ◌==◌, eq_iff, All, Bool-cases,
}
use toollayer_ai.Contracts.Errors.{Result, ok, err, >>=-eq-ok, guard-eq-ok}
use toollayer_ai.Contracts.Models.{ToolAccessPolicy, make_access_policy}
use toollayer_ai.Contracts.Models.Access.{Agrees, make_access_policy-IsAccepted}
use toollayer_ai.ControlPlane.Review.{
  OperationReview, ReviewState, ReviewUpdate, find_operation, max_description, invalid,
  update_selection, update_description, or_else, update_effect, access_failure, update_access,
  update_entry, replace_entry, apply_update, apply_updates,
}
use toollayer_ai.ControlPlane.Review.Updates.{apply_update_parts}

abbrev IsSelection : String → Type 0
IsSelection s = (s ≡ "included") ⊎ (s ≡ "excluded")

abbrev IsEffect : String → Type 0
IsEffect s = (s ≡ "read") ⊎ ((s ≡ "write") ⊎ (s ≡ "destructive"))

abbrev IsDescription : String → Type 0
IsDescription s = (s ≢ "") × (count s ≤ max_description)

-- The fields have one of their values, the description is a text of 1 to 1024 characters, and there
-- are allowed roles exactly in the mode "restricted".
pub record IsReviewed (entry : OperationReview) : Type 0 where
  pub selection : IsSelection entry.selection
  pub description : IsDescription entry.description
  pub effect : IsEffect entry.effect_class
  pub access : Agrees entry.access_mode entry.allowed_roles

update_selection-IsSelection :
    (new : Option String) (old s : String)
    → IsSelection old
    → update_selection new old ≡ ok s
    → IsSelection s
unfolding update_selection
update_selection-IsSelection none old s keep h = let e : old ≡ s = ground arith in rw (← e) keep
update_selection-IsSelection (some new) old s keep h =
    ground (arith, eq_iff new "included", eq_iff new "excluded")

update_effect-IsEffect :
    (new : Option String) (old s : String)
    → IsEffect old
    → update_effect new old ≡ ok s
    → IsEffect s
unfolding update_effect
update_effect-IsEffect none old s keep h = let e : old ≡ s = ground arith in rw (← e) keep
update_effect-IsEffect (some new) old s keep h =
    ground (arith, eq_iff new "read", eq_iff new "write", eq_iff new "destructive")

update_description-IsDescription :
    (given origin : Option String) (old : OperationReview) (described : String × String)
    → IsDescription old.description
    → update_description given origin old ≡ ok described
    → IsDescription described.0
unfolding update_description
update_description-IsDescription none origin old described keep h =
    let e : old.description ≡ described.0 = ground arith in rw (← e) keep
update_description-IsDescription (some given) origin old described keep h =
    let (some_text, h₁) = guard-eq-ok (not (strip given == "")) invalid _ h in
    let (short, h₂) = guard-eq-ok (not (ltb max_description (count (strip given)))) invalid _ h₁ in
    let e : strip given ≡ described.0 = ground arith in
    rw (← e) (ground (arith, eq_iff (strip given) ""), ground arith)

access_failure-eq-ok :
    (r : Result ToolAccessPolicy) (p : ToolAccessPolicy) → access_failure r ≡ ok p → r ≡ ok p
access_failure-eq-ok (ok q) p h = h
access_failure-eq-ok (err e) p h = cc h

made_agrees :
    (mode : String) (given : List String) (p : ToolAccessPolicy)
    → access_failure (make_access_policy mode given) ≡ ok p
    → Agrees p.access_mode p.allowed_roles
made_agrees mode given p h =
    let accepted =
      make_access_policy-IsAccepted mode given p
        (access_failure-eq-ok (make_access_policy mode given) p h) in
    rw (accepted.mode_kept) accepted.agrees

update_access-Agrees :
    (mode : Option String) (roles : Option (List String)) (old : OperationReview)
    (p : ToolAccessPolicy)
    → Agrees old.access_mode old.allowed_roles
    → update_access mode roles old ≡ ok p
    → Agrees p.access_mode p.allowed_roles
unfolding update_access
update_access-Agrees none none old p keep h =
    let e : record { access_mode = old.access_mode; allowed_roles = old.allowed_roles } ≡ p =
      ground arith in
    rw (← e) keep
update_access-Agrees none (some roles) old p keep h = made_agrees _ _ p h
update_access-Agrees (some mode) none old p keep h = made_agrees _ _ p h
update_access-Agrees (some mode) (some roles) old p keep h = made_agrees _ _ p h

update_entry-IsReviewed :
    (old new : OperationReview) (update : ReviewUpdate)
    → IsReviewed old
    → update_entry old update ≡ ok new
    → IsReviewed new
unfolding update_entry
update_entry-IsReviewed old new update keep h =
    let (selection, s, h₁) = >>=-eq-ok (update_selection update.selection old.selection) _ h in
    let (described, d, h₂) =
      >>=-eq-ok (update_description update.description update.description_origin old) _ h₁ in
    let (effect, f, h₃) = >>=-eq-ok (update_effect update.effect_class old.effect_class) _ h₂ in
    let (access, a, h₄) =
      >>=-eq-ok (update_access update.access_mode update.allowed_roles old) _ h₃ in
    let made : OperationReview = record {
      operation_key = old.operation_key;
      selection = selection;
      description = described.0;
      description_origin = described.1;
      effect_class = effect;
      requires_confirmation = or_else update.requires_confirmation old.requires_confirmation;
      access_mode = access.access_mode;
      allowed_roles = access.allowed_roles;
    } in
    let e : made ≡ new = ground arith in
    rw (← e) (record {
      selection =
          update_selection-IsSelection update.selection old.selection selection keep.selection s;
      description =
          update_description-IsDescription update.description update.description_origin old
            described keep.description d;
      effect = update_effect-IsEffect update.effect_class old.effect_class effect keep.effect f;
      access =
          update_access-Agrees update.access_mode update.allowed_roles old access keep.access a;
    })

find_operation-All :
    (key : String) (state : ReviewState) (entry : OperationReview)
    → All IsReviewed state
    → find_operation key state ≡ some entry
    → IsReviewed entry
unfolding find_operation
find_operation-All key [] entry h found = cc found
find_operation-All key (x ∷ xs) entry (good, rest) found =
    elim (Bool-cases (x.operation_key == key)) [
      | inl same ↦ let e : x ≡ entry = ground arith in rw (← e) good
      | inr other ↦ find_operation-All key xs entry rest (rw other at found)
    ]

replace_entry-All :
    (key : String) (new : OperationReview) (state : ReviewState)
    → IsReviewed new
    → All IsReviewed state
    → All IsReviewed (replace_entry key new state)
replace_entry-All key new [] good h = tt
replace_entry-All key new (x ∷ xs) good (first, rest) = elim (Bool-cases (x.operation_key == key)) [
  | inl same ↦ rw same (good, replace_entry-All key new xs good rest)
  | inr other ↦ rw other (first, replace_entry-All key new xs good rest)
]

-- From a review whose entries have this form, any sequence of accepted updates leads to one whose
-- entries have it too, whatever texts the updates carry.
pub apply_updates-IsReviewed :
    (state next : ReviewState) (updates : List ReviewUpdate)
    → All IsReviewed state
    → apply_updates state updates ≡ ok next
    → All IsReviewed next
unfolding apply_updates
apply_updates-IsReviewed state next [] good h = let e : state ≡ next = ground arith in rw (← e) good
apply_updates-IsReviewed state next (update ∷ updates) good h =
    let (mid, first, rest) = >>=-eq-ok (apply_update state update) _ h in
    let (old, new, found, made, _, e) = apply_update_parts state mid update first in
    let reviewed =
      update_entry-IsReviewed old new update
        (find_operation-All update.operation_key state old good found) made in
    apply_updates-IsReviewed mid next updates
      (rw e (replace_entry-All update.operation_key new state reviewed good)) rest
