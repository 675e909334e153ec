-- ===== src/ControlPlane/Review.antt =====
-- review.py: a reviewer's decisions on a draft. A draft stores them as the dictionary that `to_dict`
-- writes; here it stores the state itself. Values of `Literal` types are texts, as in Python.
pub mod Updates
pub mod Invariant
pub mod Readiness
use Prim.Native.Char.{code}
use Prim.Native.String
use Prim.Native.String.{count}
use toollayer_ai.Base.{
  ℕ, String, Bool, true, false, not, ◌&&◌, ◌||◌, Option, none, some, List, [], ◌∷◌, ◌++◌, map, leb,
  ltb, eqb, ◌==◌, select, contains, if◌then◌else◌, strip,
}
use toollayer_ai.Json.{Json, bool, str, arr, obj, Fields, end, find, get, items}
use toollayer_ai.Contracts.Errors.{
  Failure, tool_layer, invalid_request, value_error, Result, ok, err, ◌>>=◌, ◌>>◌, guard,
}
use toollayer_ai.Contracts.Models.{ToolAccessPolicy, make_access_policy}

pub record OperationReview : Type 0 where
  pub operation_key : String
  pub selection : String
  pub description : String
  pub description_origin : String
  pub effect_class : String
  pub requires_confirmation : Bool
  pub access_mode : String
  pub allowed_roles : List String

-- The operations of a `ReviewState`.
abbrev pub ReviewState : Type 0
ReviewState = List OperationReview

pub record ReviewUpdate : Type 0 where
  pub operation_key : String
  pub selection : Option String
  pub description : Option String
  pub description_origin : Option String
  pub effect_class : Option String
  pub requires_confirmation : Option Bool
  pub access_mode : Option String
  pub allowed_roles : Option (List String)

-- One analysed operation: its key, and its tool unless it could not be converted.
pub record Operation : Type 0 where
  pub key : String
  pub tool : Option Fields

abbrev pub Analysis : Type 0
Analysis = List Operation

-- `state.get(operation_key)`
unfoldable pub find_operation : String → ReviewState → Option OperationReview
find_operation key [] = none
find_operation key (entry ∷ entries) =
    if entry.operation_key == key then some entry else find_operation key entries

-- `state.included`
unfoldable pub included : ReviewState → ReviewState
unfolding select
included = select (λ entry. entry.selection == "included")

-- `d.get(key, {})`, `str(d.get(key, default))`, `bool(d.get(key, False))` and `tuple(d.get(key, ()))`
-- at the types that the analyser writes
abbrev object_at : String → Fields → Fields
object_at key fields = elim (get key fields) [ obj inner ↦ inner | _ ↦ end ]

abbrev text_at : String → String → Fields → String
text_at key default fields = elim (get key fields) [ str s ↦ s | _ ↦ default ]

abbrev flag_at : String → Fields → Bool
flag_at key fields = elim (get key fields) [ bool b ↦ b | _ ↦ false ]

abbrev texts_of : List Json → List String
texts_of [] = []
texts_of (str s ∷ xs) = s ∷ texts_of xs
texts_of (_ ∷ xs) = texts_of xs

abbrev texts_at : String → Fields → List String
texts_at key fields = elim (get key fields) [ arr xs ↦ texts_of (items xs) | _ ↦ [] ]

unfoldable initial_entry : String → Fields → OperationReview
initial_entry key tool =
    let policy = object_at "policy" tool in
    let access = object_at "access" policy in
    record {
      operation_key = key;
      selection = "included";
      description = text_at "description" "" tool;
      description_origin = text_at "description_origin" "source" (object_at "provenance" tool);
      effect_class = text_at "effect_class" "read" policy;
      requires_confirmation = flag_at "requires_confirmation" policy;
      access_mode = text_at "access_mode" "public" access;
      allowed_roles = texts_at "allowed_roles" access;
    }

unfoldable add_initial : Operation → ReviewState → ReviewState
add_initial operation rest = elim operation.tool [
  | none ↦ rest
  | some tool ↦ initial_entry operation.key tool ∷ rest
]

unfoldable pub build_initial_review : Analysis → ReviewState
unfolding add_initial initial_entry
build_initial_review [] = []
build_initial_review (operation ∷ operations) =
    add_initial operation (build_initial_review operations)

abbrev pub max_description : ℕ
max_description = 1024

abbrev pub invalid : Failure
invalid = tool_layer invalid_request

unfoldable pub update_selection : Option String → String → Result String
update_selection none old = ok old
update_selection (some new) old =
    if new == "included" || new == "excluded" then ok new else err invalid

-- `update.description_origin or "human"`
abbrev or_human : Option String → String
or_human none = "human"
or_human (some origin) = if origin == "" then "human" else origin

abbrev pub or_else {ℓ} : {A : Type ℓ} → Option A → A → A
or_else none a = a
or_else (some b) a = b

-- The new description and its origin.
unfoldable pub update_description :
    Option String → Option String → OperationReview → Result (String × String)
update_description none origin old = ok (old.description, or_else origin old.description_origin)
update_description (some given) origin old = do
  let text = strip given
  guard (not (text == "")) invalid
  guard (not (ltb max_description (count text))) invalid
  ok (text, or_human origin)

unfoldable pub update_effect : Option String → String → Result String
update_effect none old = ok old
update_effect (some new) old =
    if new == "read" || new == "write" || new == "destructive" then ok new else err invalid

-- `except Exception: raise ValidationError(…)`
abbrev pub access_failure : Result ToolAccessPolicy → Result ToolAccessPolicy
access_failure (ok policy) = ok policy
access_failure (err e) = err invalid

unfoldable pub update_access :
    Option String → Option (List String) → OperationReview → Result ToolAccessPolicy
update_access none none old =
    ok (record { access_mode = old.access_mode; allowed_roles = old.allowed_roles })
update_access mode roles old =
    access_failure
      (make_access_policy (or_else mode old.access_mode) (or_else roles old.allowed_roles))

-- The updated entry, or the first error of the update.
unfoldable pub update_entry : OperationReview → ReviewUpdate → Result OperationReview
update_entry old update = do
  selection ← update_selection update.selection old.selection
  described ← update_description update.description update.description_origin old
  effect ← update_effect update.effect_class old.effect_class
  access ← update_access update.access_mode update.allowed_roles old
  ok (record {
    operation_key = old.operation_key;
    selection = selection;
    description = described.0;
    description_origin = described.1;
    effect_class = effect;
    requires_confirmation = or_else update.requires_confirmation old.requires_confirmation;
    access_mode = access.access_mode;
    allowed_roles = access.allowed_roles;
  })

abbrev pub replace_entry : String → OperationReview → ReviewState → ReviewState
replace_entry key new [] = []
replace_entry key new (entry ∷ entries) =
    (if entry.operation_key == key then new else entry) ∷ replace_entry key new entries

abbrev pub or_invalid : Option OperationReview → Result OperationReview
or_invalid none = err invalid
or_invalid (some entry) = ok entry

unfoldable pub apply_update : ReviewState → ReviewUpdate → Result ReviewState
apply_update state update = do
  existing ← or_invalid (find_operation update.operation_key state)
  updated ← update_entry existing update
  ok (replace_entry update.operation_key updated state)

-- The loop of `update_review` over the updates.
unfoldable pub apply_updates : ReviewState → List ReviewUpdate → Result ReviewState
apply_updates state [] = ok state
apply_updates state (update ∷ updates) = do
  next ← apply_update state update
  apply_updates next updates

pub data Issue : Type 0 where
  base_url_missing no_operation_selected review_out_of_sync tool_name_collision : Issue
  description_placeholder restricted_without_roles : String → Issue

abbrev pub is_missing : Option String → Bool
is_missing none = true
is_missing (some s) = s == ""

abbrev pub no_entries : ReviewState → Bool
no_entries [] = true
no_entries (_ ∷ _) = false

abbrev pub no_texts : List String → Bool
no_texts [] = true
no_texts (_ ∷ _) = false

unfoldable add_analyzed : Operation → List String → List String
add_analyzed operation rest = elim operation.tool [ none ↦ rest | some tool ↦ operation.key ∷ rest ]

unfoldable pub analyzed_keys : Analysis → List String
unfolding add_analyzed
analyzed_keys [] = []
analyzed_keys (operation ∷ operations) = add_analyzed operation (analyzed_keys operations)

abbrev pub reviewed_keys : ReviewState → List String
reviewed_keys = map (λ entry. entry.operation_key)

unfoldable pub subset : List String → List String → Bool
subset [] b = true
subset (x ∷ a) b = contains b x && subset a b

-- Equality of sets.
abbrev pub same_keys : List String → List String → Bool
same_keys a b = subset a b && subset b a

abbrev when : Bool → Issue → List Issue
when true issue = issue ∷ []
when false issue = []

unfoldable pub entry_issues : OperationReview → List Issue
entry_issues entry =
    when (entry.description_origin == "generated") (description_placeholder entry.operation_key)
    ++ when (entry.access_mode == "restricted" && no_texts entry.allowed_roles)
        (restricted_without_roles entry.operation_key)

unfoldable pub all_entry_issues : ReviewState → List Issue
all_entry_issues [] = []
all_entry_issues (entry ∷ entries) = entry_issues entry ++ all_entry_issues entries

-- `review_readiness`: the issues; a draft is ready when there is none.
unfoldable pub review_readiness : Analysis → ReviewState → Option String → List Issue
review_readiness analysis state base_url =
    when (is_missing base_url) base_url_missing
    ++ (when (no_entries (included state)) no_operation_selected
        ++ (when (not (same_keys (reviewed_keys state) (analyzed_keys analysis))) review_out_of_sync
            ++ all_entry_issues (included state)))
