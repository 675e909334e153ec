-- ===== src/Contracts/Models.antt =====
-- models.py: the typed contract documents and the checks that the models add to their field types.
-- Reading a model from JSON is pydantic's and stands outside, with the field types of all
-- models but `ToolAccessPolicy`; a `ValueError` of a check becomes pydantic's own `ValidationError`, itself a `ValueError`.
pub mod Access
pub mod Operations
use Prim.Native.Char.{code}
use Prim.Native.String
use Prim.Native.String.{count}
use text.Mathlib.Text.{starts_with}
use toollayer_ai.Base.{
  ℕ, String, Bool, true, false, not, ◌&&◌, ◌||◌, Option, none, some, List, [], ◌∷◌, map, leb, eqb,
  ◌==◌, is_digit, is_lower, text_lt, distinct, contains, if◌then◌else◌,
}
use toollayer_ai.Json.{Json, bool, str, arr, obj, Fields, end, field, find, get, to_items}
use toollayer_ai.Contracts.Errors.{Failure, value_error, Result, ok, err, ◌>>=◌, ◌>>◌, guard}

pub data BindingTarget : Type 0 where
  path query header body : BindingTarget

pub data EffectClass : Type 0 where
  read write destructive : EffectClass

pub data DescriptionOrigin : Type 0 where
  source generated assisted human : DescriptionOrigin

pub data LifecycleState : Type 0 where
  draft published disabled : LifecycleState

pub record ArgumentBinding : Type 0 where
  pub argument_pointer : String
  pub target : BindingTarget
  pub target_name : String

pub record ToolOperation : Type 0 where
  pub method : String
  pub path_template : String
  pub bindings : List ArgumentBinding
  pub request_body_media_type : Option String

pub record ToolAccessPolicy : Type 0 where
  pub access_mode : String
  pub allowed_roles : List String

pub record ToolPolicy : Type 0 where
  pub effect_class : EffectClass
  pub requires_confirmation : Bool
  pub access : ToolAccessPolicy

pub record ToolDefinition : Type 0 where
  pub tool_name : String
  pub description : String
  pub input_schema : Fields
  pub operation : ToolOperation
  pub policy : ToolPolicy

pub record ConnectorDefinition : Type 0 where
  pub connector_key : String
  pub version : String
  pub lifecycle_state : LifecycleState
  pub base_url : String
  pub tools : List ToolDefinition

pub record DeploymentSnapshot : Type 0 where
  pub snapshot_id : String
  pub deployment_key : String
  pub revision : ℕ
  pub snapshot_digest : String
  pub connectors : List ConnectorDefinition

abbrev is_body : BindingTarget → Bool
is_body body = true
is_body _ = false

-- `character in text`
abbrev pub has_char : ℕ → String → Bool
has_char n String.[] = false
has_char n (String.◌∷◌ c s) = eqb (code c) n || has_char n s

abbrev is_alnum : ℕ → Bool
is_alnum c = is_lower c || is_digit c

-- The rest of `KEY_PATTERN`, `^[a-z][a-z0-9]*(?:-[a-z0-9]+)*$`, after its first character: `seen`
-- says whether the segment at hand has a character yet.
key_rest : Bool → String → Bool
key_rest seen String.[] = seen
key_rest seen (String.◌∷◌ c s) =
    if is_alnum (code c) || (eqb (code c) b'-' && seen)
    then key_rest (is_alnum (code c)) s
    else false

-- The whole text matches `KEY_PATTERN`.
unfoldable pub matches_key : String → Bool
unfolding key_rest
matches_key String.[] = false
matches_key (String.◌∷◌ c s) = is_lower (code c) && key_rest true s

-- `ResourceKey`
unfoldable pub is_resource_key : String → Bool
is_resource_key s = matches_key s && leb (count s) 64

unfoldable pub all_keys : List String → Bool
all_keys [] = true
all_keys (r ∷ rs) = is_resource_key r && all_keys rs

-- `_body_targets_use_pointers`
unfoldable pub check_binding : ArgumentBinding → Result (Unit {0})
check_binding b = do
  guard (not (is_body b.target && not (starts_with b.target_name "/"))) value_error
  guard (not (not (is_body b.target) && has_char 10 b.target_name)) value_error

-- Insertion into a sorted list, for `sorted`.
unfoldable pub insert_sorted : String → List String → List String
insert_sorted x [] = x ∷ []
insert_sorted x (y ∷ ys) = if text_lt y x then y ∷ insert_sorted x ys else x ∷ y ∷ ys

unfoldable pub sorted : List String → List String
unfolding insert_sorted
sorted [] = []
sorted (x ∷ xs) = insert_sorted x (sorted xs)

abbrev pub no_roles : List String → Bool
no_roles [] = true
no_roles (_ ∷ _) = false

-- `ToolAccessPolicy(access_mode=…, allowed_roles=…)`: the fields are checked, the roles are sorted,
-- and then the validator `_mode_and_roles_agree` runs on them.
unfoldable pub make_access_policy : String → List String → Result ToolAccessPolicy
make_access_policy mode allowed = do
  guard (mode == "public" || mode == "restricted") value_error
  guard (all_keys allowed) value_error
  let roles = sorted allowed
  guard (not (mode == "public" && not (no_roles roles))) value_error
  guard (not (mode == "restricted" && no_roles roles)) value_error
  guard (distinct roles) value_error
  ok (record { access_mode = mode; allowed_roles = roles })

abbrev effect_text : EffectClass → String
effect_text read = "read"
effect_text write = "write"
effect_text destructive = "destructive"

abbrev pub access_json : ToolAccessPolicy → Json
access_json a = obj (
    field "access_mode" (str a.access_mode)
      (field "allowed_roles" (arr (to_items (map str a.allowed_roles))) end))

-- `policy.model_dump(mode="json")`
unfoldable pub policy_json : ToolPolicy → Json
policy_json p = obj (
    field "effect_class" (str (effect_text p.effect_class)) (
      field "requires_confirmation" (bool p.requires_confirmation)
        (field "access" (access_json p.access) end)))

abbrev tool_names : List ToolDefinition → List String
tool_names = map (λ tool. tool.tool_name)

-- `_tool_names_are_unique`
unfoldable pub check_connector : ConnectorDefinition → Result (Unit {0})
check_connector connector = guard (distinct (tool_names connector.tools)) value_error

abbrev is_published : LifecycleState → Bool
is_published published = true
is_published _ = false

abbrev all_published : List ConnectorDefinition → Bool
all_published [] = true
all_published (c ∷ cs) = is_published c.lifecycle_state && all_published cs

abbrev pub connector_keys : List ConnectorDefinition → List String
connector_keys = map (λ connector. connector.connector_key)

-- `_one_version_per_connector`
unfoldable pub check_snapshot : DeploymentSnapshot → Result (Unit {0})
check_snapshot snapshot = do
  guard (distinct (connector_keys snapshot.connectors)) value_error
  guard (all_published snapshot.connectors) value_error
