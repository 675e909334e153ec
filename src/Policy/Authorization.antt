-- ===== src/Policy/Authorization.antt =====
-- authorization.py: the one decision behind discovery and execution. A frozen set of roles is the
-- list of its members.
pub mod Parsing
pub mod Decision
pub mod Published
use Prim.Native.Char.{code}
use Prim.Native.String
use toollayer_ai.Base.{
  ℕ, String, Bool, true, false, not, ◌&&◌, ◌||◌, Option, none, some, List, [], ◌∷◌, ◌++◌, ltb, eqb,
  ◌==◌, is_digit, is_lower, length, contains, if◌then◌else◌, ◌≡◌, refl,
}
use toollayer_ai.Json.{Json, null, str, arr, obj, items, get}
use toollayer_ai.Contracts.Models.{matches_key}
use toollayer_ai.Contracts.Errors.{tool_policy_error, Result, ok, err, ◌>>=◌, ◌>>◌, guard}

abbrev pub max_roles : ℕ
max_roles = 32

-- `_ROLE_KEY.fullmatch(item)`: the pattern is that of `KEY_PATTERN` in models.py.
unfoldable pub is_role_key : String → Bool
is_role_key item = matches_key item

pub record ToolAudiencePolicy : Type 0 where
  pub access_mode : String
  pub allowed_roles : List String

abbrev pub restricted : ToolAudiencePolicy → Bool
restricted p = p.access_mode == "restricted"

abbrev pub public_policy : ToolAudiencePolicy
public_policy = record { access_mode = "public"; allowed_roles = [] }

pub record CallerIdentity : Type 0 where
  pub subject : String
  pub roles : List String

pub record AuthorizationDecision : Type 0 where
  pub allowed : Bool
  pub reason_code : Option String
  pub access_mode : String

-- `roles.add(item)`
unfoldable pub add_role : List String → String → List String
add_role roles item = if contains roles item then roles else roles ++ item ∷ []

-- The loop of `_roles`.
unfoldable pub collect_roles : List String → List Json → Result (List String)
collect_roles roles [] = ok roles
collect_roles roles (str item ∷ rest) =
    if is_role_key item then collect_roles (add_role roles item) rest else err tool_policy_error
collect_roles roles (_ ∷ rest) = err tool_policy_error

unfoldable pub read_roles : Json → Result (List String)
read_roles null = ok []
read_roles (arr xs) = do
  guard (not (ltb max_roles (length (items xs)))) tool_policy_error
  collect_roles [] (items xs)
read_roles _ = err tool_policy_error

abbrev pub is_empty : List String → Bool
is_empty [] = true
is_empty (_ ∷ _) = false

abbrev pub supported_mode : String → Bool
supported_mode mode = mode == "public" || mode == "restricted"

-- The checks on the mode and the roles together.
unfoldable pub check_access : String → Json → Result ToolAudiencePolicy
check_access mode allowed = do
  guard (supported_mode mode) tool_policy_error
  roles ← read_roles allowed
  guard (not (mode == "restricted" && is_empty roles)) tool_policy_error
  guard (not (mode == "public" && not (is_empty roles))) tool_policy_error
  ok (record { access_mode = mode; allowed_roles = roles })

-- `access`, once it is not `None`
unfoldable pub parse_access : Json → Json → Result ToolAudiencePolicy
parse_access (str mode) allowed = check_access mode allowed
parse_access _ allowed = err tool_policy_error

unfoldable pub parse_access_object : Json → Result ToolAudiencePolicy
parse_access_object null = ok public_policy
parse_access_object (obj access) =
    parse_access (get "access_mode" access) (get "allowed_roles" access)
parse_access_object _ = err tool_policy_error

unfoldable pub parse_audience_policy : Json → Result ToolAudiencePolicy
unfolding parse_access_object
parse_audience_policy (obj policy) = parse_access_object (get "access" policy)
parse_audience_policy _ = err tool_policy_error

-- `bool(a & b)` on sets
unfoldable pub intersects : List String → List String → Bool
intersects [] b = false
intersects (x ∷ a) b = contains b x || intersects a b

abbrev pub deny : String → AuthorizationDecision
deny reason = record { allowed = false; reason_code = some reason; access_mode = "restricted" }

-- The caller's part of the decision on a restricted tool.
abbrev pub authorize_roles : ToolAudiencePolicy → List String → AuthorizationDecision
authorize_roles policy [] = deny "caller_has_no_roles"
authorize_roles policy (r ∷ rs) =
    if intersects (r ∷ rs) policy.allowed_roles
    then record { allowed = true; reason_code = none; access_mode = "restricted" }
    else deny "role_not_permitted"

abbrev pub roles_of : Option CallerIdentity → List String
roles_of none = []
roles_of (some caller) = caller.roles

unfoldable pub authorize_tool :
    Option ToolAudiencePolicy → Option CallerIdentity → AuthorizationDecision
authorize_tool none caller = deny "tool_policy_unreadable"
authorize_tool (some policy) caller =
    if restricted policy
    then authorize_roles policy (roles_of caller)
    else record { allowed = true; reason_code = none; access_mode = "public" }

-- `except ToolPolicyError: policy = None`; `parse_audience_policy` raises nothing else.
abbrev pub readable : Result ToolAudiencePolicy → Option ToolAudiencePolicy
readable (ok policy) = some policy
readable (err e) = none

unfoldable pub authorize_stored_policy : Json → Option CallerIdentity → AuthorizationDecision
authorize_stored_policy tool_policy caller =
    authorize_tool (readable (parse_audience_policy tool_policy)) caller
