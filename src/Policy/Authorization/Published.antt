-- ===== src/Policy/Authorization/Published.antt =====
-- What the runtime reads from a policy that the control plane publishes: the contract model of
-- models.py, written by `model_dump`, against `parse_audience_policy` of authorization.py.
use toollayer_ai.Base.{
  ◌≡◌, refl, sym, ◌∙◌, ap, inl, inr, String, true, false, List, [], ◌∷◌, ◌++◌, map, arith, ltb,
  if◌then◌else◌, All, In, contains, contains→In, length, Bool-cases, text_lt, text_lt_irrefl,
}
use toollayer_ai.Json.{str, arr, find, get, to_items, items-to_items}
use toollayer_ai.Contracts.Errors.{tool_policy_error, ok, err}
use toollayer_ai.Contracts.Models.{
  is_resource_key, ToolAccessPolicy, ToolPolicy, make_access_policy, policy_json,
}
use toollayer_ai.Contracts.Models.Access.{
  IsResourceKey, IsAscending, Agrees, make_access_policy-IsAccepted,
}
use toollayer_ai.Policy.Authorization.{
  max_roles, is_role_key, add_role, collect_roles, read_roles, check_access, parse_access,
  parse_access_object, parse_audience_policy,
}

-- Every text of the first list stands before every text of the second.
abbrev Before : List String → List String → Type 0
Before xs ys = (x : String) → In x xs → All (λ y. text_lt x y ≡ true) ys

contains-Before :
    (roles ys : List String) (y : String) → Before roles (y ∷ ys) → contains roles y ≡ false
contains-Before roles ys y before = elim (Bool-cases (contains roles y)) [
  | inl found ↦ absurd (clash (text_lt_irrefl y) (before y (contains→In roles y found)).0)
  | inr fresh ↦ fresh
]
  where
    clash : text_lt y y ≡ false → text_lt y y ≡ true → ⊥
    clash h k = ground arith

Before-append :
    (roles ys : List String) (y : String)
    → Before roles (y ∷ ys)
    → All (λ z. text_lt y z ≡ true) ys
    → Before (roles ++ y ∷ []) ys
Before-append [] ys y before first x (inl e) = rw (← e) first
Before-append [] ys y before first x (inr i) = elim i [ ]
Before-append (r ∷ roles) ys y before first x (inl e) = rw (← e) (before r (inl refl)).1
Before-append (r ∷ roles) ys y before first x (inr i) =
    Before-append roles ys y (λ z j. before z (inr j)) first x i

append_cons : (xs ys : List String) (y : String) → (xs ++ y ∷ []) ++ ys ≡ xs ++ y ∷ ys
append_cons [] ys y = refl
append_cons (x ∷ xs) ys y = λ i. x ∷ append_cons xs ys y i

append_nil : (xs : List String) → xs ++ [] ≡ xs
append_nil [] = refl
append_nil (x ∷ xs) = λ i. x ∷ append_nil xs i

IsResourceKey-matches : (s : String) → IsResourceKey s → is_role_key s ≡ true
unfolding is_role_key is_resource_key
IsResourceKey-matches s h = ground arith

collect_roles-ascending :
    (roles ys : List String)
    → Before roles ys
    → IsAscending ys
    → All IsResourceKey ys
    → collect_roles roles (map str ys) ≡ ok (roles ++ ys)
unfolding collect_roles add_role
collect_roles-ascending roles [] before order keys = ap ok (sym (append_nil roles))
collect_roles-ascending roles (y ∷ ys) before (first, order) (key, keys) =
    rw (IsResourceKey-matches y key) (
      rw (contains-Before roles ys y before) (
        collect_roles-ascending (roles ++ y ∷ []) ys (Before-append roles ys y before first) order
          keys
        ∙ ap ok (append_cons roles ys y)))

length-map_str : (xs : List String) → length (map str xs) ≡ length xs
length-map_str [] = refl
length-map_str (x ∷ xs) = ground (arith, length-map_str xs)

read_roles_ascending :
    (roles : List String)
    → IsAscending roles
    → All IsResourceKey roles
    → read_roles (arr (to_items (map str roles)))
      ≡ (if ltb max_roles (length roles) then err tool_policy_error else ok roles)
unfolding read_roles
read_roles_ascending roles order keys =
    rw (items-to_items (map str roles), length-map_str roles)
      (rw (collect_roles-ascending [] roles (λ x i. elim i [ ]) order keys)
        (elim (Bool-cases (ltb max_roles (length roles))) [
          | inl many ↦ rw many refl
          | inr few ↦ rw few refl
        ]))

check_access-published :
    (mode : String) (roles : List String)
    → Agrees mode roles
    → IsAscending roles
    → All IsResourceKey roles
    → check_access mode (arr (to_items (map str roles))) ≡ (
        if ltb max_roles (length roles)
        then err tool_policy_error
        else ok (record { access_mode = mode; allowed_roles = roles }))
unfolding check_access
check_access-published mode [] (inl (e, none)) order keys =
    rw (read_roles_ascending [] order keys, e) refl
check_access-published mode [] (inr (e, some)) order keys = absurd (some refl)
check_access-published mode (x ∷ xs) (inl (e, none)) order keys = cc none
check_access-published mode (x ∷ xs) (inr (e, some)) order keys =
    rw (read_roles_ascending (x ∷ xs) order keys, e)
      (elim (Bool-cases (ltb max_roles (length (x ∷ xs)))) [
        | inl many ↦ rw many refl
        | inr few ↦ rw few refl
      ])

-- The runtime reads a policy that the contract model accepted as the same mode and roles, up to 32
-- roles; it refuses each policy with more, which the model accepts.
pub parse_audience_policy-policy_json :
    (mode : String) (given : List String) (access : ToolAccessPolicy) (policy : ToolPolicy)
    → make_access_policy mode given ≡ ok access
    → policy.access ≡ access
    → parse_audience_policy (policy_json policy) ≡ (
        if ltb max_roles (length access.allowed_roles)
        then err tool_policy_error
        else ok (record { access_mode = access.access_mode; allowed_roles = access.allowed_roles }))
unfolding parse_audience_policy parse_access_object parse_access policy_json get find
parse_audience_policy-policy_json mode given access policy made same =
    let accepted = make_access_policy-IsAccepted mode given access made in
    rw same (
      check_access-published access.access_mode access.allowed_roles
        (rw (accepted.mode_kept) accepted.agrees) accepted.in_order accepted.keys)
