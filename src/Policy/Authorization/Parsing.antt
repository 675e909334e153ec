-- ===== src/Policy/Authorization/Parsing.antt =====
-- What `parse_audience_policy` accepts.
use toollayer_ai.Base.{
  ◌≡◌, refl, ◌≢◌, ◌≤◌, ◌⊎◌, inl, inr, String, true, not, List, [], ◌∷◌, ◌+◌, ◌&&◌, length-append,
  arith, ◌==◌, eq_iff, All, All-append, contains, length, Bool-cases, ltb,
}
use toollayer_ai.Json.{Json, null, str, arr, obj, items, get}
use toollayer_ai.Contracts.Errors.{ok, >>=-eq-ok, guard-eq-ok, tool_policy_error}
use toollayer_ai.Policy.Authorization.{
  max_roles, is_role_key, ToolAudiencePolicy, public_policy, add_role, collect_roles, read_roles,
  is_empty, supported_mode, check_access, parse_access, parse_access_object, parse_audience_policy,
}

abbrev pub IsRoleKey : String → Type 0
IsRoleKey role = is_role_key role ≡ true

-- A policy in one of the two modes: "public" with no role, or "restricted" with at least one role,
-- at most 32 of them and each a canonical key.
pub record IsCanonical (p : ToolAudiencePolicy) : Type 0 where
  pub mode :
      ((p.access_mode ≡ "public") × (p.allowed_roles ≡ []))
      ⊎ ((p.access_mode ≡ "restricted") × (p.allowed_roles ≢ []))
  pub keys : All IsRoleKey p.allowed_roles
  pub few : length p.allowed_roles ≤ max_roles

add_role-All :
    (roles : List String) (item : String)
    → All IsRoleKey roles
    → IsRoleKey item
    → All IsRoleKey (add_role roles item)
unfolding add_role
add_role-All roles item h k = elim (Bool-cases (contains roles item)) [
  | inl old ↦ rw old h
  | inr new ↦ rw new (All-append IsRoleKey roles (item ∷ []) h (k, tt))
]

length-add_role :
    (roles : List String) (item : String) → length (add_role roles item) ≤ length roles + 1
unfolding add_role
length-add_role roles item = ground (arith, length-append roles (item ∷ []))

collect_roles-All :
    (roles : List String) (xs : List Json) (found : List String)
    → All IsRoleKey roles
    → collect_roles roles xs ≡ ok found
    → All IsRoleKey found
unfolding collect_roles
collect_roles-All roles [] found h e = let same : roles ≡ found = ground arith in rw (← same) h
collect_roles-All roles (str item ∷ xs) found h e = elim (Bool-cases (is_role_key item)) [
  | inl canonical ↦
      collect_roles-All (add_role roles item) xs found (add_role-All roles item h canonical)
        (rw canonical at e)
  | inr other ↦ absurd (ground arith)
]
collect_roles-All roles (_ ∷ xs) found h e = cc

length-collect_roles :
    (roles : List String) (xs : List Json) (found : List String)
    → collect_roles roles xs ≡ ok found
    → length found ≤ length roles + length xs
unfolding collect_roles
length-collect_roles roles [] found e =
    let same : roles ≡ found = ground arith in rw (← same) (omega arith)
length-collect_roles roles (str item ∷ xs) found e = elim (Bool-cases (is_role_key item)) [
  | inl canonical ↦
      let more = length-collect_roles (add_role roles item) xs found (rw canonical at e) in
      omega (arith, length-add_role roles item)
  | inr other ↦ absurd (ground arith)
]
length-collect_roles roles (_ ∷ xs) found e = cc

read_roles_keys :
    (value : Json) (roles : List String)
    → read_roles value ≡ ok roles
    → All IsRoleKey roles × (length roles ≤ max_roles)
unfolding read_roles
read_roles_keys null roles h = let none : [] ≡ roles = ground arith in rw (← none) (tt, omega arith)
read_roles_keys (arr xs) roles h =
    let (short, rest) =
      guard-eq-ok (not (ltb max_roles (length (items xs)))) tool_policy_error _ h in
    (
      collect_roles-All [] (items xs) roles tt rest,
      ground (arith, length-collect_roles [] (items xs) roles rest),
    )
read_roles_keys _ roles h = cc

mode_agrees :
    (mode : String) (roles : List String)
    → supported_mode mode ≡ true
    → not (mode == "restricted" && is_empty roles) ≡ true
    → not (mode == "public" && not (is_empty roles)) ≡ true
    → ((mode ≡ "public") × (roles ≡ [])) ⊎ ((mode ≡ "restricted") × (roles ≢ []))
mode_agrees mode [] s r p = ground (arith, eq_iff mode "public", eq_iff mode "restricted")
mode_agrees mode (x ∷ xs) s r p = elim (Bool-cases (mode == "restricted")) [
  | inl closed ↦ inr ((eq_iff mode "restricted").0 closed, λ e. cc e)
  | inr public ↦ absurd (ground arith)
]

check_access-IsCanonical :
    (mode : String) (allowed : Json) (p : ToolAudiencePolicy)
    → check_access mode allowed ≡ ok p
    → IsCanonical p
unfolding check_access
check_access-IsCanonical mode allowed p h =
    let (supported, h₁) = guard-eq-ok (supported_mode mode) tool_policy_error _ h in
    let (roles, read, h₂) = >>=-eq-ok (read_roles allowed) _ h₁ in
    let (some_role, h₃) =
      guard-eq-ok (not (mode == "restricted" && is_empty roles)) tool_policy_error _ h₂ in
    let (no_role, h₄) =
      guard-eq-ok (not (mode == "public" && not (is_empty roles))) tool_policy_error _ h₃ in
    let e : p ≡ record { access_mode = mode; allowed_roles = roles } = ground arith in
    let (keys, few) = read_roles_keys allowed roles read in
    rw e
      (record { mode = mode_agrees mode roles supported some_role no_role; keys = keys; few = few })

parse_access-IsCanonical :
    (mode allowed : Json) (p : ToolAudiencePolicy)
    → parse_access mode allowed ≡ ok p
    → IsCanonical p
unfolding parse_access
parse_access-IsCanonical (str mode) allowed p h = check_access-IsCanonical mode allowed p h
parse_access-IsCanonical _ allowed p h = cc

public_policy-IsCanonical : IsCanonical public_policy
public_policy-IsCanonical = record { mode = inl (refl, refl); keys = tt; few = omega arith }

parse_access_object-IsCanonical :
    (access : Json) (p : ToolAudiencePolicy) → parse_access_object access ≡ ok p → IsCanonical p
unfolding parse_access_object
parse_access_object-IsCanonical null p h =
    let e : p ≡ public_policy = ground arith in rw e public_policy-IsCanonical
parse_access_object-IsCanonical (obj fields) p h = parse_access-IsCanonical _ _ p h
parse_access_object-IsCanonical _ p h = cc

-- Whatever value is stored, a policy that parses is canonical: no restriction without a role, no
-- public tool with one, and no role key out of form.
pub parse_audience_policy-IsCanonical :
    (stored : Json) (p : ToolAudiencePolicy) → parse_audience_policy stored ≡ ok p → IsCanonical p
unfolding parse_audience_policy
parse_audience_policy-IsCanonical (obj policy) p h =
    parse_access_object-IsCanonical (get "access" policy) p h
parse_audience_policy-IsCanonical _ p h = cc
