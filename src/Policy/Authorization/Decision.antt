-- ===== src/Policy/Authorization/Decision.antt =====
-- What the decisions of authorization.py allow, and how they fail closed.
use toollayer_ai.Base.{
  ◌≡◌, refl, ◌≢◌, ◌↔◌, ◌⊎◌, inl, inr, String, true, false, Option, none, some, List, [], ◌∷◌, arith,
  eq_iff, contains, In, contains→In, In→contains, Bool-cases,
}
use toollayer_ai.Json.{Json}
use toollayer_ai.Contracts.Errors.{Result, ok, err}
use toollayer_ai.Policy.Authorization.{
  ToolAudiencePolicy, restricted, CallerIdentity, AuthorizationDecision, intersects, roles_of,
  authorize_roles, authorize_tool, readable, parse_audience_policy, authorize_stored_policy,
}

-- Some text stands in both lists.
abbrev pub Share : List String → List String → Type 0
Share a b = (x : String) × In x a × In x b

intersects→Share : (a b : List String) → intersects a b ≡ true → Share a b
unfolding intersects
intersects→Share [] b h = ground arith
intersects→Share (x ∷ a) b h = elim (Bool-cases (contains b x)) [
  | inl found ↦ (x, inl refl, contains→In b x found)
  | inr other ↦ let (y, here, there) = intersects→Share a b (rw other at h) in (y, inr here, there)
]

Share→intersects : (a b : List String) (x : String) → In x a → In x b → intersects a b ≡ true
unfolding intersects
Share→intersects [] b x i j = absurd i
Share→intersects (y ∷ a) b x (inl e) j = rw e (rw (In→contains b x j))
Share→intersects (y ∷ a) b x (inr i) j = ground (arith, Share→intersects a b x i j)

-- Who may use a tool, stated without the code: anybody, unless its mode is "restricted"; then the
-- callers that hold one of its roles.
abbrev pub Permits : ToolAudiencePolicy → Option CallerIdentity → Type 0
Permits policy caller =
    (policy.access_mode ≢ "restricted") ⊎ Share (roles_of caller) policy.allowed_roles

authorize_roles-allowed :
    (policy : ToolAudiencePolicy) (roles : List String)
    → (authorize_roles policy roles).allowed ≡ intersects roles policy.allowed_roles
unfolding intersects
authorize_roles-allowed policy [] = refl
authorize_roles-allowed policy (r ∷ rs) = ground arith

allowed→Permits :
    (policy : ToolAudiencePolicy) (caller : Option CallerIdentity)
    → (authorize_tool (some policy) caller).allowed ≡ true
    → Permits policy caller
unfolding authorize_tool
allowed→Permits policy caller h = elim (Bool-cases (restricted policy)) [
  | inl closed ↦ inr (
      intersects→Share (roles_of caller) policy.allowed_roles
        (rw (authorize_roles-allowed policy (roles_of caller)) at (rw closed at h)))
  | inr public ↦ inl (ground (arith, eq_iff policy.access_mode "restricted"))
]

Permits→allowed :
    (policy : ToolAudiencePolicy) (caller : Option CallerIdentity)
    → Permits policy caller
    → (authorize_tool (some policy) caller).allowed ≡ true
unfolding authorize_tool
Permits→allowed policy caller p = elim (Bool-cases (restricted policy)) [
  | inl closed ↦ rw closed (rw (authorize_roles-allowed policy (roles_of caller)) (shared p closed))
  | inr public ↦ rw public
]
  where
    shared :
        Permits policy caller
        → restricted policy ≡ true
        → intersects (roles_of caller) policy.allowed_roles ≡ true
    shared (inl open_mode) closed =
        absurd (open_mode ((eq_iff policy.access_mode "restricted").0 closed))
    shared (inr (x, here, there)) closed =
        Share→intersects (roles_of caller) policy.allowed_roles x here there

readable-eq-some :
    (r : Result ToolAudiencePolicy) {p : ToolAudiencePolicy} → readable r ≡ some p → r ≡ ok p
readable-eq-some (ok p) h = ground arith
readable-eq-some (err e) h = cc

unreadable : (caller : Option CallerIdentity) → (authorize_tool none caller).allowed ≡ true → ⊥
unfolding authorize_tool
unreadable caller h = cc

-- A stored policy lets a caller use the tool exactly when it parses and the parsed policy permits
-- the caller; a policy that does not parse, of whatever shape, lets nobody.
pub authorize_stored_policy_iff :
    (stored : Json) (caller : Option CallerIdentity)
    → ((authorize_stored_policy stored caller).allowed ≡ true)
      ↔ ((p : ToolAudiencePolicy) × (parse_audience_policy stored ≡ ok p) × Permits p caller)
unfolding authorize_stored_policy
authorize_stored_policy_iff stored caller = (forth, back)
  where
    split :
        (r : Result ToolAudiencePolicy)
        → (authorize_tool (readable r) caller).allowed ≡ true
        → (p : ToolAudiencePolicy) × (r ≡ ok p) × Permits p caller
    split (ok p) h = (p, refl, allowed→Permits p caller h)
    split (err e) h = absurd (unreadable caller h)

    forth :
        (authorize_tool (readable (parse_audience_policy stored)) caller).allowed ≡ true
        → (p : ToolAudiencePolicy) × (parse_audience_policy stored ≡ ok p) × Permits p caller
    forth = split (parse_audience_policy stored)

    back :
        (p : ToolAudiencePolicy) × (parse_audience_policy stored ≡ ok p) × Permits p caller
        → (authorize_tool (readable (parse_audience_policy stored)) caller).allowed ≡ true
    back (p, parsed, permitted) = rw parsed (Permits→allowed p caller permitted)

not-Share_of_intersects : (a b : List String) → intersects a b ≡ false → ¬ Share a b
not-Share_of_intersects a b h (x, here, there) = absurd (cc (h, Share→intersects a b x here there))

-- The reason for every outcome: an allowed call has none; a denied one has "tool_policy_unreadable"
-- where there is no policy, "caller_has_no_roles" where the tool is restricted and the caller has no
-- role, and "role_not_permitted" where the tool is restricted and no role of the caller is allowed.
abbrev pub IsExplained : AuthorizationDecision → Option ToolAudiencePolicy → List String → Type 0
IsExplained d policy roles =
    ((d.allowed ≡ true) × (d.reason_code ≡ none))
    ⊎ ((d.allowed ≡ false) × (d.reason_code ≡ some "tool_policy_unreadable") × (policy ≡ none)
        ⊎ ((d.allowed ≡ false) × (d.reason_code ≡ some "caller_has_no_roles") × (roles ≡ [])
            ⊎ ((p : ToolAudiencePolicy) × (policy ≡ some p)
                × (p.access_mode ≡ "restricted")
                × (d.allowed ≡ false)
                × (d.reason_code ≡ some "role_not_permitted")
                × (¬ Share roles p.allowed_roles))))

authorize_roles-IsExplained :
    (p : ToolAudiencePolicy) (roles : List String)
    → p.access_mode ≡ "restricted"
    → IsExplained (authorize_roles p roles) (some p) roles
authorize_roles-IsExplained p [] closed = inr (inr (inl (refl, refl, refl)))
authorize_roles-IsExplained p (r ∷ rs) closed =
    elim (Bool-cases (intersects (r ∷ rs) p.allowed_roles)) [
      | inl shared ↦ rw shared (inl (refl, refl))
      | inr apart ↦ rw apart (
          inr (
            inr (
              inr (
                p,
                refl,
                closed,
                refl,
                refl,
                not-Share_of_intersects (r ∷ rs) p.allowed_roles apart,
              ))))
    ]

-- Every decision is explained by its reason code, on every branch of `authorize_tool`.
pub authorize_tool-IsExplained :
    (policy : Option ToolAudiencePolicy) (caller : Option CallerIdentity)
    → IsExplained (authorize_tool policy caller) policy (roles_of caller)
unfolding authorize_tool
authorize_tool-IsExplained none caller = inr (inl (refl, refl, refl))
authorize_tool-IsExplained (some p) caller = elim (Bool-cases (restricted p)) [
  | inr public ↦ rw public (inl (refl, refl))
  | inl closed ↦ rw closed (
      authorize_roles-IsExplained p (roles_of caller)
        ((eq_iff p.access_mode "restricted").0 closed))
]
