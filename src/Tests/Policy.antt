-- ===== src/Tests/Policy.antt =====
-- The theorems on the authorization of tools, at one restricted tool and its callers.
use toollayer_ai.Base.{
  ◌≡◌, refl, ◌↔◌, String, true, Option, none, some, List, [], ◌∷◌, length, ltb, if◌then◌else◌,
}
use toollayer_ai.Json.{Json, obj, str, arr, nil, cons, field, end}
use toollayer_ai.Contracts.Errors.{tool_policy_error, ok, err}
use toollayer_ai.Contracts.Models.{ToolAccessPolicy, make_access_policy, policy_json}
use toollayer_ai.Policy.Authorization.{
  max_roles, ToolAudiencePolicy, CallerIdentity, roles_of, authorize_tool, authorize_stored_policy,
  parse_audience_policy,
}
use toollayer_ai.Policy.Authorization.Decision.{Permits, authorize_stored_policy_iff}
use toollayer_ai.Policy.Authorization.Parsing.{IsCanonical, parse_audience_policy-IsCanonical}
use toollayer_ai.Policy.Authorization.Published.{parse_audience_policy-policy_json}
use toollayer_ai.Tests.World.{tool}

abbrev stored : Json
stored = obj (
    field "access"
      (obj (
        field "access_mode" (str "restricted")
          (field "allowed_roles" (arr (cons (str "agent") nil)) end)))
      end)

abbrev agents : ToolAudiencePolicy
agents = record { access_mode = "restricted"; allowed_roles = "agent" ∷ [] }

abbrev clerk : Option CallerIdentity
clerk = some (record { subject = "ada"; roles = "clerk" ∷ [] })

authorize_stored_policy_iff_example :
    ((authorize_stored_policy stored clerk).allowed ≡ true)
    ↔ ((p : ToolAudiencePolicy) × (parse_audience_policy stored ≡ ok p) × Permits p clerk)
authorize_stored_policy_iff_example = authorize_stored_policy_iff stored clerk

stored_parses : parse_audience_policy stored ≡ ok agents
unfolding parse_audience_policy toollayer_ai.Policy.Authorization.parse_access_object
    toollayer_ai.Policy.Authorization.parse_access toollayer_ai.Policy.Authorization.check_access
    toollayer_ai.Policy.Authorization.read_roles toollayer_ai.Policy.Authorization.collect_roles
    toollayer_ai.Policy.Authorization.add_role toollayer_ai.Policy.Authorization.is_role_key
    toollayer_ai.Contracts.Models.matches_key toollayer_ai.Json.find toollayer_ai.Json.get
    toollayer_ai.Json.items toollayer_ai.Base.contains
stored_parses = refl

parse_audience_policy-IsCanonical_example : IsCanonical agents
parse_audience_policy-IsCanonical_example =
    parse_audience_policy-IsCanonical stored agents stored_parses

abbrev access : ToolAccessPolicy
access = record { access_mode = "restricted"; allowed_roles = "agent" ∷ [] }

access_made : make_access_policy "restricted" ("agent" ∷ []) ≡ ok access
unfolding make_access_policy toollayer_ai.Contracts.Models.sorted
    toollayer_ai.Contracts.Models.insert_sorted toollayer_ai.Contracts.Models.all_keys
    toollayer_ai.Contracts.Models.is_resource_key toollayer_ai.Contracts.Models.matches_key
    toollayer_ai.Base.text_lt toollayer_ai.Base.distinct toollayer_ai.Base.contains
access_made = refl

parse_audience_policy-policy_json_example : parse_audience_policy (policy_json tool.policy) ≡ (
    if ltb max_roles (length access.allowed_roles)
    then err tool_policy_error
    else ok (record { access_mode = access.access_mode; allowed_roles = access.allowed_roles }))
parse_audience_policy-policy_json_example =
    parse_audience_policy-policy_json "restricted" ("agent" ∷ []) access tool.policy access_made
      refl
