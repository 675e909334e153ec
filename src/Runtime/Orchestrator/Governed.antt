-- ===== src/Runtime/Orchestrator/Governed.antt =====
-- What stands before each call that orchestrator.py makes of its executor.
use toollayer_ai.Base.{
  ◌≡◌, refl, inl, inr, String, Bool, true, false, not, ◌&&◌, Option, none, some, List, [], ◌∷◌, map,
  ltb, ◌==◌, arith, Bool-cases, Elem, select,
}
use toollayer_ai.Json.{Json, obj, Fields}
use toollayer_ai.Contracts.Errors.{
  tool_layer, role_not_permitted, confirmation_required, no_tool_selected, ok, >>=-eq-ok,
  guard-eq-ok, ok-pair,
}
use toollayer_ai.Contracts.Models.{ToolDefinition, policy_json}
use toollayer_ai.Policy.Authorization.{ToolAudiencePolicy, CallerIdentity, parse_audience_policy}
use toollayer_ai.Policy.Authorization.Decision.{Permits, authorize_stored_policy_iff}
use toollayer_ai.Policy.Arguments.{
  argument_error, byte_length, dumps, max_argument_bytes, validate_arguments,
}
use toollayer_ai.Runtime.Snapshot.{BoundTool, Index, lookup, LoadedSnapshot, or_unknown, resolve}
use toollayer_ai.Runtime.Orchestrator.{
  Orchestrator, Call, tools_of, is_allowed, discover_in, authorize, check_call, resolve_call,
  has_tools, or_none_selected, or_incomplete, choose_call,
}

select-Elem :
    (p : BoundTool → Bool) (bs : List BoundTool) (b : BoundTool)
    → Elem b bs
    → p b ≡ true
    → Elem b (select p bs)
unfolding select
select-Elem p [] b i h = elim i [ ]
select-Elem p (x ∷ bs) b (inl e) h = rw e (rw h (inl refl))
select-Elem p (x ∷ bs) b (inr i) h = elim (Bool-cases (p x)) [
  | inl kept ↦ rw kept (inr (select-Elem p bs b i h))
  | inr dropped ↦ rw dropped (select-Elem p bs b i h)
]

lookup-Elem :
    (name : String) (index : Index) (b : BoundTool)
    → lookup name index ≡ some b
    → Elem b (map (λ entry. entry.1) index)
unfolding lookup
lookup-Elem name [] b h = cc h
lookup-Elem name ((key, x) ∷ index) b h = elim (Bool-cases (key == name)) [
  | inl here ↦ inl (ground arith)
  | inr there ↦ inr (lookup-Elem name index b (rw there at h))
]

-- The call is of a tool that the caller discovers in the snapshot, whose policy parses and permits the caller;
-- its arguments satisfy the tool's schema; and it is confirmed where the tool wants that.
pub record IsGoverned (orchestrator : Orchestrator) (snapshot : LoadedSnapshot)
    (caller : Option CallerIdentity) (confirmed : Bool) (call : Call) : Type 0 where
  pub discovered : Elem call.bound (discover_in snapshot caller)
  pub policy : ToolAudiencePolicy
  pub parsed : parse_audience_policy (policy_json call.bound.tool.policy) ≡ ok policy
  pub permitted : Permits policy caller
  pub valid : orchestrator.satisfies call.bound.tool.input_schema call.arguments ≡ true
  pub approved : call.bound.tool.policy.requires_confirmation ≡ true → confirmed ≡ true

module _ (orchestrator : Orchestrator) where
  validate_arguments-satisfies :
      (tool : ToolDefinition) (arguments : Json) (validated : Fields)
      → validate_arguments orchestrator.satisfies tool arguments ≡ ok validated
      → orchestrator.satisfies tool.input_schema validated ≡ true
  unfolding validate_arguments
  validate_arguments-satisfies tool (obj arguments) validated h =
      let (_, h₁) =
        guard-eq-ok (not (ltb max_argument_bytes (byte_length (dumps ", " ": " (obj arguments)))))
          argument_error _ h in
      let (valid, h₂) =
        guard-eq-ok (orchestrator.satisfies tool.input_schema arguments) argument_error _ h₁ in
      let e : arguments ≡ validated = ground arith in rw (← e) valid
  validate_arguments-satisfies tool _ validated h = cc h

  or_unknown-eq-ok : (o : Option BoundTool) (b : BoundTool) → or_unknown o ≡ ok b → o ≡ some b
  or_unknown-eq-ok none b h = cc h
  or_unknown-eq-ok (some x) b h = ground arith

  confirmed_of :
      (r confirmed : Bool) → not (r && not confirmed) ≡ true → r ≡ true → confirmed ≡ true
  confirmed_of true true h e = refl
  confirmed_of true false h e = h
  confirmed_of false confirmed h e = cc e

  check_call-IsGoverned :
      (snapshot : LoadedSnapshot) (name : String) (bound : BoundTool) (arguments : Json)
      (caller : Option CallerIdentity) (confirmed : Bool) (validated : Fields)
      → resolve snapshot name ≡ ok bound
      → check_call orchestrator bound arguments caller confirmed ≡ ok validated
      → IsGoverned orchestrator snapshot caller confirmed
          (record { bound = bound; arguments = validated })
  unfolding check_call authorize discover_in resolve
  check_call-IsGoverned snapshot name bound arguments caller confirmed validated found h =
      let (v, valid, h₁) =
        >>=-eq-ok (validate_arguments orchestrator.satisfies bound.tool arguments) _ h in
      let (allowed, h₂) =
        guard-eq-ok (is_allowed caller bound) (tool_layer role_not_permitted) _ h₁ in
      let (approved, h₃) =
        guard-eq-ok (not (bound.tool.policy.requires_confirmation && not confirmed))
          (tool_layer confirmation_required) _ h₂ in
      let e : v ≡ validated = ground arith in
      let listed =
        lookup-Elem name snapshot.tools_by_name bound
          (or_unknown-eq-ok (lookup name snapshot.tools_by_name) bound found) in
      let (policy, parsed, permitted) =
        (authorize_stored_policy_iff (policy_json bound.tool.policy) caller).0 allowed in
      record {
        discovered = select-Elem (is_allowed caller) (tools_of snapshot) bound listed allowed;
        policy = policy;
        parsed = parsed;
        permitted = permitted;
        valid = rw (← e) (validate_arguments-satisfies bound.tool arguments v valid);
        approved = confirmed_of bound.tool.policy.requires_confirmation confirmed approved;
      }

  pub resolve_call-IsGoverned :
      (snapshot : LoadedSnapshot) (name : String) (arguments : Json)
      (caller : Option CallerIdentity) (confirmed : Bool) (bound : BoundTool) (validated : Fields)
      → resolve_call orchestrator snapshot name arguments caller confirmed ≡ ok (bound, validated)
      → IsGoverned orchestrator snapshot caller confirmed
          (record { bound = bound; arguments = validated })
  unfolding resolve_call
  resolve_call-IsGoverned snapshot name arguments caller confirmed bound validated h =
      let (b, found, h₁) = >>=-eq-ok (resolve snapshot name) _ h in
      let (v, checked, h₂) =
        >>=-eq-ok (check_call orchestrator b arguments caller confirmed) _ h₁ in
      let (same_tool, same_arguments) = ok-pair h₂ in
      rw (← same_tool) (
        rw (← same_arguments)
          (check_call-IsGoverned snapshot name b arguments caller confirmed v found checked))

  pub choose_call-IsGoverned :
      (snapshot : LoadedSnapshot) (text : String) (caller : Option CallerIdentity)
      (confirmed : Bool) (bound : BoundTool) (validated : Fields)
      → choose_call orchestrator snapshot text caller confirmed ≡ ok (bound, validated)
      → IsGoverned orchestrator snapshot caller confirmed
          (record { bound = bound; arguments = validated })
  unfolding choose_call
  choose_call-IsGoverned snapshot text caller confirmed bound validated h =
      let available = discover_in snapshot caller in
      let (_, h₁) = guard-eq-ok (has_tools available) (tool_layer no_tool_selected) _ h in
      let (name, _, h₂) =
        >>=-eq-ok (or_none_selected (orchestrator.select_tool text (map (λ b. b.tool) available))) _
          h₁ in
      let (b, found, h₃) = >>=-eq-ok (resolve snapshot name) _ h₂ in
      let (proposal, _, h₄) =
        >>=-eq-ok (or_incomplete (orchestrator.generate_arguments text b.tool)) _ h₃ in
      let (v, checked, h₅) =
        >>=-eq-ok (check_call orchestrator b (obj proposal) caller confirmed) _ h₄ in
      let (same_tool, same_arguments) = ok-pair h₅ in
      rw (← same_tool) (
        rw (← same_arguments)
          (check_call-IsGoverned snapshot name b (obj proposal) caller confirmed v found checked))
