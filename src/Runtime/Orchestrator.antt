-- ===== src/Runtime/Orchestrator.antt =====
-- orchestrator.py: discovery and governed execution within one snapshot. The executor and the model provider
-- are the objects that the constructor is given; the calls of the executor are written down. The trace has the
-- names of its steps; logging is left out.
pub mod Governed
pub mod Turns
use Prim.Native.String.{count}
use toollayer_ai.Base.{
  strip, ℕ, String, Bool, true, false, not, ◌&&◌, ◌||◌, Option, none, some, List, [], ◌∷◌, ◌++◌,
  map, ltb, ◌==◌, select, if◌then◌else◌,
}
use toollayer_ai.Json.{Json, obj, Fields}
use toollayer_ai.Contracts.Errors.{
  Failure, tool_layer, invalid_request, no_tool_selected, argument_validation_failed,
  role_not_permitted, confirmation_required, Result, ok, err, ◌>>=◌, ◌>>◌, guard,
}
use toollayer_ai.Contracts.CanonicalJson.{◌⧺◌}
use toollayer_ai.Contracts.Models.{ToolDefinition, policy_json}
use toollayer_ai.Policy.Authorization.{CallerIdentity, authorize_stored_policy}
use toollayer_ai.Policy.Arguments.{PreparedRequest, validate_arguments}
use toollayer_ai.Runtime.Snapshot.{
  BoundTool, Index, LoadedSnapshot, SnapshotVerification, Environment, resolve,
}
use toollayer_ai.Runtime.Store.{Network, SnapshotStore, ensure_fresh}

pub record ToolExecutionResult : Type 0 where
  pub http_status : ℕ
  pub content : Json

pub record OrchestrationOutcome : Type 0 where
  pub request_id : String
  pub snapshot_revision : ℕ
  pub snapshot_id : String
  pub selected_tool : String
  pub connector_key : String
  pub connector_version : String
  pub arguments : Fields
  pub result : Option ToolExecutionResult
  pub message : String
  pub trace : List String

-- One call of `executor.execute`.
pub record Call : Type 0 where
  pub bound : BoundTool
  pub arguments : Fields

-- `satisfies` is the validator of JSON Schema. A selection is the name of a tool, and a proposal is `none`
-- where it is not complete.
pub record Orchestrator : Type 0 where
  pub satisfies : Fields → Fields → Bool
  pub execute : BoundTool → Fields → String → Result ToolExecutionResult
  pub prepare : ToolDefinition → Fields → String → Result PreparedRequest
  pub select_tool : String → List ToolDefinition → Option String
  pub generate_arguments : String → ToolDefinition → Option Fields
  pub format_response : String → ToolDefinition → Json → String

-- `snapshot.tools`
abbrev pub tools_of : LoadedSnapshot → List BoundTool
tools_of snapshot = map (λ entry. entry.1) snapshot.tools_by_name

abbrev pub is_allowed : Option CallerIdentity → BoundTool → Bool
is_allowed caller bound = (authorize_stored_policy (policy_json bound.tool.policy) caller).allowed

unfoldable pub discover_in : LoadedSnapshot → Option CallerIdentity → List BoundTool
discover_in snapshot caller = select (is_allowed caller) (tools_of snapshot)

-- `_authorize`
unfoldable pub authorize : BoundTool → Option CallerIdentity → Result (Unit {0})
authorize bound caller = guard (is_allowed caller bound) (tool_layer role_not_permitted)

-- Validation, authorization and confirmation, in the order that both entry points have them.
unfoldable pub check_call :
    Orchestrator → BoundTool → Json → Option CallerIdentity → Bool → Result Fields
check_call orchestrator bound arguments caller confirmed = do
  validated ← validate_arguments orchestrator.satisfies bound.tool arguments
  authorize bound caller
  guard (not (bound.tool.policy.requires_confirmation && not confirmed))
      (tool_layer confirmation_required)
  ok validated

-- What a turn did: the calls of the executor, and what it returned or raised.
abbrev pub Turn : Type 0
Turn = List Call × Result OrchestrationOutcome

abbrev pub outcome_of :
    LoadedSnapshot
    → BoundTool
    → Fields
    → String
    → Option ToolExecutionResult
    → String
    → List String
    → OrchestrationOutcome
outcome_of snapshot bound validated request_id result message trace = record {
  request_id = request_id;
  snapshot_revision = snapshot.snapshot.revision;
  snapshot_id = snapshot.snapshot.snapshot_id;
  selected_tool = bound.tool.tool_name;
  connector_key = bound.connector_key;
  connector_version = bound.connector_version;
  arguments = validated;
  result = result;
  message = message;
  trace = trace;
}

-- The end of a turn: the executor's call and the response.
unfoldable pub run_call :
    Orchestrator
    → LoadedSnapshot
    → BoundTool
    → Fields
    → String
    → String
    → List String
    → Result OrchestrationOutcome
run_call orchestrator snapshot bound validated request_id text trace = do
  result ← orchestrator.execute bound validated request_id
  let message = orchestrator.format_response text bound.tool result.content
  ok (outcome_of snapshot bound validated request_id (some result) message trace)

abbrev execution_trace : List String
execution_trace =
    "snapshot_loaded" ∷ "tool_resolved" ∷ "arguments_validated" ∷ "policy_evaluated" ∷ "executed"
    ∷ []

-- `execute_tool`, once the tool is resolved and the call is checked
unfoldable pub execute_checked :
    Orchestrator → LoadedSnapshot → String → String → Result (BoundTool × Fields) → Turn
execute_checked orchestrator snapshot tool_name request_id (err e) = ([], err e)
execute_checked orchestrator snapshot tool_name request_id (ok (bound, validated)) = (
  record { bound = bound; arguments = validated } ∷ [],
  run_call orchestrator snapshot bound validated request_id tool_name execution_trace,
)

unfoldable pub resolve_call :
    Orchestrator
    → LoadedSnapshot
    → String
    → Json
    → Option CallerIdentity
    → Bool
    → Result (BoundTool × Fields)
resolve_call orchestrator snapshot tool_name arguments caller confirmed = do
  bound ← resolve snapshot tool_name
  validated ← check_call orchestrator bound arguments caller confirmed
  ok (bound, validated)

abbrev pub within :
    Result LoadedSnapshot × SnapshotStore → (LoadedSnapshot → Turn) → Turn × SnapshotStore
within (err e, store) turn = (([], err e), store)
within (ok snapshot, store) turn = (turn snapshot, store)

abbrev pub invalid_utterance : Failure
invalid_utterance = tool_layer invalid_request

-- The utterance, stripped.
unfoldable pub read_utterance : String → Result String
read_utterance utterance = do
  let text = strip utterance
  guard (not (text == "")) invalid_utterance
  guard (not (ltb 4000 (count text))) invalid_utterance
  ok text

abbrev has_tools : List BoundTool → Bool
has_tools [] = false
has_tools (_ ∷ _) = true

abbrev or_none_selected : Option String → Result String
or_none_selected none = err (tool_layer no_tool_selected)
or_none_selected (some name) = ok name

abbrev or_incomplete : Option Fields → Result Fields
or_incomplete none = err (tool_layer argument_validation_failed)
or_incomplete (some arguments) = ok arguments

-- The part of `handle` from discovery to the confirmation.
unfoldable pub choose_call :
    Orchestrator
    → LoadedSnapshot
    → String
    → Option CallerIdentity
    → Bool
    → Result (BoundTool × Fields)
choose_call orchestrator snapshot text caller confirmed = do
  let available = discover_in snapshot caller
  guard (has_tools available) (tool_layer no_tool_selected)
  name ← or_none_selected (orchestrator.select_tool text (map (λ bound. bound.tool) available))
  bound ← resolve snapshot name
  proposal ← or_incomplete (orchestrator.generate_arguments text bound.tool)
  validated ← check_call orchestrator bound (obj proposal) caller confirmed
  ok (bound, validated)

abbrev turn_trace : List String
turn_trace =
    "snapshot_loaded" ∷ "tools_discovered" ∷ "tool_selected" ∷ "arguments_generated"
    ∷ "arguments_validated" ∷ "policy_evaluated" ∷ []

-- The end of `handle` in a dry run.
unfoldable pub dry_run_call :
    Orchestrator → LoadedSnapshot → BoundTool → Fields → String → Result OrchestrationOutcome
dry_run_call orchestrator snapshot bound validated request_id = do
  prepared ← orchestrator.prepare bound.tool validated bound.base_url
  let message = prepared.method ⧺ (" " ⧺ (prepared.url_path ⧺ " (not executed)"))
  ok (outcome_of snapshot bound validated request_id none message (turn_trace ++ "dry_run" ∷ []))

unfoldable pub handle_checked :
    Orchestrator → LoadedSnapshot → String → String → Bool → Result (BoundTool × Fields) → Turn
handle_checked orchestrator snapshot text request_id dry_run (err e) = ([], err e)
handle_checked orchestrator snapshot text request_id true (ok (bound, validated)) =
    ([], dry_run_call orchestrator snapshot bound validated request_id)
handle_checked orchestrator snapshot text request_id false (ok (bound, validated)) = (
  record { bound = bound; arguments = validated } ∷ [],
  run_call orchestrator snapshot bound validated request_id text
      (turn_trace ++ "executed" ∷ "response_formatted" ∷ []),
)

module _ (env : Environment) (verification : SnapshotVerification)
    (orchestrator : Orchestrator) where
  unfoldable pub execute_tool :
      SnapshotStore
      → Network
      → ℕ
      → String
      → Json
      → Option CallerIdentity
      → String
      → Bool
      → Turn × SnapshotStore
  execute_tool store network now tool_name arguments caller request_id confirmed =
      within (ensure_fresh env verification store network now) (λ snapshot.
        execute_checked orchestrator snapshot tool_name request_id
          (resolve_call orchestrator snapshot tool_name arguments caller confirmed))

  abbrev pub after_reading :
      Result String → SnapshotStore → (String → Turn × SnapshotStore) → Turn × SnapshotStore
  after_reading (err e) store turn = (([], err e), store)
  after_reading (ok text) store turn = turn text

  unfoldable pub handle :
      SnapshotStore
      → Network
      → ℕ
      → String
      → Option CallerIdentity
      → String
      → Bool
      → Bool
      → Turn × SnapshotStore
  handle store network now utterance caller request_id confirmed dry_run =
      after_reading (read_utterance utterance) store (λ text.
        within (ensure_fresh env verification store network now) (λ snapshot.
          handle_checked orchestrator snapshot text request_id dry_run
            (choose_call orchestrator snapshot text caller confirmed)))
