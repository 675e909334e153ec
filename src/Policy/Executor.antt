-- ===== src/Policy/Executor.antt =====
-- executor.py: the governed HTTP call. A call takes a tool's arguments to the requests that were handed to the
-- transport and the result. Timeouts belong to httpx, and so do connections: `Client` is what a request of
-- it meets. `loads` reads JSON from bytes, and `decode_replace` reads a text, as the standard library does.
pub mod Streaming
pub mod Guarded
use Prim.Native.Char.{code}
use Prim.Native.String
use Prim.Native.String.{count}
use toollayer_ai.Base.{
  ℕ, zero, suc, ◌+◌, ◌-◌, String, Bool, true, false, not, ◌&&◌, ◌||◌, Option, none, some, List, [],
  ◌∷◌, ◌++◌, ltb, leb, ◌==◌, strip, length, if◌then◌else◌,
}
use toollayer_ai.Json.{ℤ, pos, negsuc, Json, null, str, obj, field, end, Fields}
use toollayer_ai.Contracts.Errors.{
  Failure, tool_layer, value_error, redirect_not_allowed, response_too_large, upstream_timeout,
  Result, ok, err, ◌>>=◌, ◌>>◌, guard,
}
use toollayer_ai.Contracts.Signing.{Bytes}
use toollayer_ai.Contracts.Models.{ToolDefinition}
use toollayer_ai.Policy.Address.{partition}
use toollayer_ai.Policy.Url.{Unicode}
use toollayer_ai.Policy.Arguments.{PreparedRequest, validate_arguments, prepare_request}
use toollayer_ai.Policy.Destinations.{
  Resolver, DestinationPolicy, ResolvedDestination, unavailable, check_method, check,
}

-- `ExecutionLimits`, less the timeouts
pub record ExecutionLimits : Type 0 where
  pub max_response_bytes : ℕ

-- `ExecutionLimits.__post_init__`
unfoldable pub make_limits : ℕ → Result ExecutionLimits
make_limits maximum = do
  guard (ltb 0 maximum && leb maximum 16777216) value_error
  ok (record { max_response_bytes = maximum })

abbrev pub Headers : Type 0
Headers = List (String × String)

-- One reading of a streamed body: a chunk, its end, `httpx.TimeoutException`, or another `httpx.HTTPError`.
pub data Event : Type 0 where
  chunk : Bytes → Event
  finished timed_out broken : Event

-- What a request meets: a response with its stream of readings, or an exception before there is one.
pub data Exchange : Type 0 where
  answered : ℕ → Headers → (ℕ → Event) → Exchange
  unanswered unreachable : Exchange

abbrev pub Response : Type 0
Response = ℕ × Headers × Bytes

abbrev too_large : Failure
too_large = tool_layer response_too_large

unfoldable pub take_bytes : ℕ → Bytes → Bytes
take_bytes zero bytes = []
take_bytes (suc n) [] = []
take_bytes (suc n) (byte ∷ bytes) = byte ∷ take_bytes n bytes

-- The loop over `iter_bytes` from reading `i` on, within `fuel` readings; `none` is a loop that goes on.
unfoldable pub read_body : ℕ → ℕ → ℕ → (ℕ → Event) → Bytes → Option (Result Bytes)
unfolding take_bytes
read_body zero i ceiling body collected = none
read_body (suc fuel) i ceiling body collected = elim (body i) [
  | chunk bytes ↦
      let rest = read_body fuel (suc i) ceiling body (collected ++ bytes) in
      if leb ceiling (length (collected ++ bytes))
      then some (ok (take_bytes ceiling (collected ++ bytes)))
      else rest
  | finished ↦ some (ok collected)
  | timed_out ↦ some (err (tool_layer upstream_timeout))
  | broken ↦ some (err unavailable)
]

unfoldable pub header : String → Headers → Option String
header name [] = none
header name ((key, value) ∷ headers) = if key == name then some value else header name headers

abbrev exceeds : Option ℤ → ℕ → Bool
exceeds (some (pos n)) maximum = ltb maximum n
exceeds _ maximum = false

-- `int(raw)` is a parameter of what follows; `none` is its `ValueError`.
abbrev exceeds_text : (String → Option ℤ) → Option String → ℕ → Bool
exceeds_text read_int none maximum = false
exceeds_text read_int (some raw) maximum = exceeds (read_int raw) maximum

-- `_declared_length_exceeds`
unfoldable pub declared_length_exceeds : (String → Option ℤ) → Headers → ℕ → Bool
unfolding header
declared_length_exceeds read_int headers maximum =
    exceeds_text read_int (header "content-length" headers) maximum

abbrev with_status : ℕ → Headers → Option (Result Bytes) → Option (Result Response)
with_status status headers none = none
with_status status headers (some (err failure)) = some (err failure)
with_status status headers (some (ok bytes)) = some (ok (status, headers, bytes))

-- `headers.setdefault("user-agent", ...)`
abbrev with_agent : Headers → Headers
with_agent headers = elim (header "user-agent" headers) [
  | none ↦ headers ++ (("user-agent", "toollayer-runtime/0.1") ∷ [])
  | some value ↦ headers
]

abbrev pub Client : Type 0
Client = PreparedRequest → Exchange

-- The `with` block of `HttpxTransport.send` on what the request meets; `fuel` bounds the readings.
unfoldable pub receive :
    ℕ → (String → Option ℤ) → ExecutionLimits → Exchange → Option (Result Response)
unfolding declared_length_exceeds
receive fuel read_int limits (answered status headers body) =
    let read = read_body fuel 0 (suc limits.max_response_bytes) body [] in
    if declared_length_exceeds read_int headers limits.max_response_bytes
    then some (err too_large)
    else with_status status headers read
receive fuel read_int limits unanswered = some (err (tool_layer upstream_timeout))
receive fuel read_int limits unreachable = some (err unavailable)

-- `HttpxTransport.send`
unfoldable pub httpx_send :
    ℕ → (String → Option ℤ) → Client → ExecutionLimits → PreparedRequest → Option (Result Response)
unfolding header
httpx_send fuel read_int client limits request =
    receive fuel read_int limits (client (record request { headers = with_agent request.headers }))

-- `ToolExecutor`; `upper` is `str.upper`.
pub record ToolExecutor : Type 0 where
  pub unicode : Unicode
  pub upper : String → String
  pub satisfies : Fields → Fields → Bool
  pub loads : Bytes → Option Json
  pub decode_replace : Bytes → String
  pub policy : DestinationPolicy
  pub limits : ExecutionLimits
  pub send : PreparedRequest → ExecutionLimits → Result Response
  pub resolver : Resolver

-- `ToolExecutor.prepare`
unfoldable pub prepare : ToolExecutor → ToolDefinition → Json → String → Result PreparedRequest
prepare executor tool arguments base_url = do
  check_method executor.upper executor.policy tool.operation.method
  validated ← validate_arguments executor.satisfies tool arguments
  request ← prepare_request tool validated base_url
  destination ← check executor.unicode executor.resolver executor.policy request.url
  ok request

-- `text.endswith("json")`
unfoldable pub ends_with_json : String → Bool
ends_with_json String.[] = false
ends_with_json (String.◌∷◌ c s) = String.◌∷◌ c s == "json" || ends_with_json s

-- `text[:n]`
unfoldable pub take_text : ℕ → String → String
take_text zero s = ""
take_text (suc n) String.[] = ""
take_text (suc n) (String.◌∷◌ c s) = String.◌∷◌ c (take_text n s)

abbrev max_response_preview : ℕ
max_response_preview = 4096

abbrev header_or_empty : Option String → String
header_or_empty none = ""
header_or_empty (some value) = value

-- `_decode`; reading a text with `errors="replace"` does not fail.
unfoldable pub decode : ToolExecutor → Bytes → Headers → Json
unfolding header ends_with_json take_text
decode executor [] headers = null
decode executor (byte ∷ bytes) headers =
    let body = byte ∷ bytes in
    let declared = (partition b';' (header_or_empty (header "content-type" headers))).0 in
    let content_type = executor.unicode.lower (strip declared) in
    let preview = obj (
      field "content_type" (str (if content_type == "" then "unknown" else content_type))
        (field "text" (str (take_text max_response_preview (executor.decode_replace body))) end)) in
    let parsed : Json = elim (executor.loads body) [ some value ↦ value | none ↦ preview ] in
    if ends_with_json content_type then parsed else preview

pub record ToolExecutionResult : Type 0 where
  pub tool_name : String
  pub connector_key : String
  pub connector_version : String
  pub status : String
  pub http_status : ℕ
  pub duration_ms : ℕ
  pub content : Json
  pub request_id : Option String

-- What the caller of `execute` says of the connector, with the time that the call took.
pub record CallContext : Type 0 where
  pub connector_key : String
  pub connector_version : String
  pub request_id : Option String
  pub duration_ms : ℕ

-- `max_length=64` of `ToolExecutionResult.request_id`
abbrev fits : Option String → Bool
fits none = true
fits (some text) = leb (count text) 64

-- The statements of `execute` after `send`. `ToolExecutionResult` bounds the status and the length of the request's
-- id; its other fields come from a tool and a connector that were validated.
unfoldable pub read_response :
    ToolExecutor → ToolDefinition → CallContext → Response → Result ToolExecutionResult
read_response executor tool context (status, headers, body) = do
  guard (not (leb 300 status && ltb status 400)) (tool_layer redirect_not_allowed)
  guard (not (ltb executor.limits.max_response_bytes (length body))) too_large
  guard (leb 100 status && leb status 599 && fits context.request_id) value_error
  ok (record {
    tool_name = tool.tool_name;
    connector_key = context.connector_key;
    connector_version = context.connector_version;
    status = if ltb status 400 then "succeeded" else "upstream_error";
    http_status = status;
    duration_ms = context.duration_ms;
    content = decode executor body headers;
    request_id = context.request_id;
  })

-- The requests that were handed to the transport, and what `execute` returned or raised.
pub record Execution : Type 0 where
  pub sent : List PreparedRequest
  pub result : Result ToolExecutionResult

-- The statements of `execute` after `prepare`.
unfoldable pub send_prepared :
    ToolExecutor → ToolDefinition → CallContext → Result PreparedRequest → Execution
send_prepared executor tool context (err failure) = record { sent = []; result = err failure }
send_prepared executor tool context (ok request) = record {
  sent = request ∷ [];
  result = executor.send request executor.limits >>= read_response executor tool context;
}

-- `ToolExecutor.execute`
unfoldable pub execute : ToolExecutor → ToolDefinition → Json → String → CallContext → Execution
execute executor tool arguments base_url context =
    send_prepared executor tool context (prepare executor tool arguments base_url)
