-- ===== src/Policy/Executor/Guarded.antt =====
-- What `ToolExecutor.execute` sends, and what a result of it stands for.
use toollayer_ai.Base.{
  ℕ, suc, ◌≤◌, ◌<◌, ◌≡◌, refl, sym, subst, ap, ◌∙◌, ◌⊎◌, inl, inr, String, Option, some, List, [],
  ◌∷◌, All, In, contains, contains→In, length, arith,
}
use toollayer_ai.Json.{ℤ, Json, Fields}
use toollayer_ai.Contracts.Errors.{
  tool_layer, method_not_allowed, Result, ok, err, >>=-eq-ok, guard-eq-ok,
}
use toollayer_ai.Contracts.Models.{ToolDefinition}
use toollayer_ai.Contracts.Signing.{Bytes}
use toollayer_ai.Policy.Arguments.{PreparedRequest, validate_arguments, prepare_request}
use toollayer_ai.Policy.Destinations.{ResolvedDestination, check_method, check}
use toollayer_ai.Policy.Destinations.Allowed.{IsAuthorized, check-IsAuthorized}
use toollayer_ai.Policy.Executor.{
  ToolExecutor, prepare, CallContext, send_prepared, execute, read_response, Headers, Response,
  ToolExecutionResult, Client, httpx_send, decode, Event, answered,
}
use toollayer_ai.Policy.Executor.Streaming.{exchange, IsWhole, httpx_send-IsRead}

send_prepared-All :
    (P : PreparedRequest → Type 0) (executor : ToolExecutor) (tool : ToolDefinition)
    (context : CallContext) (made : Result PreparedRequest)
    → ((request : PreparedRequest) → made ≡ ok request → P request)
    → All P (send_prepared executor tool context made).sent
      × (length (send_prepared executor tool context made).sent ≤ 1)
unfolding send_prepared
send_prepared-All P executor tool context (err failure) all = (tt, omega arith)
send_prepared-All P executor tool context (ok request) all = ((all request refl, tt), omega arith)

module _ (executor : ToolExecutor) (tool : ToolDefinition) (arguments : Json)
    (base_url : String) where
  -- The request is the one that the tool's bindings make of valid arguments, with a method that the policy
  -- allows and to a destination that it authorizes.
  pub record IsGoverned (request : PreparedRequest) : Type 0 where
    pub method_allowed : In (executor.upper tool.operation.method) executor.policy.allowed_methods
    pub validated : Fields
    pub valid : validate_arguments executor.satisfies tool arguments ≡ ok validated
    pub prepared : prepare_request tool validated base_url ≡ ok request
    pub destination : ResolvedDestination
    pub authorized :
        IsAuthorized executor.unicode executor.resolver executor.policy request.url destination

  prepare-IsGoverned :
      (request : PreparedRequest)
      → prepare executor tool arguments base_url ≡ ok request
      → IsGoverned request
  unfolding prepare check_method
  prepare-IsGoverned request h =
      let (allowed, h₁) =
        guard-eq-ok
          (contains executor.policy.allowed_methods (executor.upper tool.operation.method))
          (tool_layer method_not_allowed) _ h in
      let (validated, valid, h₂) =
        >>=-eq-ok (validate_arguments executor.satisfies tool arguments) _ h₁ in
      let (made, prepared, h₃) = >>=-eq-ok (prepare_request tool validated base_url) _ h₂ in
      let (destination, passed, h₄) =
        >>=-eq-ok (check executor.unicode executor.resolver executor.policy made.url) _ h₃ in
      let same : made ≡ request = ground arith in
      record {
        method_allowed =
            contains→In executor.policy.allowed_methods (executor.upper tool.operation.method)
              allowed;
        validated = validated;
        valid = valid;
        prepared = prepared ∙ ap ok same;
        destination = destination;
        authorized =
            check-IsAuthorized executor.unicode executor.resolver executor.policy request.url
              destination
              (subst
                (λ (r : PreparedRequest).
                  check executor.unicode executor.resolver executor.policy r.url ≡ ok destination)
                same passed);
      }

  -- Whatever the arguments, `execute` hands the transport one request at most. It is the one that the tool's
  -- bindings make of arguments which satisfy the tool's schema, its method is allowed, and its destination is
  -- authorized by the policy.
  pub execute-IsGoverned :
      (context : CallContext)
      → All IsGoverned (execute executor tool arguments base_url context).sent
        × (length (execute executor tool arguments base_url context).sent ≤ 1)
  unfolding execute
  execute-IsGoverned context =
      send_prepared-All IsGoverned executor tool context (prepare executor tool arguments base_url)
        prepare-IsGoverned

-- The result is decoded from the whole body of the answer to the only request that was sent.
pub record IsAnswer (executor : ToolExecutor) (client : Client) (sent : List PreparedRequest)
    (result : ToolExecutionResult) : Type 0 where
  pub request : PreparedRequest
  pub only : sent ≡ request ∷ []
  pub headers : Headers
  pub body : ℕ → Event
  pub bytes : Bytes
  pub met : exchange client request ≡ answered result.http_status headers body
  pub whole : IsWhole (suc executor.limits.max_response_bytes) body bytes
  pub no_redirect : (result.http_status < 300) ⊎ (400 ≤ result.http_status)
  pub content : result.content ≡ decode executor bytes headers

read_response_lem :
    (executor : ToolExecutor) (tool : ToolDefinition) (context : CallContext) (response : Response)
    (result : ToolExecutionResult)
    → read_response executor tool context response ≡ ok result
    → (length response.2 ≤ executor.limits.max_response_bytes)
      × (result.http_status ≡ response.0)
      × ((response.0 < 300) ⊎ (400 ≤ response.0))
      × (result.content ≡ decode executor response.2 response.1)
unfolding read_response
read_response_lem executor tool context (status, headers, body) result h = ground arith

send_prepared-IsAnswer :
    (executor : ToolExecutor) (tool : ToolDefinition) (context : CallContext) (fuel : ℕ)
    (read_int : String → Option ℤ) (client : Client) (made : Result PreparedRequest)
    (result : ToolExecutionResult)
    → ((request : PreparedRequest)
        → httpx_send fuel read_int client executor.limits request
          ≡ some (executor.send request executor.limits))
    → (send_prepared executor tool context made).result ≡ ok result
    → IsAnswer executor client (send_prepared executor tool context made).sent result
unfolding send_prepared
send_prepared-IsAnswer executor tool context fuel read_int client (err failure) result over h =
    ground arith
send_prepared-IsAnswer executor tool context fuel read_int client (ok request) result over h =
    let ((status, headers, bytes), sent, read) =
      >>=-eq-ok (executor.send request executor.limits) _ h in
    let facts = read_response_lem executor tool context (status, headers, bytes) result read in
    let (body, met, kept) =
      httpx_send-IsRead fuel read_int client executor.limits request (status, headers, bytes)
        (over request ∙ ap some sent) in
    record {
      request = request;
      only = refl;
      headers = headers;
      body = body;
      bytes = bytes;
      met = met ∙ ap (λ n. answered n headers body) (sym facts.1);
      whole = elim kept [ inl whole ↦ whole | inr cut ↦ absurd (omega (arith, facts.0, cut.2)) ];
      no_redirect = ground (arith, facts.1, facts.2);
      content = facts.3;
    }

-- Over `HttpxTransport`, a result that `execute` returns is decoded from the whole body of the answer to the one
-- request that was sent, a body of at most `max_response_bytes`, never from a part of it; and the answer's status,
-- which is that of the result, is no redirect.
pub execute-IsAnswer :
    (executor : ToolExecutor) (tool : ToolDefinition) (arguments : Json) (base_url : String)
    (context : CallContext) (fuel : ℕ) (read_int : String → Option ℤ) (client : Client)
    (result : ToolExecutionResult)
    → ((request : PreparedRequest)
        → httpx_send fuel read_int client executor.limits request
          ≡ some (executor.send request executor.limits))
    → (execute executor tool arguments base_url context).result ≡ ok result
    → IsAnswer executor client (execute executor tool arguments base_url context).sent result
unfolding execute
execute-IsAnswer executor tool arguments base_url context fuel read_int client result over h =
    send_prepared-IsAnswer executor tool context fuel read_int client
      (prepare executor tool arguments base_url) result over h
