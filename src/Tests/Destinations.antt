-- ===== src/Tests/Destinations.antt =====
-- The theorems on destinations and executor, at a policy of one origin and a client that answers in two chunks.
use toollayer_ai.Base.{
  ◌≡◌, refl, inl, inr, ℕ, zero, suc, ◌+◌, ◌<◌, ◌≤◌, Bool, true, false, String, Option, none, some,
  List, [], ◌∷◌, All, length, ◌↔◌, arith,
}
use toollayer_ai.Json.{ℤ, Json, null, str, Fields, end, field, obj}
use toollayer_ai.Contracts.Errors.{Result, ok}
use toollayer_ai.Contracts.Signing.{Bytes}
use toollayer_ai.Contracts.Models.{read, path, ToolDefinition}
use toollayer_ai.Policy.Address.{Address, ip_address}
use toollayer_ai.Policy.Address.Networks.{unmapped}
use toollayer_ai.Policy.Url.{Unicode}
use toollayer_ai.Policy.Arguments.{PreparedRequest, validate_arguments, prepare_request}
use toollayer_ai.Policy.Destinations.{
  Resolver, DestinationPolicy, ResolvedDestination, default_allowed_methods, from_origins,
  check_address, check_method, check,
}
use toollayer_ai.Policy.Destinations.Addresses.{Permitted, check_address_iff}
use toollayer_ai.Policy.Destinations.Allowed.{
  NormalOf, IsAuthorized, check-IsAuthorized, from_origins-check,
}
use toollayer_ai.Policy.Executor.{
  chunk, finished, answered, ExecutionLimits, Event, Headers, Exchange, Response, Client,
  httpx_send, ToolExecutor, ToolExecutionResult, CallContext, prepare, read_response, send_prepared,
  execute,
}
use toollayer_ai.Policy.Executor.Streaming.{httpx_send_total}
use toollayer_ai.Policy.Executor.Guarded.{
  IsGoverned, IsAnswer, execute-IsGoverned, execute-IsAnswer,
}

abbrev unicode : Unicode
unicode = record { nfkc = λ s. s; lower = λ s. s }

abbrev resolver : Resolver
resolver host number = ok ("93.184.216.34" ∷ [])

abbrev policy : DestinationPolicy
policy = record {
  allowed_origins = "https://orders.example:443" ∷ [];
  allowed_methods = default_allowed_methods;
  allow_plaintext_http = false;
  allow_loopback = false;
  allow_private_addresses = false;
}

abbrev url : String
url = "https://orders.example/orders/a%2Fb"

abbrev destination : ResolvedDestination
destination = record {
  origin = "https://orders.example:443";
  scheme = "https";
  host = "orders.example";
  port_number = 443;
  addresses = "93.184.216.34" ∷ [];
}

built : from_origins unicode ("orders.example" ∷ []) none false false false ≡ ok policy
unfolding toollayer_ai.Policy.Url.rpartition toollayer_ai.Policy.Url.urlsplit
    toollayer_ai.Policy.Url.hostname toollayer_ai.Policy.Url.port
    toollayer_ai.Policy.Url.has_userinfo toollayer_ai.Policy.Address.ip_address
    toollayer_ai.Policy.Destinations.split_authority
    toollayer_ai.Policy.Destinations.normalize_origin toollayer_ai.Policy.Destinations.normalize_all
    toollayer_ai.Policy.Destinations.from_origins toollayer_ai.Base.contains toollayer_ai.Base.show
    toollayer_ai.Policy.UrlText.occurs
built = refl

checked : check unicode resolver policy url ≡ ok destination
unfolding toollayer_ai.Policy.Url.rpartition toollayer_ai.Policy.Url.urlsplit
    toollayer_ai.Policy.Url.hostname toollayer_ai.Policy.Url.port
    toollayer_ai.Policy.Url.has_userinfo toollayer_ai.Policy.Address.parse_octet
    toollayer_ai.Policy.Address.parse_v4 toollayer_ai.Policy.Address.ip_address
    toollayer_ai.Policy.Address.Networks.unmapped toollayer_ai.Policy.Address.Networks.is_loopback
    toollayer_ai.Policy.Address.Networks.is_multicast
    toollayer_ai.Policy.Address.Networks.is_unspecified
    toollayer_ai.Policy.Address.Networks.is_link_local
    toollayer_ai.Policy.Address.Networks.is_reserved toollayer_ai.Policy.Address.Networks.is_global
    toollayer_ai.Policy.Destinations.split_authority toollayer_ai.Policy.Destinations.check_parsed
    toollayer_ai.Policy.Destinations.check_address toollayer_ai.Policy.Destinations.check_addresses
    toollayer_ai.Policy.Destinations.resolved_addresses toollayer_ai.Policy.Destinations.check
    toollayer_ai.Base.contains toollayer_ai.Base.show
checked = refl

check-IsAuthorized_example : IsAuthorized unicode resolver policy url destination
check-IsAuthorized_example = check-IsAuthorized unicode resolver policy url destination checked

from_origins-check_example : NormalOf unicode ("orders.example" ∷ []) destination.origin
from_origins-check_example =
    from_origins-check unicode resolver ("orders.example" ∷ []) none false false false policy url
      destination built checked

-- The address of a metadata service, mapped into IPv6.
check_address_iff_example : (check_address policy "::ffff:169.254.169.254" ≡ ok tt) ↔ (
    (a : Address) × (ip_address "::ffff:169.254.169.254" ≡ some a) × Permitted policy (unmapped a))
check_address_iff_example = check_address_iff policy "::ffff:169.254.169.254"

abbrev tool : ToolDefinition
tool = record {
  tool_name = "get_order";
  description = "Read one order.";
  input_schema = end;
  operation = record {
    method = "GET";
    path_template = "/orders/{id}";
    bindings = record { argument_pointer = "/id"; target = path; target_name = "id" } ∷ [];
    request_body_media_type = none;
  };
  policy = record {
    effect_class = read;
    requires_confirmation = false;
    access = record { access_mode = "public"; allowed_roles = [] };
  };
}

abbrev body : ℕ → Event
body zero = chunk (7 ∷ 8 ∷ [])
body (suc zero) = chunk (9 ∷ [])
body (suc (suc n)) = finished

abbrev headers : Headers
headers = ("content-type", "application/json; charset=utf-8") ∷ []

abbrev client : Client
client request = answered 200 headers body

abbrev limits : ExecutionLimits
limits = record { max_response_bytes = 16 }

abbrev executor : ToolExecutor
executor = record {
  unicode = unicode;
  upper = λ s. s;
  satisfies = λ schema value. true;
  loads = λ bytes. some (str "shipped");
  decode_replace = λ bytes. "";
  policy = policy;
  limits = limits;
  send = λ request limits. ok (200, headers, 7 ∷ 8 ∷ 9 ∷ []);
  resolver = resolver;
}

abbrev values : Fields
values = field "id" (str "a/b") end

abbrev arguments : Json
arguments = obj values

abbrev context : CallContext
context = record {
  connector_key = "orders";
  connector_version = "1.0.0";
  request_id = none;
  duration_ms = 12;
}

abbrev result : ToolExecutionResult
result = record {
  tool_name = "get_order";
  connector_key = "orders";
  connector_version = "1.0.0";
  status = "succeeded";
  http_status = 200;
  duration_ms = 12;
  content = str "shipped";
  request_id = none;
}

abbrev no_integers : String → Option ℤ
no_integers text = none

over_httpx :
    (request : PreparedRequest)
    → httpx_send 18 no_integers client limits request ≡ some (executor.send request limits)
unfolding toollayer_ai.Policy.Executor.make_limits toollayer_ai.Policy.Executor.take_bytes
    toollayer_ai.Policy.Executor.read_body toollayer_ai.Policy.Executor.header
    toollayer_ai.Policy.Executor.declared_length_exceeds toollayer_ai.Policy.Executor.receive
    toollayer_ai.Policy.Executor.httpx_send toollayer_ai.Policy.Executor.prepare
    toollayer_ai.Policy.Executor.ends_with_json toollayer_ai.Policy.Executor.take_text
    toollayer_ai.Policy.Executor.decode toollayer_ai.Policy.Executor.read_response
    toollayer_ai.Policy.Executor.send_prepared toollayer_ai.Policy.Executor.execute
over_httpx request = refl

abbrev request : PreparedRequest
request = record {
  method = "GET";
  url = url;
  url_path = "/orders/a%2Fb";
  query_pairs = [];
  headers = ("accept", "application/json") ∷ [];
  body_text = none;
  content_type = none;
}

constructed : prepare_request tool values "https://orders.example" ≡ ok request
unfolding prepare_request toollayer_ai.Policy.Arguments.finish
    toollayer_ai.Policy.Arguments.place_all toollayer_ai.Policy.Arguments.place
    toollayer_ai.Policy.Arguments.scalar toollayer_ai.Policy.Arguments.header_value
    toollayer_ai.Policy.Arguments.read_pointer toollayer_ai.Policy.Arguments.read_tokens
    toollayer_ai.Policy.Arguments.tokens toollayer_ai.Policy.UrlText.replace_from
    toollayer_ai.Policy.UrlText.occurs toollayer_ai.Policy.UrlText.split_slash
    toollayer_ai.Policy.UrlText.strip_slashes toollayer_ai.Policy.UrlText.quote
    toollayer_ai.Policy.UrlText.percent toollayer_ai.Json.find
constructed = refl

validated : validate_arguments executor.satisfies tool arguments ≡ ok values
unfolding validate_arguments toollayer_ai.Policy.Arguments.byte_length
    toollayer_ai.Policy.Arguments.dumps toollayer_ai.Contracts.CanonicalJson.quoted
    toollayer_ai.Contracts.CanonicalJson.escape
validated = refl

method_allowed : check_method executor.upper policy "GET" ≡ ok tt
unfolding check_method toollayer_ai.Base.contains
method_allowed = refl

prepared : prepare executor tool arguments "https://orders.example" ≡ ok request
unfolding prepare
prepared = rw (method_allowed, validated, constructed, checked) refl

received : read_response executor tool context (200, headers, 7 ∷ 8 ∷ 9 ∷ []) ≡ ok result
unfolding read_response toollayer_ai.Policy.Executor.decode toollayer_ai.Policy.Executor.header
    toollayer_ai.Policy.Executor.ends_with_json toollayer_ai.Policy.Address.partition
    toollayer_ai.Base.strip
received = refl

executed : (execute executor tool arguments "https://orders.example" context).result ≡ ok result
unfolding execute send_prepared
executed = rw prepared received

execute-IsGoverned_example :
    All
      (IsGoverned executor tool arguments "https://orders.example")
      (execute executor tool arguments "https://orders.example" context).sent
    × (length (execute executor tool arguments "https://orders.example" context).sent ≤ 1)
execute-IsGoverned_example =
    execute-IsGoverned executor tool arguments "https://orders.example" context

execute-IsAnswer_example :
    IsAnswer executor client
      (execute executor tool arguments "https://orders.example" context).sent
      result
execute-IsAnswer_example =
    execute-IsAnswer executor tool arguments "https://orders.example" context 18 no_integers client
      result over_httpx executed

full : (n : ℕ) (more : Bytes) → body n ≡ chunk more → 0 < length more
full zero more e = ground arith
full (suc zero) more e = ground arith
full (suc (suc n)) more e = ground arith

httpx_send_total_example :
    (result : Result Response) × (httpx_send 18 no_integers client limits request ≡ some result)
httpx_send_total_example = httpx_send_total no_integers client limits request full
