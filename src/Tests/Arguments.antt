-- ===== src/Tests/Arguments.antt =====
-- The theorems on the requests that arguments become, at a tool with a path and a header binding and at
-- arguments that try to change the path.
use toollayer_ai.Base.{
  ◌≡◌, refl, ◌++◌, ℕ, eqb, not, Bool, true, false, ◌||◌, inl, inr, String, none, List, [], ◌∷◌, All,
  arith,
}
use toollayer_ai.Json.{Json, str, Fields, end, field}
use toollayer_ai.Contracts.Errors.{ok}
use toollayer_ai.Contracts.Models.{read, path, header, ArgumentBinding, ToolDefinition}
use toollayer_ai.Policy.UrlText.{all_chars, is_unreserved}
use toollayer_ai.Policy.Arguments.{read_pointer, PreparedRequest, protocol_headers, prepare_request}
use toollayer_ai.Policy.Arguments.Declared.{Agree, prepare_request-Agree}
use toollayer_ai.Policy.Arguments.Headers.{IsDeclared, prepare_request-IsDeclared}
use toollayer_ai.Policy.Arguments.Containment.{Encoded, prepare_request-all_chars}

abbrev bindings : List ArgumentBinding
bindings =
    record { argument_pointer = "/id"; target = path; target_name = "id" }
    ∷ record { argument_pointer = "/trace"; target = header; target_name = "x-trace" }
    ∷ []

abbrev order_tool : ToolDefinition
order_tool = record {
  tool_name = "get_order";
  description = "Read one order.";
  input_schema = end;
  operation = record {
    method = "GET";
    path_template = "/orders/{id}";
    bindings = bindings;
    request_body_media_type = none;
  };
  policy = record {
    effect_class = read;
    requires_confirmation = false;
    access = record { access_mode = "public"; allowed_roles = [] };
  };
}

abbrev arguments : Fields
arguments = field "id" (str "a/b?c") (field "trace" (str "t1") end)

abbrev more_arguments : Fields
more_arguments = field "admin" (str "yes") (field "id" (str "a/b?c") (field "trace" (str "t1") end))

abbrev request : PreparedRequest
request = record {
  method = "GET";
  url = "https://orders.example/orders/a%2Fb%3Fc";
  url_path = "/orders/a%2Fb%3Fc";
  query_pairs = [];
  headers = ("accept", "application/json") ∷ ("x-trace", "t1") ∷ [];
  body_text = none;
  content_type = none;
}

prepared : prepare_request order_tool arguments "https://orders.example/" ≡ ok request
unfolding prepare_request toollayer_ai.Policy.Arguments.finish
    toollayer_ai.Policy.Arguments.place_all toollayer_ai.Policy.Arguments.place
    toollayer_ai.Policy.Arguments.scalar toollayer_ai.Policy.Arguments.header_value
    toollayer_ai.Policy.Arguments.read_pointer toollayer_ai.Policy.Arguments.read_tokens
    toollayer_ai.Policy.Arguments.tokens toollayer_ai.Policy.UrlText.replace_from
    toollayer_ai.Policy.UrlText.occurs toollayer_ai.Policy.UrlText.split_slash
    toollayer_ai.Policy.UrlText.strip_slashes toollayer_ai.Policy.UrlText.quote
    toollayer_ai.Policy.UrlText.percent toollayer_ai.Json.find
prepared = refl

same_values : Agree bindings arguments more_arguments
unfolding toollayer_ai.Policy.Arguments.read_pointer toollayer_ai.Policy.Arguments.read_tokens
    toollayer_ai.Policy.Arguments.tokens toollayer_ai.Policy.UrlText.split_slash
    toollayer_ai.Policy.UrlText.replace_from toollayer_ai.Json.find
same_values binding (inl e) = rw (← e) refl
same_values binding (inr (inl e)) = rw (← e) refl
same_values binding (inr (inr i)) = elim i [ ]

prepare_request-Agree_example :
    prepare_request order_tool arguments "https://orders.example/"
    ≡ prepare_request order_tool more_arguments "https://orders.example/"
prepare_request-Agree_example =
    prepare_request-Agree order_tool arguments more_arguments "https://orders.example/" same_values

prepare_request-IsDeclared_example :
    (headers : List (String × String)) × (request.headers
      ≡ protocol_headers request.content_type ++ headers)
    × All (IsDeclared order_tool.operation.bindings) headers
prepare_request-IsDeclared_example =
    prepare_request-IsDeclared order_tool arguments "https://orders.example/" request prepared

-- No "?" and no "#".
abbrev plain : ℕ → Bool
plain c = not (eqb c b'?' || eqb c b'#')

plain_encoded : Encoded plain
plain_encoded = (λ c h. ground arith, refl)

template_plain : all_chars plain order_tool.operation.path_template ≡ true
unfolding all_chars
template_plain = refl

prepare_request-all_chars_example : all_chars plain request.url_path ≡ true
prepare_request-all_chars_example =
    prepare_request-all_chars plain order_tool arguments "https://orders.example/" request
      plain_encoded template_plain prepared
