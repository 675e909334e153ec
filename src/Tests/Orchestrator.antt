-- ===== src/Tests/Orchestrator.antt =====
-- The theorems on the turns of the orchestrator, at the restricted tool of the signed snapshot.
use toollayer_ai.Base.{true, false, Option, some, none, [], ◌∷◌}
use toollayer_ai.Json.{null, obj, end}
use toollayer_ai.Contracts.Errors.{ok}
use toollayer_ai.Policy.Authorization.{CallerIdentity}
use toollayer_ai.Runtime.Store.Reach.{refreshed, Reach, start, next}
use toollayer_ai.Runtime.Orchestrator.{Orchestrator, execute_tool, handle}
use toollayer_ai.Runtime.Orchestrator.Turns.{IsTurn, execute_tool-IsTurn, handle-IsTurn}
use toollayer_ai.Tests.World.{environment, verification}
use toollayer_ai.Tests.Runtime.{serving, down, full_store, first_refresh}

abbrev orchestrator : Orchestrator
orchestrator = record {
  satisfies = λ schema arguments. true;
  execute = λ bound arguments request_id. ok (record { http_status = 200; content = null });
  prepare = λ tool arguments base_url. ok (record {
    method = "GET";
    url = base_url;
    url_path = "/";
    query_pairs = [];
    headers = [];
    body_text = none;
    content_type = none;
  });
  select_tool = λ text tools. some "get_order";
  generate_arguments = λ text tool. some end;
  format_response = λ text tool content. "done";
}

abbrev agent : Option CallerIdentity
agent = some (record { subject = "ada"; roles = "agent" ∷ [] })

fetched : Reach environment verification full_store
fetched = next (start 30) (refreshed serving 5 first_refresh)

execute_tool-IsTurn_example :
    IsTurn environment verification orchestrator agent false
      (execute_tool environment verification orchestrator full_store down 9 "get_order"
        (obj end)
        agent
        "r1"
        false).0
execute_tool-IsTurn_example =
    execute_tool-IsTurn environment verification orchestrator full_store down 9 "get_order"
      (obj end) agent "r1" false fetched

handle-IsTurn_example :
    IsTurn environment verification orchestrator agent false
      (handle environment verification orchestrator full_store down 9 "order 7" agent "r1" false
        false).0
handle-IsTurn_example =
    handle-IsTurn environment verification orchestrator full_store down 9 "order 7" agent "r1" false
      false fetched
