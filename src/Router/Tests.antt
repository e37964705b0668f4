-- ===== src/Router/Tests.antt =====
-- The theorems on the router, at a concrete agent.
use agent_client_protocol_py.Base.{
  ◌≡◌, ◌≢◌, refl, string_eq, false, none, some, List, [], ◌∷◌, Json, null, ok, err, texts_differ,
}
use agent_client_protocol_py.Base.Lists.{All, pair}
use agent_client_protocol_py.Exceptions.{request_error, method_not_found}
use agent_client_protocol_py.Router.{no_result, AsyncHandler, Route, call, request, extension_name}
use agent_client_protocol_py.Router.Agent.{Agent, build_agent_router}
use agent_client_protocol_py.Router.Answers.{stable_requests, build_agent_router_refuses}

-- A handler that keeps the parameters of its calls.
abbrev count_call : AsyncHandler (Unit {0}) (List Json)
count_call params w = (ok no_result, params ∷ w)

abbrev agent : Agent (Unit {0}) (List Json)
agent = record { attribute = λ attr. some count_call; ext_method = none; ext_notification = none }

abbrev dump : Unit {0} → Json
dump m = null

abbrev ping : Route (Unit {0}) (List Json)
ping = record {
  method = "ping";
  func = some count_call;
  kind = request;
  optional = false;
  default_result = no_result;
  adapt_result = none;
  warn_unstable = false;
}

ping_plain : extension_name "ping" ≡ none
unfolding extension_name string_eq
ping_plain = refl

fork_plain : extension_name "session/fork" ≡ none
unfolding extension_name string_eq
fork_plain = refl

fork_unstable : All (λ row. "session/fork" ≢ row.method) stable_requests
fork_unstable = pair (texts_differ "session/fork" "initialize" refl) (
    pair (texts_differ "session/fork" "session/new" refl) (
      pair (texts_differ "session/fork" "session/load" refl) (
        pair (texts_differ "session/fork" "session/set_mode" refl) (
          pair (texts_differ "session/fork" "session/prompt" refl)
            (pair (texts_differ "session/fork" "authenticate" refl) tt)))))

build_agent_router_refuses_example :
    call (build_agent_router dump agent false) "session/fork" null request []
    ≡ (err (request_error (method_not_found "session/fork")), [])
build_agent_router_refuses_example =
    build_agent_router_refuses dump agent "session/fork" null [] fork_plain fork_unstable
