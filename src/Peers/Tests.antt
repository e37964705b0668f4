-- ===== src/Peers/Tests.antt =====
-- The theorems on the two sides, at concrete calls.
use agent_client_protocol_py.Base.{
  ◌≡◌, refl, ℕ, pos, ◌≤◌, ◌<◌, ◌⊎◌, String, string_eq, true, false, Option, none, some, [], ◌∷◌,
  ◌++◌, ◌==◌, if◌then◌else◌, Json, null, str, obj, Fields, end, field, Result, ok, err, json_value,
  Value,
}
use agent_client_protocol_py.Base.Lists.{get_elem?, length}
use agent_client_protocol_py.Exceptions.{Exn, validation_error}
use agent_client_protocol_py.Store.{resolved}
use agent_client_protocol_py.Schema.{Params, in_bounds, SessionUpdate, current_mode_update}
use agent_client_protocol_py.Connection.{
  Connection, new_connection, returned, end_request, dispatch, receive_line, HandlerOutcome,
}
use agent_client_protocol_py.Connection.Reach.{here}
use agent_client_protocol_py.Utils.{Awaiting, ResponseModel, await_response}
use agent_client_protocol_py.Router.{no_result, AsyncHandler, request}
use agent_client_protocol_py.Router.Agent.{Agent, build_agent_router}
use agent_client_protocol_py.Router.Answers.{answer}
use agent_client_protocol_py.Router.Client.{build_client_router, client_answer}
use agent_client_protocol_py.Peers.{handler_call}
use agent_client_protocol_py.Peers.ClientSide
use agent_client_protocol_py.Peers.ClientAsks.{
  AgentCall, fork_session, set_session_mode, served_as, params_of, perform, ask_of,
}
use agent_client_protocol_py.Peers.AgentAsks.{
  ClientCall, read_text_file, served_by, consult, consult-answer,
}
use agent_client_protocol_py.Peers.AgentAsks
use agent_client_protocol_py.Peers.Asks.{frame_of}
use agent_client_protocol_py.Peers.Delivery.{perform-answer, initialize-bounds}
use agent_client_protocol_py.Peers.Answered.{received, perform-received}
use agent_client_protocol_py.Peers.Responses.{response_to}

-- A handler that keeps the parameters of its calls.
abbrev keep_params : AsyncHandler (Unit {0}) (Fields × Fields)
keep_params params w = (ok no_result, w)

abbrev other_side : Agent (Unit {0}) (Fields × Fields)
other_side = record {
  attribute = λ attr. some keep_params;
  ext_method = none;
  ext_notification = none;
}

abbrev dump : Unit {0} → Json
dump m = null

abbrev serialize_params : Params → Fields
serialize_params params = field "sessionId" (str "s1") end

abbrev errors : Params → Value
errors params = json_value (str "out of bounds")

abbrev idle : Connection
idle = new_connection []

abbrev world : Fields × Fields
world = (end, end)

abbrev fork : AgentCall
fork = fork_session "/tmp" "s1" none end

fork_bounded : in_bounds (params_of fork) ≡ true
unfolding in_bounds
fork_bounded = refl

perform-answer_example :
    (a : Awaiting) × (t : Connection) × (message : Fields) × (perform serialize_params errors fork
        idle
      ≡ ok (a, t))
    × (t.sent ≡ idle.sent ++ (obj message ∷ []))
    × (handler_call (build_agent_router dump other_side true) message request world
        ≡ some (
            answer dump other_side
              (served_as fork)
              (obj (serialize_params (params_of fork)))
              world))
perform-answer_example =
    perform-answer dump other_side serialize_params errors fork true idle world fork_bounded refl

initialize-bounds_example :
    let r = ClientSide.initialize serialize_params errors (pos 70000) none none end idle in
    ((n : ℕ) × (pos 70000 ≡ pos n)
      × (n ≤ 65535)
      × (a : Awaiting) × (t : Connection) × (r ≡ ok (a, t)))
    ⊎ (((n : ℕ) → pos 70000 ≡ pos n → 65535 < n) × (e : Value) × (r ≡ err (validation_error e)))
initialize-bounds_example = initialize-bounds serialize_params errors (pos 70000) none none end idle

abbrev reading : ClientCall
reading = read_text_file "/tmp/a" "s1" (some (pos 10)) none end

reading_bounded : in_bounds (AgentAsks.params_of reading) ≡ true
unfolding in_bounds
reading_bounded = refl

consult-answer_example :
    (a : Awaiting) × (t : Connection) × (message : Fields) × (consult serialize_params errors
        reading idle
      ≡ ok (a, t))
    × (t.sent ≡ idle.sent ++ (obj message ∷ []))
    × (handler_call (build_client_router dump other_side false) message request world
        ≡ some (
            client_answer dump other_side
              (served_by reading)
              (obj (serialize_params (AgentAsks.params_of reading)))
              world))
consult-answer_example =
    consult-answer dump other_side serialize_params errors reading false idle world reading_bounded

abbrev mode : AgentCall
mode = set_session_mode "plan" "s1" end

mode_bounded : in_bounds (params_of mode) ≡ true
unfolding in_bounds
mode_bounded = refl

abbrev exn_text : Exn → String
exn_text e = "failed"

abbrev to_str : Json → String
to_str value = "text"

abbrev silent : String → Option Json
silent line = none

abbrev outcome : HandlerOutcome
outcome = returned (json_value null)

-- A parser that knows two lines.
abbrev loads : String → Option Json
loads line =
    if line == "ask"
    then some (obj (frame_of serialize_params errors (ask_of mode) idle))
    else if line == "done"
    then some (obj (response_to silent exn_text to_str 0 outcome))
    else none

reads_ask : loads "ask" ≡ some (obj (frame_of serialize_params errors (ask_of mode) idle))
unfolding string_eq
reads_ask = refl

reads_done : loads "done" ≡ some (obj (response_to loads exn_text to_str 0 outcome))
unfolding string_eq
reads_done = refl

abbrev model_validate : ResponseModel → Json → Result Exn Json
model_validate model payload = ok payload

perform-received_example :
    (a : Awaiting) × (t : Connection) × (perform serialize_params errors mode idle ≡ ok (a, t))
    × (t.sent ≡ idle.sent ++ (obj (frame_of serialize_params errors (ask_of mode) idle) ∷ []))
    × ((end_request loads exn_text to_str
          (length idle.requests)
          outcome
          (dispatch (receive_line loads "ask" idle).1)).sent
        ≡ idle.sent ++ (obj (response_to loads exn_text to_str 0 outcome) ∷ []))
    × (get_elem? (receive_line loads "done" t).1.store.futures a.future ≡ some (resolved null))
    × (await_response model_validate a (resolved null)
        ≡ received loads exn_text to_str model_validate mode outcome)
perform-received_example =
    perform-received loads exn_text to_str [] serialize_params errors model_validate mode idle idle
      outcome (resolved null) "ask" "done" here mode_bounded reads_ask refl refl refl reads_done

abbrev update : SessionUpdate
update = current_mode_update (record { field_meta = none; current_mode_id = "plan" })
