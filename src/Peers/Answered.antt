-- ===== src/Peers/Answered.antt =====
-- A request from the call of its method to what the caller gets, through the other side.
use mathlib.Core.Option.{some-injective}
use agent_client_protocol_py.Base.{
  ◌≡◌, subst, ◌∙◌, refl, ℕ, String, Bool, true, false, Option, none, some, List, [], ◌∷◌, ◌++◌,
  Json, obj, Fields, json_value, opaque, Result, ok, err, ◌>>=◌, if◌then◌else◌, string_eq, Value,
}
use agent_client_protocol_py.Base.Lists.{get_elem?, length}
use agent_client_protocol_py.Exceptions.{Exn, RequestError, request_error}
use agent_client_protocol_py.Store.{Future, resolved}
use agent_client_protocol_py.Schema.{Params, in_bounds}
use agent_client_protocol_py.Connection.{
  Connection, new_connection, HandlerOutcome, returned, raised, end_request, dispatch, receive_line,
}
use agent_client_protocol_py.Connection.Respond.{error_for}
use agent_client_protocol_py.Connection.Reach.{Reach}
use agent_client_protocol_py.Router.{ensure_dict}
use agent_client_protocol_py.Utils.{
  Awaiting, Awaiting, ResponseModel, await_response, validate_model, validate_model_from_dict,
}
use agent_client_protocol_py.Peers.Asks.{frame_of}
use agent_client_protocol_py.Peers.ClientAsks.{
  AgentCall, load_session, list_sessions, set_session_mode, set_session_model, authenticate,
  initialize, new_session, prompt, fork_session, resume_session, params_of, ask_of, perform,
  perform-ask, model_of,
}
use agent_client_protocol_py.Peers.Responses.{
  reported, error_arrives, arrives, response_to, ask-end_request,
}

abbrev awaiting : AgentCall → ℕ → Awaiting
awaiting c f = record {
  future = f;
  reading = (ask_of c).reading;
  response_model = (ask_of c).response_model;
}

module _ (loads : String → Option Json) (exn_text : Exn → String) (to_str : Json → String) where
  -- Whether a result that is no object is read as an empty one.
  abbrev is_lenient : AgentCall → Bool
  is_lenient (load_session _ _ _ _) = true
  is_lenient (list_sessions _ _ _) = true
  is_lenient (set_session_mode _ _ _) = true
  is_lenient (set_session_model _ _ _) = true
  is_lenient (authenticate _ _) = true
  is_lenient _ = false

  abbrev error_result : {R : Type 0} → RequestError → Option (Result Exn (Option R))
  error_result error = elim error.payload [
    | json_value d ↦ some (err (request_error (reported loads exn_text to_str error)))
    | opaque ↦ none
  ]

  -- What the caller gets for the outcome of the agent's handler.
  abbrev pub received :
      {R : Type 0}
      → (ResponseModel → Json → Result Exn R)
      → AgentCall
      → HandlerOutcome
      → Option (Result Exn (Option R))
  received model_validate c (returned (json_value v)) = some (
      model_validate (model_of c) (if is_lenient c then obj (ensure_dict v) else v) >>= λ r.
      ok (some r))
  received model_validate c (returned opaque) = none
  received model_validate c (raised exc) = error_result (error_for loads exn_text to_str exc)

  read-received :
      {R : Type 0} (model_validate : ResponseModel → Json → Result Exn R) (c : AgentCall) (f : ℕ)
      (v : Json)
      → await_response model_validate (awaiting c f) (resolved v)
        ≡ received model_validate c (returned (json_value v))
  unfolding await_response validate_model validate_model_from_dict
  read-received model_validate (initialize _ _ _ _) f v = refl
  read-received model_validate (new_session _ _ _) f v = refl
  read-received model_validate (load_session _ _ _ _) f v = refl
  read-received model_validate (list_sessions _ _ _) f v = refl
  read-received model_validate (set_session_mode _ _ _) f v = refl
  read-received model_validate (set_session_model _ _ _) f v = refl
  read-received model_validate (authenticate _ _) f v = refl
  read-received model_validate (prompt _ _ _) f v = refl
  read-received model_validate (fork_session _ _ _ _) f v = refl
  read-received model_validate (resume_session _ _ _ _) f v = refl

  error_received :
      {R : Type 0} (model_validate : ResponseModel → Json → Result Exn R) (c : AgentCall) (f : ℕ)
      (code text : Json) (v : Value) (value : Future)
      → error_arrives loads exn_text to_str (record { code = code; message = text; payload = v })
        ≡ some value
      → await_response model_validate (awaiting c f) value
        ≡ error_result (record { code = code; message = text; payload = v })
  unfolding await_response
  error_received {R = R} model_validate c f code text (json_value d) value h =
      subst
        (λ o.
          await_response model_validate (awaiting c f) o
          ≡ error_result {R = R} (record { code = code; message = text; payload = json_value d }))
        (some-injective _ _ h) refl
  error_received model_validate c f code text opaque value h = cc

  await_response-received :
      {R : Type 0} (model_validate : ResponseModel → Json → Result Exn R) (c : AgentCall) (f : ℕ)
      (outcome : HandlerOutcome) (value : Future)
      → arrives loads exn_text to_str outcome ≡ some value
      → await_response model_validate (awaiting c f) value ≡ received model_validate c outcome
  unfolding await_response
  await_response-received model_validate c f (returned (json_value v)) value h =
      subst
        (λ o.
          await_response model_validate (awaiting c f) o
          ≡ received model_validate c (returned (json_value v)))
        (some-injective _ _ h) (read-received model_validate c f v)
  await_response-received model_validate c f (returned opaque) value h = cc
  await_response-received model_validate c f (raised exc) value h =
      let error = error_for loads exn_text to_str exc in
      error_received model_validate c f error.code error.message error.payload value h

  -- A request method of the client's side, called with numbers in bounds at a connection that steps
  -- have led to, sends one frame. A peer that reads the frame's line with its queue open and empty
  -- dispatches it to a runner; however the runner's handler ends, unless with a value or an error's
  -- data that JSON cannot write, the peer sends one response. And once the line with this response is received
  -- next, the caller gets the handler's result as validated by the method's response class, where
  -- five methods read a result that is no object as an empty one, or the handler's error with its
  -- code, its message as a text and its data.
  pub perform-received :
      {R : Type 0} (observers : List ℕ) (serialize_params : Params → Fields)
      (errors : Params → Value) (model_validate : ResponseModel → Json → Result Exn R)
      (c : AgentCall) (s peer : Connection) (outcome : HandlerOutcome) (value : Future)
      (asking line : String)
      → Reach loads exn_text to_str (new_connection observers) s
      → in_bounds (params_of c) ≡ true
      → loads asking ≡ some (obj (frame_of serialize_params errors (ask_of c) s))
      → peer.queue.closed ≡ false
      → peer.queue.items ≡ []
      → arrives loads exn_text to_str outcome ≡ some value
      → loads line ≡ some (obj (response_to loads exn_text to_str s.next_request_id outcome))
      → (a : Awaiting) × (t : Connection) × (perform serialize_params errors c s ≡ ok (a, t))
        × (t.sent ≡ s.sent ++ (obj (frame_of serialize_params errors (ask_of c) s) ∷ []))
        × ((end_request loads exn_text to_str
              (length peer.requests)
              outcome
              (dispatch (receive_line loads asking peer).1)).sent
            ≡ peer.sent ++ (obj (response_to loads exn_text to_str s.next_request_id outcome) ∷ []))
        × (get_elem? (receive_line loads line t).1.store.futures a.future ≡ some value)
        × (await_response model_validate a value ≡ received model_validate c outcome)
  perform-received observers serialize_params errors model_validate c s peer outcome value asking
        line reached bounded asked opened empty says reads =
      let (f, t, asks, frames, answered, settles) =
        ask-end_request loads exn_text to_str observers serialize_params errors (ask_of c) s peer
          outcome value asking line reached bounded asked opened empty says reads in
      (
        _,
        t,
        perform-ask serialize_params errors c s ∙ asks,
        frames,
        answered,
        settles,
        await_response-received model_validate c f outcome value says,
      )
