-- ===== src/Peers/Responses.antt =====
-- What a response says of its request's handler, and how the asker's future ends.
use agent_client_protocol_py.Base.{
  ◌≡◌, ◌∙◌, refl, ℕ, pos, String, true, false, Option, none, some, List, [], ◌∷◌, ◌++◌, Json, num,
  str, obj, Fields, end, field, get_field, json_value, opaque, ok, string_eq, ap, Value,
}
use agent_client_protocol_py.Base.Lists.{get_elem?, length}
use agent_client_protocol_py.Exceptions.{Exn, RequestError, request_error, to_error_obj}
use agent_client_protocol_py.Store.{Future, resolved, rejected}
use agent_client_protocol_py.Schema.{Params, in_bounds}
use agent_client_protocol_py.Connection.{
  Connection, new_connection, HandlerOutcome, returned, raised, end_request, dispatch, receive_line,
  has_method, request_fields, error_fields, error_of,
}
use agent_client_protocol_py.Connection.Receive.{verdict}
use agent_client_protocol_py.Connection.Respond.{answers, error_answers, error_for}
use agent_client_protocol_py.Connection.Serve.{end_request-receive_line}
use agent_client_protocol_py.Connection.Reach.{Reach}
use agent_client_protocol_py.Connection.Closing.{send_request-receive_line}
use agent_client_protocol_py.Peers.Asks.{Ask, ask, ask-sends, frame_of}

pub request_fields_lem :
    (id : ℕ) (method : String) (params : Json)
    → (get_field "id" (request_fields id method params) ≡ some (num (pos id)))
      × (has_method (request_fields id method params) ≡ true)
unfolding get_field
request_fields_lem id method params = (refl, refl)

module _ (loads : String → Option Json) (exn_text : Exn → String) (to_str : Json → String) where
  -- An error as a response carries it: the message is a text.
  abbrev pub reported : RequestError → RequestError
  reported error = record error { message = str (to_str error.message) }

  abbrev pub error_arrives : RequestError → Option Future
  error_arrives error = elim error.payload [
    | json_value d ↦ some (rejected (request_error (reported error)))
    | opaque ↦ none
  ]

  -- What a response says of the outcome of the handler, and how the asker's future ends; there is
  -- no response with a value, or with an error's data, that JSON cannot write.
  abbrev pub arrives : HandlerOutcome → Option Future
  arrives (returned (json_value value)) = some (resolved value)
  arrives (returned opaque) = none
  arrives (raised exc) = error_arrives (error_for loads exn_text to_str exc)

  abbrev error_said : RequestError → Fields
  error_said error = elim (to_error_obj to_str error) [
    | json_value reply ↦ field "error" reply end
    | opaque ↦ end
  ]

  abbrev said : HandlerOutcome → Fields
  said (returned (json_value value)) = field "result" value end
  said (returned opaque) = end
  said (raised exc) = error_said (error_for loads exn_text to_str exc)

  abbrev pub response_to : ℕ → HandlerOutcome → Fields
  response_to id outcome = field "jsonrpc" (str "2.0") (field "id" (num (pos id)) (said outcome))

  abbrev error_to : ℕ → RequestError → Fields
  error_to id error = field "jsonrpc" (str "2.0") (field "id" (num (pos id)) (error_said error))

  no_method : (id : ℕ) (error : RequestError) → has_method (error_to id error) ≡ false
  unfolding get_field to_error_obj
  no_method id error = go error.code error.message error.payload
    where
      go :
          (code text : Json) (v : Value)
          → has_method (error_to id (record { code = code; message = text; payload = v })) ≡ false
      go code text (json_value d) = refl
      go code text opaque = refl

  error_reply :
      (id : ℕ) (method : String) (params code text : Json) (v : Value) (value : Future)
      → error_arrives (record { code = code; message = text; payload = v }) ≡ some value
      → (verdict (error_to id (record { code = code; message = text; payload = v })) ≡ some value)
        × (error_answers loads exn_text to_str
              (request_fields id method params)
              (record { code = code; message = text; payload = v })
            ≡ obj (error_to id (record { code = code; message = text; payload = v })) ∷ [])
  unfolding get_field to_error_obj error_fields error_of
  error_reply id method params code text (json_value d) value h = (h, refl)
  error_reply id method params code text opaque value h = cc

  pub response_to_lem :
      (id : ℕ) (method : String) (params : Json) (outcome : HandlerOutcome) (value : Future)
      → arrives outcome ≡ some value
      → (get_field "id" (response_to id outcome) ≡ some (num (pos id)))
        × (has_method (response_to id outcome) ≡ false)
        × (verdict (response_to id outcome) ≡ some value)
        × (answers loads exn_text to_str (request_fields id method params) outcome
            ≡ obj (response_to id outcome) ∷ [])
  unfolding get_field to_error_obj error_fields error_of
  response_to_lem id method params (returned (json_value v)) value h = (refl, refl, h, refl)
  response_to_lem id method params (returned opaque) value h = cc
  response_to_lem id method params (raised exc) value h =
      let error = error_for loads exn_text to_str exc in
      let (says, one) =
        error_reply id method params error.code error.message error.payload value h in
      (refl, no_method id error, says, one)

  -- An ask, its run at a peer, and its response.
  pub ask-end_request :
      (observers : List ℕ) (serialize_params : Params → Fields) (errors : Params → Value) (q : Ask)
      (s peer : Connection) (outcome : HandlerOutcome) (value : Future) (asking line : String)
      → Reach loads exn_text to_str (new_connection observers) s
      → in_bounds q.params ≡ true
      → loads asking ≡ some (obj (frame_of serialize_params errors q s))
      → peer.queue.closed ≡ false
      → peer.queue.items ≡ []
      → arrives outcome ≡ some value
      → loads line ≡ some (obj (response_to s.next_request_id outcome))
      → (f : ℕ) × (t : Connection) × (ask serialize_params errors q s
          ≡ ok (record { future = f; reading = q.reading; response_model = q.response_model }, t))
        × (t.sent ≡ s.sent ++ (obj (frame_of serialize_params errors q s) ∷ []))
        × ((end_request loads exn_text to_str
              (length peer.requests)
              outcome
              (dispatch (receive_line loads asking peer).1)).sent
            ≡ peer.sent ++ (obj (response_to s.next_request_id outcome) ∷ []))
        × (get_elem? (receive_line loads line t).1.store.futures f ≡ some value)
  ask-end_request observers serialize_params errors q s peer outcome value asking line reached
        bounded asked opened empty says reads =
      let (f, t, sends, asks, frames) = ask-sends serialize_params errors q s bounded in
      let (named, other, states, frame) =
        response_to_lem s.next_request_id q.method (obj (serialize_params q.params)) outcome value
          says in
      let (_, _, _, settles) =
        send_request-receive_line loads exn_text to_str observers q.method
          (obj (serialize_params q.params)) f s t line (response_to s.next_request_id outcome) value
          reached sends reads named other states in
      let (numbered, calls) =
        request_fields_lem s.next_request_id q.method (obj (serialize_params q.params)) in
      let sent =
        end_request-receive_line loads exn_text to_str asking (frame_of serialize_params errors q s)
          (num (pos s.next_request_id)) peer outcome asked numbered calls opened empty in
      (f, t, asks, frames, sent ∙ ap (λ fs. peer.sent ++ fs) frame, settles)
