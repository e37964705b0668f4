-- ===== src/Connection/Respond.antt =====
-- What the peer and the store learn of a request whose handler ends.
use mathlib.Core.List.{append-nil}
use mathlib.Core.Option.{get_or}
use agent_client_protocol_py.Base.{
  ◌≡◌, refl, sym, subst, ◌∙◌, ℕ, String, Option, some, List, [], ◌∷◌, ◌++◌, Json, null, str, obj,
  Fields, end, field, get_field, Value, map_value, json_value, opaque, Result, ok, err, arith,
}
use agent_client_protocol_py.Base.Lists.{get_elem?, get_elem?-set_self, drop_at}
use agent_client_protocol_py.Exceptions.{
  Exn, request_error, validation_error, connection_error, type_error, attribute_error,
  runtime_error, other_error, RequestError, to_error_obj, invalid_params, internal_error,
}
use agent_client_protocol_py.Store.{IncomingMessage, completed, failed, change_at}
use agent_client_protocol_py.Connection.State.{Connection, Runner, send, dumps, notify_observers}
use agent_client_protocol_py.Connection.Run.{
  HandlerOutcome, returned, raised, run_request, finish_request, end_request, finish_with,
  send_error, response_payload,
}

abbrev response : Fields → Fields → Json
response message verdict =
    obj (field "jsonrpc" (str "2.0") (field "id" (get_or (get_field "id" message) null) verdict))

change_at_found :
    (i : ℕ) (f : IncomingMessage → IncomingMessage) (ms : List IncomingMessage)
    (m : IncomingMessage)
    → get_elem? ms i ≡ some m
    → get_elem? (change_at i f ms) i ≡ some (f m)
change_at_found i f ms m e = rw (change_at, e) (get_elem?-set_self ms i e)

abbrev pub close_by : Result Exn Value → IncomingMessage → IncomingMessage
close_by (ok value) m = record m { status = completed; result = value }
close_by (err e) m = record m { status = failed; error = some e }

finish_with_found :
    (entry : ℕ) (result : Result Exn Value) (c : Connection) (m : IncomingMessage)
    → get_elem? c.store.incoming entry ≡ some m
    → ((finish_with entry (result, c)).sent ≡ c.sent)
      × ((finish_with entry (result, c)).requests ≡ c.requests)
      × (get_elem? (finish_with entry (result, c)).store.incoming entry ≡ some (close_by result m))
unfolding finish_with
finish_with_found entry (ok value) c m e =
    (refl, refl, change_at_found entry _ c.store.incoming m e)
finish_with_found entry (err exc) c m e = (refl, refl, change_at_found entry _ c.store.incoming m e)

module _ (loads : String → Option Json) (exn_text : Exn → String) (to_str : Json → String) where
  -- The JSON-RPC error that an exception is reported as.
  abbrev pub error_for : Exn → RequestError
  error_for (request_error error) = error
  error_for (validation_error errors) =
      invalid_params (map_value (λ e. obj (field "errors" e end)) errors)
  error_for exc =
      internal_error (
        json_value (get_or (loads (exn_text exc)) (obj (field "details" (str (exn_text exc)) end))))

  -- The frames that answer a request: one, with a result or an error, and none for a handler that
  -- returns a value, or raises an error with data, that `json.dumps` refuses.
  abbrev pub error_answers : Fields → RequestError → List Json
  error_answers message error = elim (to_error_obj to_str error) [
    | json_value reply ↦ response message (field "error" reply end) ∷ []
    | opaque ↦ []
  ]

  abbrev pub answers : Fields → HandlerOutcome → List Json
  answers message (returned (json_value value)) = response message (field "result" value end) ∷ []
  answers message (returned opaque) = []
  answers message (raised exc) = error_answers message (error_for exc)

  -- What the runner gets: the value, or the error, or what `json.dumps` raises.
  abbrev error_result : RequestError → Result Exn Value
  error_result error = elim (to_error_obj to_str error) [
    | json_value reply ↦ err (request_error error)
    | opaque ↦ err type_error
  ]

  abbrev pub outcome_result : HandlerOutcome → Result Exn Value
  outcome_result (returned (json_value value)) = ok (json_value value)
  outcome_result (returned opaque) = err type_error
  outcome_result (raised exc) = error_result (error_for exc)

  abbrev Reports : Fields → RequestError → Connection → Type 0
  Reports message error self =
      ((send_error loads exn_text to_str (response_payload message) error self).0
        ≡ error_result error)
      × ((send_error loads exn_text to_str (response_payload message) error self).1.sent
          ≡ self.sent ++ error_answers message error)
      × ((send_error loads exn_text to_str (response_payload message) error self).1.store
          ≡ self.store)
      × ((send_error loads exn_text to_str (response_payload message) error self).1.requests
          ≡ self.requests)
      × ((send_error loads exn_text to_str (response_payload message) error self).1.next_request_id
          ≡ self.next_request_id)

  send_error_parts :
      (message : Fields) (code text : Json) (value : Value) (self : Connection)
      → Reports message (record { code = code; message = text; payload = value }) self
  unfolding send_error send notify_observers dumps to_error_obj
  send_error_parts message code text (json_value value) self = (refl, refl, refl, refl, refl)
  send_error_parts message code text opaque self =
      (refl, sym (append-nil self.sent), refl, refl, refl)

  send_error_lem :
      (message : Fields) (error : RequestError) (self : Connection) → Reports message error self
  send_error_lem message error self =
      send_error_parts message error.code error.message error.payload self

  pub run_request_lem :
      (message : Fields) (outcome : HandlerOutcome) (self : Connection)
      → ((run_request loads exn_text to_str message outcome self).0 ≡ outcome_result outcome)
        × ((run_request loads exn_text to_str message outcome self).1.sent
            ≡ self.sent ++ answers message outcome)
        × ((run_request loads exn_text to_str message outcome self).1.store ≡ self.store)
        × ((run_request loads exn_text to_str message outcome self).1.requests ≡ self.requests)
        × ((run_request loads exn_text to_str message outcome self).1.next_request_id
            ≡ self.next_request_id)
  unfolding run_request send notify_observers dumps
  run_request_lem message (returned (json_value value)) self = (refl, refl, refl, refl, refl)
  run_request_lem message (returned opaque) self =
      (refl, sym (append-nil self.sent), refl, refl, refl)
  run_request_lem message (raised (request_error error)) self = send_error_lem message error self
  run_request_lem message (raised (validation_error errors)) self =
      send_error_lem message (error_for (validation_error errors)) self
  run_request_lem message (raised (connection_error text)) self =
      send_error_lem message (error_for (connection_error text)) self
  run_request_lem message (raised type_error) self =
      send_error_lem message (error_for type_error) self
  run_request_lem message (raised attribute_error) self =
      send_error_lem message (error_for attribute_error) self
  run_request_lem message (raised (runtime_error text)) self =
      send_error_lem message (error_for (runtime_error text)) self
  run_request_lem message (raised (other_error text)) self =
      send_error_lem message (error_for (other_error text)) self

  finish_request_lem :
      (runner : Runner) (outcome : HandlerOutcome) (self : Connection) (m : IncomingMessage)
      → get_elem? self.store.incoming runner.entry ≡ some m
      → ((finish_request loads exn_text to_str runner outcome self).sent
          ≡ self.sent ++ answers runner.message outcome)
        × ((finish_request loads exn_text to_str runner outcome self).requests ≡ self.requests)
        × (get_elem?
              (finish_request loads exn_text to_str runner outcome self).store.incoming
              runner.entry
            ≡ some (close_by (outcome_result outcome) m))
  unfolding finish_request
  finish_request_lem runner outcome self m found =
      let (result, there, same, others, _) = run_request_lem runner.message outcome self in
      let (r, c) = run_request loads exn_text to_str runner.message outcome self in
      let (sends, keeps, records) = finish_with_found runner.entry r c m (rw same found) in
      (
        sends ∙ there,
        keeps ∙ others,
        subst
            (λ r.
              get_elem? (finish_request loads exn_text to_str runner outcome self).store.incoming
                runner.entry
              ≡ some (close_by r m))
            result records,
      )

  pub end_request_eq :
      (i : ℕ) (runner : Runner) (outcome : HandlerOutcome) (self : Connection)
      → get_elem? self.requests i ≡ some runner
      → end_request loads exn_text to_str i outcome self
        ≡ finish_request loads exn_text to_str runner outcome
            (record self { requests = drop_at i self.requests })
  end_request_eq i runner outcome self under_way = unfold end_request in ground (arith, under_way)

  -- When the handler of a request under way ends, with a value or an exception, the peer gets
  -- exactly the frames of `answers`, after all earlier ones: one response with the id of the
  -- request and the result or the error of the handler, or none if the value, or the data of the
  -- error, is none that JSON can write. The runner is gone and the record of the request is completed or failed accordingly.
  pub end_request-answers :
      (i : ℕ) (runner : Runner) (outcome : HandlerOutcome) (self : Connection) (m : IncomingMessage)
      → get_elem? self.requests i ≡ some runner
      → get_elem? self.store.incoming runner.entry ≡ some m
      → ((end_request loads exn_text to_str i outcome self).sent
          ≡ self.sent ++ answers runner.message outcome)
        × ((end_request loads exn_text to_str i outcome self).requests ≡ drop_at i self.requests)
        × (get_elem? (end_request loads exn_text to_str i outcome self).store.incoming runner.entry
            ≡ some (close_by (outcome_result outcome) m))
  end_request-answers i runner outcome self m under_way found =
      rw (end_request_eq i runner outcome self under_way) (
        finish_request_lem runner outcome (record self { requests = drop_at i self.requests }) m
          found)
