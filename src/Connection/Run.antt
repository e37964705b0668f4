-- ===== src/Connection/Run.antt =====
-- `_run_request`, the dispatcher's loop and its runners, and `close`.
use mathlib.Core.Option.{get_or}
use agent_client_protocol_py.Base.{
  ℕ, String, true, Option, none, some, [], ◌∷◌, ◌++◌, Value, json_value, map_value, Json, null, str,
  obj, Fields, end, field, get_field, Result, ok, err, if◌then◌else◌,
}
use agent_client_protocol_py.Base.Lists.{get_elem?, drop_at}
use agent_client_protocol_py.Exceptions.{
  Exn, request_error, validation_error, connection_error, RequestError, invalid_params,
  internal_error, to_error_obj,
}
use agent_client_protocol_py.Store.{
  begin_incoming, complete_incoming, fail_incoming, reject_all_outgoing,
}
use agent_client_protocol_py.Queue.{
  RpcTaskKind, request, notification, Next, waits, item, stop_iteration, anext, task_done,
}
use agent_client_protocol_py.Queue
use agent_client_protocol_py.Connection.State.{Connection, Runner, Payload, send}

-- How the handler ends. A pydantic model that it returns is given by its dump.
pub data HandlerOutcome : Type 0 where
  returned : Value → HandlerOutcome
  raised : Exn → HandlerOutcome

abbrev pub response_payload : Fields → Payload
response_payload message = record {
  fields = field "jsonrpc" (str "2.0") (field "id" (get_or (get_field "id" message) null) end);
  result = none;
  error = none;
}

-- The record of a request is completed or failed by the result of its run.
unfoldable pub finish_with : ℕ → Result Exn Value × Connection → Connection
unfolding complete_incoming fail_incoming
finish_with entry (ok value, self) = record self {
  store = complete_incoming entry value self.store;
}
finish_with entry (err e, self) = record self { store = fail_incoming entry e self.store }

-- `json.loads`, `str(exc)` of an exception and `str` of a message that is no text are parameters.
module _ (loads : String → Option Json) (exn_text : Exn → String) (to_str : Json → String) where
  -- The error goes out, and is raised to the runner; if `json.dumps` refuses the error's data, then
  -- nothing goes out and the runner gets what `send` raises.
  unfoldable pub send_error : Payload → RequestError → Connection → Result Exn Value × Connection
  unfolding send to_error_obj
  send_error payload error self =
      elim (send (record payload { error = some (to_error_obj to_str error) }) self) [
        | err e ↦ (err e, self)
        | ok c ↦ (err (request_error error), c)
      ]

  -- `except Exception as exc`: the payload may hold a result already.
  unfoldable pub send_internal_error : Payload → Exn → Connection → Result Exn Value × Connection
  unfolding send_error internal_error
  send_internal_error payload exc self =
      let details = obj (field "details" (str (exn_text exc)) end) in
      send_error payload (internal_error (json_value (get_or (loads (exn_text exc)) details))) self

  unfoldable pub run_request : Fields → HandlerOutcome → Connection → Result Exn Value × Connection
  unfolding send send_error send_internal_error invalid_params
  run_request message (returned value) self =
      let payload = record (response_payload message) { result = some value } in
      elim (send payload self) [ ok c ↦ (ok value, c) | err e ↦ send_internal_error payload e self ]
  run_request message (raised (request_error error)) self =
      send_error (response_payload message) error self
  run_request message (raised (validation_error errors)) self =
      send_error (response_payload message)
        (invalid_params (map_value (λ e. obj (field "errors" e end)) errors)) self
  run_request message (raised exc) self = send_internal_error (response_payload message) exc self

  -- The dispatcher's runner of a request.
  unfoldable pub finish_request : Runner → HandlerOutcome → Connection → Connection
  finish_request runner outcome self =
      finish_with runner.entry (run_request runner.message outcome self)

  -- The i-th runner's handler ends, and the runner with it.
  unfoldable pub end_request : ℕ → HandlerOutcome → Connection → Connection
  unfolding finish_request
  end_request i outcome self = elim (get_elem? self.requests i) [
    | none ↦ self
    | some runner ↦
        finish_request runner outcome (record self { requests = drop_at i self.requests })
  ]

-- `_run_notification` sends nothing, and suppresses what the handler raises.
unfoldable pub end_notification : ℕ → HandlerOutcome → Connection → Connection
end_notification i outcome self = record self { notifications = drop_at i self.notifications }

abbrev pub start_runner : RpcTaskKind → Fields → Connection → Connection
start_runner request message self =
    let method = get_or (get_field "method" message) (str "") in
    let params = get_or (get_field "params" message) null in
    let (entry, store) = begin_incoming method params self.store in
    record self {
      store = store;
      requests = self.requests ++ (record { message = message; entry = entry } ∷ []);
    }
start_runner notification message self = record self {
  notifications = self.notifications ++ (message ∷ []);
}

-- One round of the dispatcher's loop; it waits on an empty queue, and ends at the end mark.
unfoldable pub dispatch : Connection → Connection
unfolding anext begin_incoming task_done
dispatch self = elim (anext self.queue) [
  | waits ↦ self
  | stop_iteration queue ↦ record self { queue = queue }
  | item task queue ↦ start_runner task.kind task.message (record self { queue = task_done queue })
]

-- `close` up to the wait for the dispatcher.
unfoldable pub begin_close : Connection → Connection
unfolding Queue.close
begin_close self =
    if self.closed then self else record self { closed = true; queue = Queue.close self.queue }

-- The rest of `close`, once the dispatcher has drained the queue: the runners are cancelled, and
-- every request under way is rejected.
unfoldable pub finish_close : Connection → Connection
unfolding reject_all_outgoing
finish_close self = record self {
  requests = [];
  notifications = [];
  store = reject_all_outgoing (connection_error "Connection closed") self.store;
}
