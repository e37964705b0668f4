-- ===== src/Connection/Incoming.antt =====
-- The receive loop, `_process_message` and `_handle_response`.
use mathlib.Core.Option.{get_or}
use agent_client_protocol_py.Base.{
  pos, String, Bool, not, Option, none, some, List, [], ◌∷◌, nil, cons, Json, null, bool, num, str,
  arr, obj, is_none, Fields, end, get_field, Result, ok, err, json_value, if◌then◌else◌, negsuc,
  zero, suc, string_eq, ◌==◌,
}
use agent_client_protocol_py.Exceptions.{Exn, request_error, attribute_error, RequestError, minus}
use agent_client_protocol_py.Store.{
  resolve_outgoing, reject_outgoing, reject_all_outgoing, MessageStateStore,
}
use agent_client_protocol_py.Queue.{request, notification, publish, MessageQueue}
use agent_client_protocol_py.Connection.State.{Connection, incoming, notify_observers}

-- A step that may raise, beside the state that it leaves.
abbrev pub Outcome : Type 0
Outcome = Option Exn × Connection

abbrev pub on_store : Result Exn MessageStateStore → Connection → Outcome
on_store (ok store) self = (none, record self { store = store })
on_store (err e) self = (some e, self)

abbrev pub on_queue : Result Exn MessageQueue → Connection → Outcome
on_queue (ok queue) self = (none, record self { queue = queue })
on_queue (err e) self = (some e, self)

-- `message.get("error") or {}`, where it has `get`: a value that is false counts as an empty dict.
unfoldable pub error_fields : Json → Option Fields
error_fields null = some end
error_fields (bool b) = if b then none else some end
error_fields (num (pos zero)) = some end
error_fields (num (pos (suc n))) = none
error_fields (num (negsuc n)) = none
error_fields (str s) = if s == "" then some end else none
error_fields (arr nil) = some end
error_fields (arr (cons x xs)) = none
error_fields (obj fs) = some fs

-- `RequestError(error.get("code", -32603), error.get("message", "Error"), error.get("data"))`
unfoldable pub error_of : Fields → RequestError
error_of error_obj = record {
  code = get_or (get_field "code" error_obj) (num (minus 32603));
  message = get_or (get_field "message" error_obj) (str "Error");
  payload = json_value (get_or (get_field "data" error_obj) null);
}

-- `id` is `message["id"]`.
unfoldable pub handle_response : Json → Fields → Connection → Outcome
unfolding error_fields error_of
handle_response id message self = elim (get_field "result" message) [
  | some result ↦ on_store (resolve_outgoing id result self.store) self
  | none ↦ elim (get_field "error" message) [
    | none ↦ on_store (resolve_outgoing id null self.store) self
    | some error ↦ elim (error_fields error) [
      | none ↦ (some attribute_error, self)
      | some error_obj ↦
          on_store (reject_outgoing id (request_error (error_of error_obj)) self.store) self
    ]
  ]
]

-- `message.get("method") is not None`
abbrev pub has_method : Fields → Bool
has_method message = not (is_none (get_or (get_field "method" message) null))

-- What a message is: a request has a method and an id, a notification a method alone, a response
-- an id alone.
unfoldable pub process_fields : Fields → Connection → Outcome
process_fields message self = elim (get_field "id" message) [
  | some id ↦
      if has_method message
      then on_queue (publish (record { kind = request; message = message }) self.queue) self
      else handle_response id message self
  | none ↦
      if has_method message
      then on_queue (publish (record { kind = notification; message = message }) self.queue) self
      else (none, self)
]

-- `message.get` is there for a dict alone.
unfoldable pub process_message : Json → Connection → Outcome
process_message (obj message) self = process_fields message self
process_message _ self = (some attribute_error, self)

-- `_on_receive_error`, where the task of the loop ends by an exception.
unfoldable pub on_receive_error : Outcome → Outcome
unfolding reject_all_outgoing
on_receive_error (none, self) = (none, self)
on_receive_error (some e, self) = (some e, record self { store = reject_all_outgoing e self.store })

-- `json.loads` is a parameter: `none` where it raises.
module _ (loads : String → Option Json) where
  -- One line: a line that is no JSON is logged and skipped.
  unfoldable pub receive_line : String → Connection → Outcome
  receive_line line self = elim (loads line) [
    | none ↦ (none, self)
    | some message ↦ process_message message (notify_observers incoming message self)
  ]

  -- The loop over what `readline` comes to, up to the end of the stream: a line, or the error that
  -- it raises, such as the `ValueError` for a line over the reader's limit. An exception ends the
  -- loop.
  unfoldable pub receive_loop : List (Result Exn String) → Connection → Outcome
  receive_loop [] self = (none, self)
  receive_loop (err e ∷ reads) self = (some e, self)
  receive_loop (ok line ∷ reads) self =
      let (raised, self') = receive_line line self in
      elim raised [ none ↦ receive_loop reads self' | some e ↦ (some e, self') ]

  -- The task of the loop.
  unfoldable pub receive_task : List (Result Exn String) → Connection → Outcome
  receive_task reads self = on_receive_error (receive_loop reads self)
