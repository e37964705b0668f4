-- ===== src/Connection/Serve.antt =====
-- A request from its line to its response, through the queue, the dispatcher and a runner.
use mathlib.Core.Option.{get_or}
use agent_client_protocol_py.Base.{
  ◌≡◌, refl, ap, ◌∙◌, suc, String, true, false, Option, none, some, [], ◌∷◌, ◌++◌, Json, null, str,
  obj, Fields, get_field, json_value,
}
use agent_client_protocol_py.Base.Lists.{get_elem?, get_elem?-append_last, length}
use agent_client_protocol_py.Exceptions.{Exn}
use agent_client_protocol_py.Store.{IncomingMessage, pending, begin_incoming}
use agent_client_protocol_py.Queue.{RpcTask, request, publish, anext, task_done}
use agent_client_protocol_py.Connection.State.{Connection, Runner, notify_observers, incoming}
use agent_client_protocol_py.Connection.Incoming.{
  receive_line, process_message, process_fields, has_method,
}
use agent_client_protocol_py.Connection.Run.{HandlerOutcome, dispatch, end_request}
use agent_client_protocol_py.Connection.Respond.{answers, end_request-answers}

abbrev task_of : Fields → RpcTask
task_of message = record { kind = request; message = message }

abbrev runner_of : Fields → Connection → Runner
runner_of message self = record { message = message; entry = length self.store.incoming }

abbrev entry_of : Fields → IncomingMessage
entry_of message = record {
  method = get_or (get_field "method" message) (str "");
  params = get_or (get_field "params" message) null;
  status = pending;
  result = json_value null;
  error = none;
}

-- The connection once the message is in its queue, which was empty.
abbrev queued : Fields → Connection → Connection
queued message self = record (notify_observers incoming (obj message) self) {
  queue = record {
    items = some (task_of message) ∷ [];
    unfinished = suc self.queue.unfinished;
    closed = false;
  };
}

module _ (loads : String → Option Json) (exn_text : Exn → String) (to_str : Json → String) where
  receive_request :
      (line : String) (message : Fields) (id : Json) (self : Connection)
      → loads line ≡ some (obj message)
      → get_field "id" message ≡ some id
      → has_method message ≡ true
      → self.queue.closed ≡ false
      → self.queue.items ≡ []
      → (receive_line loads line self).1 ≡ queued message self
  unfolding receive_line process_message process_fields publish notify_observers
  receive_request line message id self reads named asks opened empty =
      rw (receive_line, reads, process_message, process_fields, named, asks, publish, opened, empty)
        refl

  dispatch-queued :
      (message : Fields) (self : Connection)
      → (get_elem? (dispatch (queued message self)).requests (length self.requests)
          ≡ some (runner_of message self))
        × (get_elem? (dispatch (queued message self)).store.incoming (length self.store.incoming)
            ≡ some (entry_of message))
        × ((dispatch (queued message self)).sent ≡ self.sent)
  unfolding dispatch anext task_done begin_incoming notify_observers
  dispatch-queued message self =
      (get_elem?-append_last self.requests _, get_elem?-append_last self.store.incoming _, refl)

  -- A request that a connection receives with its queue open and empty is dispatched to a runner,
  -- and when the runner's handler ends, the frames of `answers` are sent.
  pub end_request-receive_line :
      (line : String) (message : Fields) (id : Json) (self : Connection) (outcome : HandlerOutcome)
      → loads line ≡ some (obj message)
      → get_field "id" message ≡ some id
      → has_method message ≡ true
      → self.queue.closed ≡ false
      → self.queue.items ≡ []
      → (end_request loads exn_text to_str
          (length self.requests)
          outcome
          (dispatch (receive_line loads line self).1)).sent
        ≡ self.sent ++ answers loads exn_text to_str message outcome
  end_request-receive_line line message id self outcome reads named asks opened empty =
      let (at, entry, same) = dispatch-queued message self in
      let (sends, _, _) =
        end_request-answers loads exn_text to_str (length self.requests) (runner_of message self)
          outcome (dispatch (queued message self)) (entry_of message) at entry in
      rw (receive_request line message id self reads named asks opened empty)
        (sends ∙ ap (λ fs. fs ++ answers loads exn_text to_str message outcome) same)
