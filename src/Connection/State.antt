-- ===== src/Connection/State.antt =====
-- The connection's state, and what it sends.
use agent_client_protocol_py.Base.{
  ℕ, ◌+◌, pos, String, Bool, false, Option, none, some, List, [], ◌∷◌, ◌++◌, map, Json, num, str,
  obj, Fields, end, field, Result, ok, err, Value, json_value, opaque,
}
use agent_client_protocol_py.Exceptions.{Exn, type_error}
use agent_client_protocol_py.Store.{MessageStateStore, new_store, register_outgoing}
use agent_client_protocol_py.Queue.{MessageQueue, new_queue}

pub data StreamDirection : Type 0 where
  incoming outgoing : StreamDirection

pub record StreamEvent : Type 0 where
  pub direction : StreamDirection
  pub message : Json

-- A request whose runner is a task: its message and its record in the store.
pub record Runner : Type 0 where
  pub message : Fields
  pub entry : ℕ

-- `sent` holds the frames that the sender got, in order; `observers` are known by number, and
-- `observed` holds their calls. `requests` and `notifications` are the runners under way.
pub record Connection : Type 0 where
  pub next_request_id : ℕ
  pub store : MessageStateStore
  pub queue : MessageQueue
  pub closed : Bool
  pub sent : List Json
  pub observers : List ℕ
  pub observed : List (ℕ × StreamEvent)
  pub requests : List Runner
  pub notifications : List Fields

-- `__init__`
abbrev pub new_connection : List ℕ → Connection
new_connection observers = record {
  next_request_id = 0;
  store = new_store;
  queue = new_queue;
  closed = false;
  sent = [];
  observers = observers;
  observed = [];
  requests = [];
  notifications = [];
}

unfoldable pub add_observer : ℕ → Connection → Connection
add_observer observer self = record self { observers = self.observers ++ (observer ∷ []) }

-- An observer's exception is logged, and its coroutine runs as a task of its own.
unfoldable pub notify_observers : StreamDirection → Json → Connection → Connection
notify_observers direction message self = record self {
  observed =
      self.observed
      ++ map (λ observer. (observer, record { direction = direction; message = message }))
          self.observers;
}

-- A payload is written as one frame, or `json.dumps` raises before anything is queued.
pub record Payload : Type 0 where
  pub fields : Fields
  pub result : Option Value
  pub error : Option Value

abbrev optional_field : String → Option Value → Fields → Option Fields
optional_field name none rest = some rest
optional_field name (some opaque) rest = none
optional_field name (some (json_value value)) rest = some (field name value rest)

abbrev pub append_fields : Fields → Fields → Fields
append_fields end rest = rest
append_fields (field name value fs) rest = field name value (append_fields fs rest)

unfoldable pub dumps : Payload → Option Json
dumps payload = elim (optional_field "error" payload.error end) [
  | none ↦ none
  | some tail ↦ elim (optional_field "result" payload.result tail) [
    | none ↦ none
    | some rest ↦ some (obj (append_fields payload.fields rest))
  ]
]

-- `await self._sender.send(payload)`, then `self._notify_observers(OUTGOING, payload)`
unfoldable pub send : Payload → Connection → Result Exn Connection
unfolding notify_observers
send payload self = elim (dumps payload) [
  | none ↦ err type_error
  | some frame ↦
      ok (notify_observers outgoing frame (record self { sent = self.sent ++ (frame ∷ []) }))
]

abbrev pub request_fields : ℕ → String → Json → Fields
request_fields id method params =
    field "jsonrpc" (str "2.0")
      (field "id" (num (pos id)) (field "method" (str method) (field "params" params end)))

abbrev pub notification_fields : String → Json → Fields
notification_fields method params =
    field "jsonrpc" (str "2.0") (field "method" (str method) (field "params" params end))

-- `send_request` up to `return await future`, with the future's number.
unfoldable pub send_request : String → Json → Connection → Result Exn (ℕ × Connection)
unfolding send register_outgoing
send_request method params self =
    let id = self.next_request_id in
    let (future, store) = register_outgoing id method self.store in
    elim (send (record { fields = request_fields id method params; result = none; error = none })
      (record self { next_request_id = id + 1; store = store })) [
        | err e ↦ err e
        | ok c ↦ ok (future, c)
      ]

unfoldable pub send_notification : String → Json → Connection → Result Exn Connection
unfolding send
send_notification method params =
    send (record { fields = notification_fields method params; result = none; error = none })
