-- ===== src/Store/State.antt =====
-- `InMemoryMessageStateStore`
use agent_client_protocol_py.Base.{
  ℕ, nat_eq, pos, negsuc, String, Bool, true, false, Option, none, some, List, [], ◌∷◌, ◌++◌, Json,
  null, bool, num, str, arr, obj, Result, ok, err, if◌then◌else◌, Value, json_value,
}
use agent_client_protocol_py.Base.Dict.{Dict, lookup, insert, erase, values}
use agent_client_protocol_py.Base.Lists.{length, get_elem?, set, null?}
use agent_client_protocol_py.Exceptions.{Exn, type_error}

-- An `asyncio.Future`. A caller that waits for it may cancel it.
pub data Future : Type 0 where
  unresolved : Future
  resolved : Json → Future
  rejected : Exn → Future
  abandoned : Future

abbrev pub is_done : Future → Bool
is_done unresolved = false
is_done _ = true

pub record OutgoingMessage : Type 0 where
  pub request_id : ℕ
  pub method : String
  pub future : ℕ

pub data Status : Type 0 where
  pending completed failed : Status

pub record IncomingMessage : Type 0 where
  pub method : Json
  pub params : Json
  pub status : Status
  pub result : Value
  pub error : Option Exn

pub record MessageStateStore : Type 0 where
  pub futures : List Future
  pub outgoing : Dict ℕ OutgoingMessage
  pub incoming : List IncomingMessage

abbrev pub new_store : MessageStateStore
new_store = record { futures = []; outgoing = []; incoming = [] }

-- The future `f` after `if not future.done(): future.set_…(value)`.
unfoldable pub settle : ℕ → Future → List Future → List Future
settle f value futures = elim (get_elem? futures f) [
  | some unresolved ↦ set futures f value
  | some other ↦ futures
  | none ↦ futures
]

-- A value from a message as a key of `_outgoing`, whose keys are natural numbers: Python equates
-- `True` with 1 and `False` with 0, finds no entry under another key, and refuses to hash a list
-- or a dict.
pub data Key : Type 0 where
  key : ℕ → Key
  no_such_key unhashable : Key

unfoldable pub key_of : Json → Key
key_of null = no_such_key
key_of (bool b) = if b then key 1 else key 0
key_of (num (pos n)) = key n
key_of (num (negsuc n)) = no_such_key
key_of (str s) = no_such_key
key_of (arr xs) = unhashable
key_of (obj fs) = unhashable

-- The new future's number comes back beside the state.
unfoldable pub register_outgoing : ℕ → String → MessageStateStore → ℕ × MessageStateStore
register_outgoing request_id method self =
    let future = length self.futures in
    (
      future,
      record self {
        futures = self.futures ++ (unresolved ∷ []);
        outgoing =
            insert request_id (record { request_id = request_id; method = method; future = future })
              self.outgoing;
      },
    )

-- `record = self._outgoing.pop(id, None)`, and the record's future settled if it is not done.
unfoldable pub pop_and_settle : ℕ → Future → MessageStateStore → MessageStateStore
unfolding settle
pop_and_settle id value self = elim (lookup id self.outgoing) [
  | none ↦ self
  | some message ↦ record self {
    futures = settle message.future value self.futures;
    outgoing = erase id self.outgoing;
  }
]

-- `pop` of an empty dict returns its default before it hashes the id.
unfoldable pub settle_outgoing : Json → Future → MessageStateStore → Result Exn MessageStateStore
unfolding key_of pop_and_settle
settle_outgoing request_id value self = elim (key_of request_id) [
  | key id ↦ ok (pop_and_settle id value self)
  | no_such_key ↦ ok self
  | unhashable ↦ if null? self.outgoing then ok self else err type_error
]

unfoldable pub resolve_outgoing : Json → Json → MessageStateStore → Result Exn MessageStateStore
unfolding settle_outgoing
resolve_outgoing request_id result = settle_outgoing request_id (resolved result)

unfoldable pub reject_outgoing : Json → Exn → MessageStateStore → Result Exn MessageStateStore
unfolding settle_outgoing
reject_outgoing request_id error = settle_outgoing request_id (rejected error)

unfoldable pub reject_each : List OutgoingMessage → Exn → List Future → List Future
unfolding settle
reject_each [] error futures = futures
reject_each (message ∷ rest) error futures =
    reject_each rest error (settle message.future (rejected error) futures)

unfoldable pub reject_all_outgoing : Exn → MessageStateStore → MessageStateStore
unfolding reject_each
reject_all_outgoing error self = record self {
  futures = reject_each (values self.outgoing) error self.futures;
  outgoing = [];
}

-- The record's place in `_incoming` stands for the record, which the runner changes later.
unfoldable pub begin_incoming : Json → Json → MessageStateStore → ℕ × MessageStateStore
begin_incoming method params self = (
  length self.incoming,
  record self {
    incoming =
        self.incoming
        ++ (record {
          method = method;
          params = params;
          status = pending;
          result = json_value null;
          error = none;
        }
            ∷ []);
  },
)

abbrev pub change_at :
    ℕ → (IncomingMessage → IncomingMessage) → List IncomingMessage → List IncomingMessage
change_at i change incoming = elim (get_elem? incoming i) [
  | none ↦ incoming
  | some message ↦ set incoming i (change message)
]

unfoldable pub complete_incoming : ℕ → Value → MessageStateStore → MessageStateStore
complete_incoming i result self = record self {
  incoming = change_at i (λ m. record m { status = completed; result = result }) self.incoming;
}

unfoldable pub fail_incoming : ℕ → Exn → MessageStateStore → MessageStateStore
fail_incoming i error self = record self {
  incoming = change_at i (λ m. record m { status = failed; error = some error }) self.incoming;
}

-- The caller that waits for a future is cancelled.
unfoldable pub abandon : ℕ → MessageStateStore → MessageStateStore
abandon f self = record self { futures = settle f abandoned self.futures }
