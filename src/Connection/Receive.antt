-- ===== src/Connection/Receive.antt =====
-- What a received line does.
use agent_client_protocol_py.Store.Pending.{IsTracked, reject_all_settles}
use agent_client_protocol_py.Base.{
  ◌≡◌, ◌≢◌, refl, sym, ◌∙◌, ap, ℕ, String, Bool, true, false, Option, none, some, List, [], ◌∷◌,
  Json, null, obj, Fields, get_field, Result, ok, if◌then◌else◌, arith, nat_eq, ◌==◌,
}
use agent_client_protocol_py.Base.Dict.{lookup, lookup-erase}
use agent_client_protocol_py.Base.Lists.{get_elem?}
use agent_client_protocol_py.Exceptions.{Exn, request_error, attribute_error}
use agent_client_protocol_py.Store.{
  Future, unresolved, resolved, rejected, OutgoingMessage, MessageStateStore, key, key_of,
  settle_outgoing, pop_and_settle, resolve_outgoing, reject_outgoing,
}
use agent_client_protocol_py.Store.Settled.{settle_pending, settle_other}
use agent_client_protocol_py.Connection.State.{Connection, incoming, notify_observers}
use agent_client_protocol_py.Connection.Incoming.{
  Outcome, on_store, error_fields, error_of, handle_response, process_message, receive_line,
  receive_loop, receive_task, on_receive_error,
}

-- What a response says of its request: a result, `null` if it has neither field, an error; and
-- nothing if its error is a value of the wrong kind.
abbrev pub verdict : Fields → Option Future
verdict message = elim (get_field "result" message) [
  | some result ↦ some (resolved result)
  | none ↦ elim (get_field "error" message) [
    | none ↦ some (resolved null)
    | some error ↦ elim (error_fields error) [
      | none ↦ none
      | some error_obj ↦ some (rejected (request_error (error_of error_obj)))
    ]
  ]
]

abbrev pub settled_by : Option Future → Json → Connection → Outcome
settled_by none id self = (some attribute_error, self)
settled_by (some value) id self = on_store (settle_outgoing id value self.store) self

pub handle_response-eq-settled_by :
    (id : Json) (message : Fields) (self : Connection)
    → handle_response id message self ≡ settled_by (verdict message) id self
handle_response-eq-settled_by id message self =
    unfold handle_response resolve_outgoing reject_outgoing in ground arith

pop_and_settle_found :
    (k : ℕ) (value : Future) (m : OutgoingMessage) (s : MessageStateStore) (g j : ℕ)
    → lookup k s.outgoing ≡ some m
    → get_elem? s.futures m.future ≡ some unresolved
    → (get_elem? (pop_and_settle k value s).futures g
        ≡ (if m.future == g then some value else get_elem? s.futures g))
      × (lookup j (pop_and_settle k value s).outgoing
          ≡ (if j == k then none else lookup j s.outgoing))
unfolding pop_and_settle
pop_and_settle_found k value m s g j found waiting =
    rw (found, pop_and_settle)
      (
        ground (
          arith,
          settle_pending m.future value s.futures,
          settle_other m.future value s.futures g,
        ),
        lookup-erase j k s.outgoing,
      )

pub settle_outgoing_key :
    (id : Json) (k : ℕ) (value : Future) (s : MessageStateStore)
    → key_of id ≡ key k
    → settle_outgoing id value s ≡ ok (pop_and_settle k value s)
settle_outgoing_key id k value s e = unfold settle_outgoing in ground (arith, e)

-- A response to a request under way whose future is pending, with a result, with neither field or
-- with an error of the right kind, raises nothing, settles the future of that request by what
-- it says and no other future, and removes the entry of that request and no other.
pub handle_response_found :
    (id : Json) (message : Fields) (self : Connection) (k : ℕ) (m : OutgoingMessage)
    (value : Future) (g j : ℕ)
    → key_of id ≡ key k
    → lookup k self.store.outgoing ≡ some m
    → get_elem? self.store.futures m.future ≡ some unresolved
    → verdict message ≡ some value
    → ((handle_response id message self).0 ≡ none)
      × (get_elem? (handle_response id message self).1.store.futures g
          ≡ (if m.future == g then some value else get_elem? self.store.futures g))
      × (lookup j (handle_response id message self).1.store.outgoing
          ≡ (if j == k then none else lookup j self.store.outgoing))
handle_response_found id message self k m value g j kid found waiting says =
    let e = settle_outgoing_key id k value self.store kid in
    let (there, gone) = pop_and_settle_found k value m self.store g j found waiting in
    rw (handle_response-eq-settled_by, says, e) (refl, there, gone)

abbrev pub is_object : Json → Bool
is_object (obj message) = true
is_object _ = false

process_message_no_object :
    (message : Json) (self : Connection)
    → is_object message ≡ false
    → process_message message self ≡ (some attribute_error, self)
unfolding process_message
process_message_no_object null self h = refl
process_message_no_object (obj fs) self h = cc
process_message_no_object _ self h = refl

module _ (loads : String → Option Json) where
  -- A line that is no JSON is skipped, whatever lines follow.
  pub receive_loop_bad_line :
      (line : String) (later : List (Result Exn String)) (self : Connection)
      → loads line ≡ none
      → receive_loop loads (ok line ∷ later) self ≡ receive_loop loads later self
  unfolding receive_loop receive_line
  receive_loop_bad_line line later self bad = ground (arith, bad)

  receive_loop_no_object :
      (line : String) (later : List (Result Exn String)) (message : Json) (self : Connection)
      → loads line ≡ some message
      → is_object message ≡ false
      → receive_loop loads (ok line ∷ later) self
        ≡ (some attribute_error, notify_observers incoming message self)
  unfolding receive_loop receive_line
  receive_loop_no_object line later message self reads other =
      ground
        (arith, reads, process_message_no_object message (notify_observers incoming message self))

  receive_task_no_object_eq :
      (line : String) (later : List (Result Exn String)) (message : Json) (self : Connection)
      → loads line ≡ some message
      → is_object message ≡ false
      → receive_task loads (ok line ∷ later) self
        ≡ on_receive_error (some attribute_error, notify_observers incoming message self)
  unfolding receive_task
  receive_task_no_object_eq line later message self reads other =
      ap on_receive_error (receive_loop_no_object line later message self reads other)

  -- A line that is JSON but no object, such as `[]` or `1`, ends the loop by an exception, and the
  -- lines after it are not read, whatever they hold; if every pending future belonged to an entry
  -- of the store, none is pending afterwards.
  pub receive_task_no_object :
      (line : String) (later : List (Result Exn String)) (message : Json) (self : Connection)
      (f : ℕ)
      → loads line ≡ some message
      → is_object message ≡ false
      → IsTracked self.store
      → (receive_task loads (ok line ∷ later) self ≡ receive_task loads (ok line ∷ []) self)
        × ((receive_task loads (ok line ∷ later) self).0 ≡ some attribute_error)
        × (get_elem? (receive_task loads (ok line ∷ later) self).1.store.futures f
            ≢ some unresolved)
  unfolding on_receive_error
  receive_task_no_object line lines message self f reads other tracked =
      let e = receive_task_no_object_eq line lines message self reads other in
      let e' = receive_task_no_object_eq line [] message self reads other in
      (
        e ∙ sym e',
        rw (e, on_receive_error) refl,
        rw (e, on_receive_error)
            (reject_all_settles attribute_error (notify_observers incoming message self).store f
              (unfold notify_observers in tracked)).0,
      )
