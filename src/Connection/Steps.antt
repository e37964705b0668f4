-- ===== src/Connection/Steps.antt =====
-- The steps of a connection between two waits of the event loop, and what all of them keep.
use agent_client_protocol_py.Base.{
  ◌≡◌, refl, ◌⊎◌, inl, inr, ℕ, String, true, Option, none, some, Json, null, obj, Fields, get_field,
  Result, ok, err, arith, nat_eq, Bool-cases,
}
use agent_client_protocol_py.Exceptions.{Exn}
use agent_client_protocol_py.Store.{Future, is_done, MessageStateStore}
use agent_client_protocol_py.Connection.State.{Connection, notify_observers, incoming}
use agent_client_protocol_py.Connection.Incoming.{
  on_store, handle_response, process_fields, process_message, receive_line, has_method,
}
use agent_client_protocol_py.Connection.Receive.{verdict, settled_by, handle_response-eq-settled_by}
use agent_client_protocol_py.Connection.Tracked.{IsLive, settle_outgoing-IsLive}

abbrev pub IsSound : Connection → Type 0
IsSound c = IsLive c.next_request_id c.store

-- What a response says is a future that is done.
verdict-is_done :
    (message : Fields) (value : Future) → verdict message ≡ some value → is_done value ≡ true
verdict-is_done message value h = ground arith

on_store-IsLive :
    (n : ℕ) (r : Result Exn MessageStateStore) (c : Connection)
    → ((t : MessageStateStore) → r ≡ ok t → IsLive n t)
    → IsLive n c.store
    → IsLive n (on_store r c).1.store
on_store-IsLive n (ok t) c h k = h t refl
on_store-IsLive n (err e) c h k = k

settled_by-IsLive :
    (n : ℕ) (v : Option Future) (id : Json) (c : Connection)
    → ((value : Future) → v ≡ some value → is_done value ≡ true)
    → IsLive n c.store
    → IsLive n (settled_by v id c).1.store
settled_by-IsLive n none id c d h = h
settled_by-IsLive n (some value) id c d h =
    on_store-IsLive n _ c (λ t e. settle_outgoing-IsLive n id value c.store t (d value refl) e h) h

handle_response-IsLive :
    (n : ℕ) (id : Json) (message : Fields) (c : Connection)
    → IsLive n c.store
    → IsLive n (handle_response id message c).1.store
handle_response-IsLive n id message c h =
    rw handle_response-eq-settled_by
      (settled_by-IsLive n (verdict message) id c (verdict-is_done message) h)

-- A received message draws no request id; its effect on the store is that of a response, or none.
pub handle_response-next_request_id :
    (id : Json) (message : Fields) (c : Connection)
    → (handle_response id message c).1.next_request_id ≡ c.next_request_id
handle_response-next_request_id id message c =
    rw handle_response-eq-settled_by (go (verdict message))
  where
    go : (v : Option Future) → (settled_by v id c).1.next_request_id ≡ c.next_request_id
    go none = refl
    go (some value) = ground arith

process_fields_store :
    (message : Fields) (c : Connection)
    → (((process_fields message c).1.store ≡ c.store)
        × ((process_fields message c).1.next_request_id ≡ c.next_request_id))
      ⊎ ((id : Json) × (process_fields message c ≡ handle_response id message c))
process_fields_store message c = go (get_field "id" message) refl
  where
    go :
        (o : Option Json)
        → get_field "id" message ≡ o
        → (((process_fields message c).1.store ≡ c.store)
            × ((process_fields message c).1.next_request_id ≡ c.next_request_id))
          ⊎ ((id : Json) × (process_fields message c ≡ handle_response id message c))
    go none e = unfold process_fields in inl (ground (arith, e))
    go (some id) e = elim (Bool-cases (has_method message)) [
      | inl yes_method ↦ unfold process_fields in inl (ground (arith, e))
      | inr no_method ↦ unfold process_fields in inr (id, ground (arith, e))
    ]

pub process_fields-IsSound :
    (message : Fields) (c : Connection) → IsSound c → IsSound (process_fields message c).1
process_fields-IsSound message c h = elim (process_fields_store message c) [
  | inl (same, ids) ↦ rw (same, ids) h
  | inr (id, e) ↦
      rw (e, handle_response-next_request_id id message c)
        (handle_response-IsLive c.next_request_id id message c h)
]

process_message-IsSound :
    (message : Json) (c : Connection) → IsSound c → IsSound (process_message message c).1
unfolding process_message
process_message-IsSound (obj message) c h = process_fields-IsSound message c h
process_message-IsSound null c h = h
process_message-IsSound _ c h = h

pub receive_line-IsSound :
    (loads : String → Option Json) (line : String) (c : Connection)
    → IsSound c
    → IsSound (receive_line loads line c).1
unfolding receive_line
receive_line-IsSound loads line c h = go (loads line) refl
  where
    go : (o : Option Json) → loads line ≡ o → IsSound (receive_line loads line c).1
    go none e = rw (e, receive_line) h
    go (some message) e =
        rw (e, receive_line)
          (process_message-IsSound message (notify_observers incoming message c)
            (unfold notify_observers in h))
