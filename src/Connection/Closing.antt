-- ===== src/Connection/Closing.antt =====
-- A request from its frame to its response, and the end of a connection.
use agent_client_protocol_py.Connection.Steps.{IsSound, receive_line-IsSound}
use agent_client_protocol_py.Base.{
  ◌≡◌, ◌≢◌, refl, ℕ, pos, String, false, Option, none, some, List, [], ◌∷◌, ◌++◌, Json, num, obj,
  Fields, get_field, ok, arith, nat_eq, Result, err, ap,
}
use agent_client_protocol_py.Base.Dict.{lookup, lookup-insert_self}
use agent_client_protocol_py.Base.Lists.{get_elem?, get_elem?-append_last, length, eq-none}
use agent_client_protocol_py.Store.{
  Future, unresolved, OutgoingMessage, MessageStateStore, register_outgoing, key_of,
}
use agent_client_protocol_py.Store.Pending.{reject_all_settles}
use agent_client_protocol_py.Exceptions.{Exn, connection_error}
use agent_client_protocol_py.Connection.State.{
  Connection, new_connection, send, dumps, send_request, request_fields, notify_observers, incoming,
}
use agent_client_protocol_py.Connection.Incoming.{
  receive_line, process_message, process_fields, has_method, handle_response, Outcome, receive_loop,
  receive_task, on_receive_error,
}
use agent_client_protocol_py.Connection.Run.{finish_close}
use agent_client_protocol_py.Connection.Receive.{verdict, handle_response_found}
use agent_client_protocol_py.Connection.Reach.{Reach, Reach-IsSound, new_connection-IsSound}

abbrev entry_for : ℕ → String → MessageStateStore → OutgoingMessage
entry_for id method s = record { request_id = id; method = method; future = length s.futures }

registered :
    (id : ℕ) (method : String) (s : MessageStateStore)
    → ((register_outgoing id method s).0 ≡ length s.futures)
      × (get_elem? (register_outgoing id method s).1.futures (length s.futures) ≡ some unresolved)
      × (lookup id (register_outgoing id method s).1.outgoing ≡ some (entry_for id method s))
unfolding register_outgoing
registered id method s =
    (refl, get_elem?-append_last s.futures unresolved, lookup-insert_self id _ s.outgoing)

pub send_request_eq :
    (method : String) (params : Json) (f : ℕ) (c t : Connection)
    → send_request method params c ≡ ok (f, t)
    → (f ≡ (register_outgoing c.next_request_id method c.store).0)
      × (t.store ≡ (register_outgoing c.next_request_id method c.store).1)
      × (t.sent ≡ c.sent ++ (obj (request_fields c.next_request_id method params) ∷ []))
send_request_eq method params f c t e =
    unfold send_request send dumps notify_observers in ground (arith, e)

-- A line that holds a message with an id and no method is a response.
pub receive_response :
    (loads : String → Option Json) (line : String) (message : Fields) (id : Json) (c : Connection)
    → loads line ≡ some (obj message)
    → get_field "id" message ≡ some id
    → has_method message ≡ false
    → receive_line loads line c
      ≡ handle_response id message (notify_observers incoming (obj message) c)
unfolding receive_line process_message process_fields
receive_response loads line message id c reads named other = ground (arith, reads, named, other)

notified_response :
    (loads : String → Option Json) (line : String) (message : Fields) (k : ℕ) (c : Connection)
    (m : OutgoingMessage) (value : Future)
    → loads line ≡ some (obj message)
    → get_field "id" message ≡ some (num (pos k))
    → has_method message ≡ false
    → verdict message ≡ some value
    → lookup k c.store.outgoing ≡ some m
    → get_elem? c.store.futures m.future ≡ some unresolved
    → get_elem? (receive_line loads line c).1.store.futures m.future ≡ some value
unfolding notify_observers key_of
notified_response loads line message k c m value reads named other says found waiting =
    let (_, settles, _) =
      handle_response_found (num (pos k)) message (notify_observers incoming (obj message) c) k m
        value m.future k refl found waiting says in
    rw (receive_response loads line message (num (pos k)) c reads named other)
      (ground (arith, settles))

-- A request that a connection sends goes out as one frame after all earlier ones, under an id that
-- no request under way has, and its future is not done; and a line received next that holds the
-- response to this id settles that future, by the result or the error that the response states.
pub send_request-receive_line :
    (loads : String → Option Json) (exn_text : Exn → String) (to_str : Json → String)
    (observers : List ℕ) (method : String) (params : Json) (f : ℕ) (s t : Connection)
    (line : String) (message : Fields) (value : Future)
    → Reach loads exn_text to_str (new_connection observers) s
    → send_request method params s ≡ ok (f, t)
    → loads line ≡ some (obj message)
    → get_field "id" message ≡ some (num (pos s.next_request_id))
    → has_method message ≡ false
    → verdict message ≡ some value
    → (t.sent ≡ s.sent ++ (obj (request_fields s.next_request_id method params) ∷ []))
      × (lookup s.next_request_id s.store.outgoing ≡ none)
      × (get_elem? t.store.futures f ≡ some unresolved)
      × (get_elem? (receive_line loads line t).1.store.futures f ≡ some value)
send_request-receive_line loads exn_text to_str observers method params f s t line message value
      reached sends reads named other says =
    let (at, registers, frames) = send_request_eq method params f s t sends in
    let (number, waiting, found) = registered s.next_request_id method s.store in
    let live =
      Reach-IsSound loads exn_text to_str reached
        (new_connection-IsSound loads exn_text to_str observers) in
    (
      frames,
      eq-none _ (λ m there. let bad = live.below s.next_request_id m there in omega arith),
      rw (registers, at, number) waiting,
      rw (at, number)
          (notified_response loads line message s.next_request_id t
            (entry_for s.next_request_id method s.store) value reads named other says
            (rw registers found) (rw registers waiting)),
    )

-- Whatever steps a connection has made, the end of `close` leaves no future of a request pending,
-- no entry in the store and no runner.
pub finish_close_settles :
    (loads : String → Option Json) (exn_text : Exn → String) (to_str : Json → String)
    (observers : List ℕ) (t : Connection) (f : ℕ)
    → Reach loads exn_text to_str (new_connection observers) t
    → (get_elem? (finish_close t).store.futures f ≢ some unresolved)
      × ((finish_close t).store.outgoing ≡ [])
      × ((finish_close t).requests ≡ [])
unfolding finish_close
finish_close_settles loads exn_text to_str observers t f reached =
    let live =
      Reach-IsSound loads exn_text to_str reached
        (new_connection-IsSound loads exn_text to_str observers) in
    let (settled, empty) =
      reject_all_settles (connection_error "Connection closed") t.store f live.tracked in
    (settled, empty, refl)

on_receive_error_settles :
    (r : Outcome) (e : Exn) (f : ℕ)
    → r.0 ≡ some e
    → IsSound r.1
    → ((on_receive_error r).0 ≡ some e)
      × (get_elem? (on_receive_error r).1.store.futures f ≢ some unresolved)
      × ((on_receive_error r).1.store.outgoing ≡ [])
unfolding on_receive_error
on_receive_error_settles (none, c) e f raises sound = cc
on_receive_error_settles (some e', c) e f raises sound =
    let (settled, empty) = reject_all_settles e' c.store f sound.tracked in (raises, settled, empty)

module _ (loads : String → Option Json) where
  abbrev LoopEnds : List (Result Exn String) → List (Result Exn String) → Connection → Type 0
  LoopEnds reads reads' c =
      (receive_loop loads reads c ≡ receive_loop loads reads' c)
      × ((e : Exn) × ((receive_loop loads reads c).0 ≡ some e))
      × IsSound (receive_loop loads reads c).1

  receive_loop_raising :
      (before : List (Result Exn String)) (e : Exn) (later : List (Result Exn String))
      (c : Connection)
      → IsSound c
      → LoopEnds (before ++ (err e ∷ later)) (before ++ (err e ∷ [])) c
  unfolding receive_loop
  receive_loop_raising [] e later c h = (refl, (e, refl), h)
  receive_loop_raising (err e' ∷ before) e later c h = (refl, (e', refl), h)
  receive_loop_raising (ok line ∷ before) e later c h =
      let sound = receive_line-IsSound loads line c h in
      go sound (receive_loop_raising before e later (receive_line loads line c).1 sound)
        (receive_line loads line c).0 refl
    where
      go :
          IsSound (receive_line loads line c).1
          → LoopEnds
              (before ++ (err e ∷ later))
              (before ++ (err e ∷ []))
              (receive_line loads line c).1
          → (o : Option Exn) → (receive_line loads line c).0 ≡ o
          → LoopEnds (ok line ∷ before ++ (err e ∷ later)) (ok line ∷ before ++ (err e ∷ [])) c
      go sound ends none q = rw (receive_loop, q) ends
      go sound ends (some e') q = rw (receive_loop, q) (refl, (e', refl), sound)

  -- If a read of the receive loop raises, as `readline` does for a line over its limit, whatever has
  -- been read before on a connection that steps have led to, then the loop's task ends by an
  -- exception, nothing after that read is read, no future of a request is left pending and
  -- no entry is left in the store.
  pub receive_task_raising :
      (exn_text : Exn → String) (to_str : Json → String) (observers : List ℕ) (c : Connection)
      (before : List (Result Exn String)) (e : Exn) (later : List (Result Exn String)) (f : ℕ)
      → Reach loads exn_text to_str (new_connection observers) c
      → (receive_task loads (before ++ (err e ∷ later)) c
          ≡ receive_task loads (before ++ (err e ∷ [])) c)
        × ((e' : Exn) × ((receive_task loads (before ++ (err e ∷ later)) c).0 ≡ some e'))
        × (get_elem? (receive_task loads (before ++ (err e ∷ later)) c).1.store.futures f
            ≢ some unresolved)
        × ((receive_task loads (before ++ (err e ∷ later)) c).1.store.outgoing ≡ [])
  unfolding receive_task
  receive_task_raising exn_text to_str observers c before e later f reached =
      let live =
        Reach-IsSound loads exn_text to_str reached
          (new_connection-IsSound loads exn_text to_str observers) in
      let (same, (e', raises), sound) = receive_loop_raising before e later c live in
      let (ends, settled, empty) =
        on_receive_error_settles (receive_loop loads (before ++ (err e ∷ later)) c) e' f raises
          sound in
      (ap on_receive_error same, (e', ends), settled, empty)
