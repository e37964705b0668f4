-- ===== src/Connection/Reach.antt =====
-- The steps of a connection between two waits of the event loop, in any order.
use agent_client_protocol_py.Base.{
  ◌≡◌, refl, ℕ, ◌+◌, String, Option, none, some, List, Json, Value, Fields, Result, ok, err, arith,
  nat_eq,
}
use agent_client_protocol_py.Base.Lists.{get_elem?}
use agent_client_protocol_py.Exceptions.{Exn}
use agent_client_protocol_py.Queue.{
  request, notification, RpcTaskKind, item, waits, stop_iteration, anext, task_done, Next,
  MessageQueue,
}
use agent_client_protocol_py.Store.{
  register_outgoing, begin_incoming, complete_incoming, fail_incoming, abandon,
}
use agent_client_protocol_py.Store.Pending.{IsTracked-new_store}
use agent_client_protocol_py.Connection.State.{
  Connection, new_connection, send, dumps, send_request, send_notification, add_observer,
  notify_observers, Runner,
}
use agent_client_protocol_py.Connection.Incoming.{receive_line, on_receive_error}
use agent_client_protocol_py.Connection.Run.{
  HandlerOutcome, dispatch, end_request, end_notification, begin_close, finish_close,
  finish_request, run_request, start_runner, finish_with,
}
use agent_client_protocol_py.Connection.Tracked.{
  register-IsLive, reject_all-IsLive, abandon-IsLive, incoming-IsLive,
}
use agent_client_protocol_py.Base.Dict.{lookup}
use agent_client_protocol_py.Connection.Respond.{end_request_eq, run_request_lem}
use agent_client_protocol_py.Connection.Steps.{IsSound, receive_line-IsSound}

send_notification_ok :
    (method : String) (params : Json) (c t : Connection)
    → send_notification method params c ≡ ok t
    → (t.store ≡ c.store) × (t.next_request_id ≡ c.next_request_id)
send_notification_ok method params c t e =
    unfold send_notification send dumps notify_observers in ground (arith, e)

send_request_ok :
    (method : String) (params : Json) (f : ℕ) (c t : Connection)
    → send_request method params c ≡ ok (f, t)
    → (t.store ≡ (register_outgoing c.next_request_id method c.store).1)
      × (t.next_request_id ≡ c.next_request_id + 1)
send_request_ok method params f c t e =
    unfold send_request send dumps notify_observers in ground (arith, e)

finish_with-IsSound :
    (entry : ℕ) (result : Result Exn Value) (c : Connection)
    → IsSound c
    → IsSound (finish_with entry (result, c))
unfolding finish_with complete_incoming fail_incoming
finish_with-IsSound entry (ok value) c h = incoming-IsLive c.next_request_id c.store _ refl refl h
finish_with-IsSound entry (err e) c h = incoming-IsLive c.next_request_id c.store _ refl refl h

-- `loads`, `exn_text` and `to_str` are what the connection calls.
module _ (loads : String → Option Json) (exn_text : Exn → String) (to_str : Json → String) where
  pub data Step : Connection → Connection → Type 0 where
    request_sent :
        {s t : Connection} (method : String) (params : Json) (f : ℕ)
        → send_request method params s ≡ ok (f, t)
        → Step s t
    notification_sent :
        {s t : Connection} (method : String) (params : Json)
        → send_notification method params s ≡ ok t
        → Step s t
    observer_added : {s : Connection} (observer : ℕ) → Step s (add_observer observer s)
    line_received : {s : Connection} (line : String) → Step s (receive_line loads line s).1
    loop_failed : {s : Connection} (e : Exn) → Step s (on_receive_error (some e, s)).1
    dispatched : {s : Connection} → Step s (dispatch s)
    request_ended :
        {s : Connection} (i : ℕ) (outcome : HandlerOutcome)
        → Step s (end_request loads exn_text to_str i outcome s)
    notification_ended :
        {s : Connection} (i : ℕ) (outcome : HandlerOutcome) → Step s (end_notification i outcome s)
    caller_cancelled : {s : Connection} (f : ℕ) → Step s (record s { store = abandon f s.store })
    close_begun : {s : Connection} → Step s (begin_close s)
    close_finished : {s : Connection} → Step s (finish_close s)

  pub data Reach (s : Connection) : Connection → Type 0 where
    here : Reach s s
    next : {t u : Connection} → Reach s t → Step t u → Reach s u

  dispatch-IsSound : (c : Connection) → IsSound c → IsSound (dispatch c)
  unfolding dispatch
  dispatch-IsSound c h = go (anext c.queue) refl
    where
      start :
          (kind : RpcTaskKind) (message : Fields) (queue : MessageQueue)
          → IsSound (start_runner kind message (record c { queue = queue }))
      start request message queue =
          unfold begin_incoming in incoming-IsLive c.next_request_id c.store _ refl refl h
      start notification message queue = h

      go : (n : Next) → anext c.queue ≡ n → IsSound (dispatch c)
      go waits e = rw (dispatch, e) h
      go (stop_iteration queue) e = rw (dispatch, e) h
      go (item task queue) e = rw (dispatch, e) (start task.kind task.message (task_done queue))

  finish_request-IsSound :
      (runner : Runner) (outcome : HandlerOutcome) (c : Connection)
      → IsSound c
      → IsSound (finish_request loads exn_text to_str runner outcome c)
  unfolding finish_request
  finish_request-IsSound runner outcome c h =
      let (_, _, same, _, ids) = run_request_lem loads exn_text to_str runner.message outcome c in
      let (r, c') = run_request loads exn_text to_str runner.message outcome c in
      finish_with-IsSound runner.entry r c' (rw (same, ids) h)

  end_request-IsSound :
      (i : ℕ) (outcome : HandlerOutcome) (c : Connection)
      → IsSound c
      → IsSound (end_request loads exn_text to_str i outcome c)
  end_request-IsSound i outcome c h = go (get_elem? c.requests i) refl
    where
      go :
          (o : Option Runner)
          → get_elem? c.requests i ≡ o
          → IsSound (end_request loads exn_text to_str i outcome c)
      go none e = unfold end_request in ground (arith, e, h)
      go (some runner) e =
          rw (end_request_eq loads exn_text to_str i runner outcome c e)
            (finish_request-IsSound runner outcome _ h)

  Step-IsSound : {s t : Connection} → Step s t → IsSound s → IsSound t
  Step-IsSound {s} (request_sent {t = t} method params f e) h =
      let (registers, ids) = send_request_ok method params f s t e in
      rw (registers, ids) (register-IsLive s.next_request_id method s.store h)
  Step-IsSound {s} (notification_sent {t = t} method params e) h =
      let (same, ids) = send_notification_ok method params s t e in rw (same, ids) h
  Step-IsSound (observer_added observer) h = unfold add_observer in h
  Step-IsSound {s} (line_received line) h = receive_line-IsSound loads line s h
  Step-IsSound {s} (loop_failed e) h =
      unfold on_receive_error in reject_all-IsLive s.next_request_id e s.store h
  Step-IsSound {s} dispatched h = dispatch-IsSound s h
  Step-IsSound {s} (request_ended i outcome) h = end_request-IsSound i outcome s h
  Step-IsSound (notification_ended i outcome) h = unfold end_notification in h
  Step-IsSound {s} (caller_cancelled f) h = abandon-IsLive s.next_request_id f s.store h
  Step-IsSound {s} close_begun h = unfold begin_close in ground (arith, h)
  Step-IsSound {s} close_finished h =
      unfold finish_close in reject_all-IsLive s.next_request_id _ s.store h

  -- Over any interleaving of the steps of a connection: if every pending future belongs to an
  -- entry of the store and every entry's id has been drawn, this stays so.
  pub Reach-IsSound : {s t : Connection} → Reach s t → IsSound s → IsSound t
  Reach-IsSound here h = h
  Reach-IsSound (next r st) h = Step-IsSound st (Reach-IsSound r h)

  pub new_connection-IsSound : (observers : List ℕ) → IsSound (new_connection observers)
  new_connection-IsSound observers = record {
    tracked = IsTracked-new_store;
    below = λ id m found. unfold lookup in cc found;
  }
