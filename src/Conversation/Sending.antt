-- ===== src/Conversation/Sending.antt =====
-- What a side does of itself, and the frames that it sends by a request or a notification.
use mathlib.Core.List.{append-nil}
use agent_client_protocol_py.Base.{
  ◌≡◌, sym, ap, ◌∙◌, ℕ, nat_eq, ◌+◌, String, false, Option, List, [], ◌∷◌, ◌++◌, Json, obj, ◌==◌,
  arith, ok,
}
use agent_client_protocol_py.Base.Dict.{lookup, lookup-insert}
use agent_client_protocol_py.Base.Lists.{All, pair, eq-none}
use agent_client_protocol_py.Base.Counts.{one_if, count}
use agent_client_protocol_py.Exceptions.{Exn}
use agent_client_protocol_py.Store.{register_outgoing}
use agent_client_protocol_py.Connection.{
  Connection, notification_fields, send_request, send, send_notification, dumps, notify_observers,
}
use agent_client_protocol_py.Connection.Closing.{send_request_eq}
use agent_client_protocol_py.Conversation.Frames.{
  asks, responds, asked, noted, IsTask, IsFrame, a_request, a_notification, asks-request_fields,
  asks-notification_fields,
}
use agent_client_protocol_py.Conversation.Side.{
  serving, is_some, awaits, RunnerIsRequest, IsServing,
}

send_request_keeps :
    (method : String) (params : Json) (f : ℕ) (c t : Connection)
    → send_request method params c ≡ ok (f, t)
    → (t.queue ≡ c.queue) × (t.requests ≡ c.requests)
send_request_keeps method params f c t e =
    unfold send_request send dumps notify_observers in ground (arith, e)

send_notification_eq :
    (method : String) (params : Json) (c t : Connection)
    → send_notification method params c ≡ ok t
    → (t.queue ≡ c.queue)
      × (t.requests ≡ c.requests)
      × (t.store ≡ c.store)
      × (t.sent ≡ c.sent ++ (obj (notification_fields method params) ∷ []))
send_notification_eq method params c t e =
    unfold send_notification send dumps notify_observers in ground (arith, e)

module _ (loads : String → Option Json) (exn_text : Exn → String) (to_str : Json → String) where
  -- What a side is after a move: no request is lost, and each new one is under way.
  pub record Moved (frames : List Json) (c t : Connection) : Type 0 where
    pub opened : t.queue.closed ≡ false
    pub tasks : All IsTask t.queue.items
    pub runners : All RunnerIsRequest t.requests
    pub framed : All (IsFrame loads exn_text to_str) frames
    pub serves : (k : ℕ) → serving k t + count (responds k) frames ≡ serving k c
    pub waits_for : (k : ℕ) → awaits k t ≡ awaits k c + count (asks k) frames

  abbrev pub Sends : Connection → Connection → Type 0
  Sends c t = (frames : List Json) × (t.sent ≡ c.sent ++ frames) × Moved frames c t

  -- A move that sends nothing and changes neither what the side serves nor what it waits for.
  pub quiet-Sends :
      (c t : Connection)
      → IsServing c
      → t.sent ≡ c.sent
      → t.queue ≡ c.queue
      → t.requests ≡ c.requests
      → t.store.outgoing ≡ c.store.outgoing
      → Sends c t
  quiet-Sends c t h sent queue requests outgoing = (
    [],
    sent ∙ sym (append-nil c.sent),
    record {
      opened = rw queue h.opened;
      tasks = rw queue h.tasks;
      runners = rw requests h.runners;
      framed = tt;
      serves = λ k. rw (queue, requests) (omega arith);
      waits_for = λ k. rw outgoing (omega arith);
    },
  )

  awaits-register :
      (k : ℕ) (method : String) (c : Connection)
      → IsServing c
      → one_if (is_some (lookup k (register_outgoing c.next_request_id method c.store).1.outgoing))
        ≡ awaits k c + one_if (k == c.next_request_id)
  unfolding register_outgoing
  awaits-register k method c h =
      let fresh =
        eq-none (lookup c.next_request_id c.store.outgoing)
          (λ m there. let bad = h.sound.below c.next_request_id m there in omega arith) in
      rw lookup-insert (ground (arith, fresh))

  pub request-Sends :
      (method : String) (params : Json) (f : ℕ) (c t : Connection)
      → IsServing c
      → send_request method params c ≡ ok (f, t)
      → Sends c t
  request-Sends method params f c t h e =
      let (_, registers, sent) = send_request_eq method params f c t e in
      let (queue, requests) = send_request_keeps method params f c t e in
      (
        _,
        sent,
        record {
          opened = rw queue h.opened;
          tasks = rw queue h.tasks;
          runners = rw requests h.runners;
          framed = pair (a_request _ (asked c.next_request_id method params)) tt;
          serves = λ k.
              rw (queue, requests)
                (omega
                  (arith, ap one_if (asks-request_fields k c.next_request_id method params).1));
          waits_for = λ k. rw registers (
              omega (
                arith,
                awaits-register k method c h,
                ap one_if (asks-request_fields k c.next_request_id method params).0,
              ));
        },
      )

  pub notification-Sends :
      (method : String) (params : Json) (c t : Connection)
      → IsServing c
      → send_notification method params c ≡ ok t
      → Sends c t
  notification-Sends method params c t h e =
      let (queue, requests, store, sent) = send_notification_eq method params c t e in
      (
        _,
        sent,
        record {
          opened = rw queue h.opened;
          tasks = rw queue h.tasks;
          runners = rw requests h.runners;
          framed = pair (a_notification _ (noted method params)) tt;
          serves = λ k.
              rw (queue, requests)
                (omega (arith, ap one_if (asks-notification_fields k method params).1));
          waits_for =
              λ k. rw store (omega (arith, ap one_if (asks-notification_fields k method params).0));
        },
      )
