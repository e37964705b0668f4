-- ===== src/Conversation/Reading.antt =====
-- What a side does with a frame that it reads.
use agent_client_protocol_py.Base.{
  ◌≡◌, refl, sym, ap, ℕ, suc, nat_eq, ◌+◌, ◌<◌, pos, String, false, Option, none, some, [], ◌∷◌,
  ◌++◌, Json, num, obj, Fields, get_field, if◌then◌else◌, ◌==◌, arith, ok,
}
use agent_client_protocol_py.Base.Dict.{lookup, lookup-erase}
use agent_client_protocol_py.Base.Lists.{All, pair, length-append}
use agent_client_protocol_py.Base.Counts.{one_if, count-append, All-append}
use agent_client_protocol_py.Exceptions.{Exn}
use agent_client_protocol_py.Store.{
  Future, MessageStateStore, key_of, pop_and_settle, settle_outgoing,
}
use agent_client_protocol_py.Queue.{RpcTask, request, notification, publish}
use agent_client_protocol_py.Connection.{
  Connection, request_fields, notification_fields, has_method, notify_observers, incoming,
  receive_line, process_message, process_fields,
}
use agent_client_protocol_py.Connection.Receive.{
  verdict, handle_response-eq-settled_by, settle_outgoing_key,
}
use agent_client_protocol_py.Connection.Closing.{receive_response}
use agent_client_protocol_py.Peers.Responses.{response_to, response_to_lem}
use agent_client_protocol_py.Conversation.Frames.{
  asks, responds, asked, noted, IsTask, call, note, IsFrame, a_request, a_notification, a_response,
  asks-request_fields, asks-notification_fields, asks-response_to,
}
use agent_client_protocol_py.Conversation.Side.{
  calls, serving, awaits, weigh, side_load, RunnerIsRequest, IsServing,
}

-- The connection once a task is at the end of its queue, or a future is settled.
abbrev with_task : RpcTask → Connection → Connection
with_task task c = record (notify_observers incoming (obj task.message) c) {
  queue = record c.queue {
    items = c.queue.items ++ (some task ∷ []);
    unfinished = suc c.queue.unfinished;
  };
}

abbrev with_settled : ℕ → Future → Fields → Connection → Connection
with_settled k value message c = record (notify_observers incoming (obj message) c) {
  store = pop_and_settle k value c.store;
}

lookup-pop_and_settle :
    (j k : ℕ) (value : Future) (s : MessageStateStore)
    → lookup j (pop_and_settle k value s).outgoing ≡ (if j == k then none else lookup j s.outgoing)
lookup-pop_and_settle j k value s =
    unfold pop_and_settle in ground (arith, lookup-erase j k s.outgoing)

settle_response :
    (k : ℕ) (value : Future) (s : MessageStateStore)
    → settle_outgoing (num (pos k)) value s ≡ ok (pop_and_settle k value s)
settle_response k value s = settle_outgoing_key (num (pos k)) k value s (unfold key_of in refl)

-- What a side is after it has read a frame.
pub record Took (frame : Json) (c t : Connection) : Type 0 where
  pub opened : t.queue.closed ≡ false
  pub tasks : All IsTask t.queue.items
  pub runners : All RunnerIsRequest t.requests
  pub more : (k : ℕ) → serving k t ≡ serving k c + one_if (asks k frame)
  pub fewer : (k : ℕ) → awaits k t ≡ (if responds k frame then 0 else awaits k c)
  pub lighter : side_load t < side_load c + weigh frame

with_task-Took :
    (task : RpcTask) (c : Connection)
    → IsServing c
    → IsTask (some task)
    → ((k : ℕ) → calls k (some task) ≡ asks k (obj task.message))
    → ((k : ℕ) → responds k (obj task.message) ≡ false)
    → weigh (obj task.message) ≡ 4
    → Took (obj task.message) c (with_task task c)
unfolding notify_observers
with_task-Took task c serves is_task same no_response heavy = record {
  opened = serves.opened;
  tasks = All-append IsTask c.queue.items _ serves.tasks (pair is_task tt);
  runners = serves.runners;
  more = λ k.
      rw (count-append (calls k) c.queue.items (some task ∷ []))
        (omega (arith, ap one_if (same k)));
  fewer = λ k. rw no_response refl;
  lighter = omega (arith, heavy, length-append c.queue.items (some task ∷ []));
}

with_settled-Took :
    (k : ℕ) (value : Future) (message : Fields) (c : Connection)
    → IsServing c
    → ((j : ℕ) → asks j (obj message) ≡ false)
    → ((j : ℕ) → responds j (obj message) ≡ (j == k))
    → weigh (obj message) ≡ 1
    → Took (obj message) c (with_settled k value message c)
unfolding notify_observers
with_settled-Took k value message c serves no_request response light = record {
  opened = serves.opened;
  tasks = serves.tasks;
  runners = serves.runners;
  more = λ j. rw no_request (omega arith);
  fewer = λ j. rw (response, lookup-pop_and_settle) (ground arith);
  lighter = omega (arith, light);
}

module _ (loads : String → Option Json) where
  receive_call :
      (line : String) (k : ℕ) (method : String) (params : Json) (c : Connection)
      → c.queue.closed ≡ false
      → loads line ≡ some (obj (request_fields k method params))
      → receive_line loads line c
        ≡ (none, with_task (record { kind = request; message = request_fields k method params }) c)
  unfolding receive_line process_message process_fields publish notify_observers get_field
  receive_call line k method params c opened reads = ground (arith, reads, opened)

  receive_note :
      (line : String) (method : String) (params : Json) (c : Connection)
      → c.queue.closed ≡ false
      → loads line ≡ some (obj (notification_fields method params))
      → receive_line loads line c ≡ (
        none,
        with_task (record { kind = notification; message = notification_fields method params }) c,
      )
  unfolding receive_line process_message process_fields publish notify_observers get_field
  receive_note line method params c opened reads = ground (arith, reads, opened)

  receive_verdict :
      (line : String) (k : ℕ) (message : Fields) (value : Future) (c : Connection)
      → loads line ≡ some (obj message)
      → get_field "id" message ≡ some (num (pos k))
      → has_method message ≡ false
      → verdict message ≡ some value
      → receive_line loads line c ≡ (none, with_settled k value message c)
  receive_verdict line k message value c reads named other says =
      rw
        (
          receive_response loads line message (num (pos k)) c reads named other,
          handle_response-eq-settled_by,
          says,
          settle_response k value (notify_observers incoming (obj message) c).store,
        )
        (unfold notify_observers in refl)

  -- A side that serves takes each frame of a wire: no frame ends its receive loop by an exception.
  pub receive_line-Took :
      (exn_text : Exn → String) (to_str : Json → String) (line : String) (frame : Json)
      (c : Connection)
      → IsServing c
      → IsFrame loads exn_text to_str frame
      → loads line ≡ some frame
      → ((receive_line loads line c).0 ≡ none) × Took frame c (receive_line loads line c).1
  unfolding get_field
  receive_line-Took exn_text to_str line _ c serves (a_request _ (asked k method params)) reads =
      rw (receive_call line k method params c serves.opened reads) (
        refl,
        with_task-Took (record { kind = request; message = request_fields k method params }) c
            serves (call _ (asked k method params)) (λ j. refl)
            (λ j. (asks-request_fields j k method params).1) refl,
      )
  receive_line-Took exn_text to_str line _ c serves (a_notification _ (noted method params)) reads =
      rw (receive_note line method params c serves.opened reads) (
        refl,
        with_task-Took (record { kind = notification; message = notification_fields method params })
            c serves (note _ (noted method params))
            (λ j. sym (asks-notification_fields j method params).0)
            (λ j. (asks-notification_fields j method params).1) refl,
      )
  receive_line-Took exn_text to_str line _ c serves (a_response k outcome value says) reads =
      let (named, other, states, _) =
        response_to_lem loads exn_text to_str k "" (num (pos k)) outcome value says in
      rw
        (receive_verdict line k (response_to loads exn_text to_str k outcome) value c reads named
          other states)
        (
          refl,
          with_settled-Took k value (response_to loads exn_text to_str k outcome) c serves
              (λ j. (asks-response_to loads exn_text to_str j k outcome value says).0)
              (λ j. (asks-response_to loads exn_text to_str j k outcome value says).1)
              (ground (arith, other)),
        )
