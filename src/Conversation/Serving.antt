-- ===== src/Conversation/Serving.antt =====
-- What a side does of itself: the dispatcher's rounds and the ends of the runners.
use mathlib.Core.List.{append-nil}
use agent_client_protocol_py.Base.{
  ◌≡◌, refl, sym, ap, ◌∙◌, ℕ, nat_eq, String, Option, none, some, List, [], ◌∷◌, ◌++◌, Json, obj,
  Fields, Value, Result, err, arith, ok,
}
use agent_client_protocol_py.Base.Lists.{pair, get_elem?, drop_at}
use agent_client_protocol_py.Base.Counts.{
  one_if, count, count-append, count-drop_at, All-append, All-get_elem?, All-drop_at,
}
use agent_client_protocol_py.Exceptions.{Exn}
use agent_client_protocol_py.Store.{Future, begin_incoming, complete_incoming, fail_incoming}
use agent_client_protocol_py.Queue.{RpcTask, anext, task_done}
use agent_client_protocol_py.Connection.{
  Connection, Runner, HandlerOutcome, request_fields, send, dumps, notify_observers, dispatch,
  end_request, finish_request, finish_with, run_request, start_runner, send_error,
  send_internal_error,
}
use agent_client_protocol_py.Connection.Respond.{answers, end_request_eq, run_request_lem}
use agent_client_protocol_py.Peers.Responses.{arrives, response_to, response_to_lem}
use agent_client_protocol_py.Conversation.Frames.{
  IsRequest, asked, IsTask, call, note, a_response, asks-request_fields, asks-response_to,
}
use agent_client_protocol_py.Conversation.Sending.{Sends, quiet-Sends}
use agent_client_protocol_py.Conversation.Side.{calls, runs, RunnerIsRequest, IsServing}

dispatch_empty : (c : Connection) → c.queue.items ≡ [] → dispatch c ≡ c
dispatch_empty c e = unfold dispatch anext in ground (arith, e)

abbrev pub taken : List (Option RpcTask) → Connection → Connection
taken rest c = record c { queue = task_done (record c.queue { items = rest }) }

pub dispatch_task :
    (task : RpcTask) (rest : List (Option RpcTask)) (c : Connection)
    → c.queue.items ≡ some task ∷ rest
    → dispatch c ≡ start_runner task.kind task.message (taken rest c)
dispatch_task task rest c e = unfold dispatch anext in ground (arith, e)

pub no_mark : ¬ IsTask none
no_mark t = elim t [ ]

finish_with_keeps :
    (entry : ℕ) (result : Result Exn Value) (c : Connection)
    → ((finish_with entry (result, c)).queue ≡ c.queue)
      × ((finish_with entry (result, c)).requests ≡ c.requests)
      × ((finish_with entry (result, c)).store.outgoing ≡ c.store.outgoing)
      × ((finish_with entry (result, c)).sent ≡ c.sent)
      × ((finish_with entry (result, c)).notifications ≡ c.notifications)
unfolding finish_with complete_incoming fail_incoming
finish_with_keeps entry (ok value) c = (refl, refl, refl, refl, refl)
finish_with_keeps entry (err e) c = (refl, refl, refl, refl, refl)

module _ (loads : String → Option Json) (exn_text : Exn → String) (to_str : Json → String) where
  run_request_keeps :
      (message : Fields) (outcome : HandlerOutcome) (c : Connection)
      → ((run_request loads exn_text to_str message outcome c).1.queue ≡ c.queue)
        × ((run_request loads exn_text to_str message outcome c).1.notifications ≡ c.notifications)
  unfolding run_request send_error send_internal_error send notify_observers dumps
  run_request_keeps message outcome c = (ground arith, ground arith)

  pub finish_request_keeps :
      (runner : Runner) (outcome : HandlerOutcome) (c : Connection)
      → ((finish_request loads exn_text to_str runner outcome c).queue ≡ c.queue)
        × ((finish_request loads exn_text to_str runner outcome c).requests ≡ c.requests)
        × ((finish_request loads exn_text to_str runner outcome c).store.outgoing
            ≡ c.store.outgoing)
        × ((finish_request loads exn_text to_str runner outcome c).sent
            ≡ c.sent ++ answers loads exn_text to_str runner.message outcome)
        × ((finish_request loads exn_text to_str runner outcome c).notifications ≡ c.notifications)
  unfolding finish_request
  finish_request_keeps runner outcome c =
      let (_, sends, store, requests, _) =
        run_request_lem loads exn_text to_str runner.message outcome c in
      let (queue, notifications) = run_request_keeps runner.message outcome c in
      let (r, c') = run_request loads exn_text to_str runner.message outcome c in
      let (same_queue, same_requests, outgoing, sent, same_notifications) =
        finish_with_keeps runner.entry r c' in
      (
        same_queue ∙ queue,
        same_requests ∙ requests,
        outgoing ∙ ap (λ s. s.outgoing) store,
        sent ∙ sends,
        same_notifications ∙ notifications,
      )

  ended-Sends :
      (i entry : ℕ) (message : Fields) (outcome : HandlerOutcome) (value : Future) (c : Connection)
      → IsServing c
      → arrives loads exn_text to_str outcome ≡ some value
      → get_elem? c.requests i ≡ some (record { message = message; entry = entry })
      → IsRequest message
      → Sends loads exn_text to_str c (
          finish_request loads exn_text to_str
            (record { message = message; entry = entry })
            outcome
            (record c { requests = drop_at i c.requests }))
  ended-Sends i entry _ outcome value c h says found (asked j method params) =
      let (queue, requests, outgoing, sent, _) =
        finish_request_keeps (record { message = request_fields j method params; entry = entry })
          outcome (record c { requests = drop_at i c.requests }) in
      let (_, _, _, answer) =
        response_to_lem loads exn_text to_str j method params outcome value says in
      (
        obj (response_to loads exn_text to_str j outcome) ∷ [],
        sent ∙ ap (λ fs. c.sent ++ fs) answer,
        record {
          opened = rw queue h.opened;
          tasks = rw queue h.tasks;
          runners = rw requests (All-drop_at RunnerIsRequest c.requests i h.runners);
          framed = pair (a_response j outcome value says) tt;
          serves = λ k.
              let asks_it = ap one_if (asks-request_fields k j method params).0 in
              let (_, answers_it) = asks-response_to loads exn_text to_str k j outcome value says in
              rw (queue, requests)
                (omega (
                  arith,
                  asks_it,
                  ap one_if answers_it,
                  count-drop_at (runs k) c.requests i found,
                ));
          waits_for = λ k.
              let (no_ask, _) = asks-response_to loads exn_text to_str k j outcome value says in
              rw outgoing (omega (arith, ap one_if no_ask));
        },
      )

  end_request-none :
      (i : ℕ) (outcome : HandlerOutcome) (c : Connection)
      → get_elem? c.requests i ≡ none
      → end_request loads exn_text to_str i outcome c ≡ c
  end_request-none i outcome c e = unfold end_request in ground (arith, e)

  pub end_request-Sends :
      (i : ℕ) (outcome : HandlerOutcome) (value : Future) (c : Connection)
      → IsServing c
      → arrives loads exn_text to_str outcome ≡ some value
      → Sends loads exn_text to_str c (end_request loads exn_text to_str i outcome c)
  end_request-Sends i outcome value c h says = go (get_elem? c.requests i) refl
    where
      go :
          (o : Option Runner)
          → get_elem? c.requests i ≡ o
          → Sends loads exn_text to_str c (end_request loads exn_text to_str i outcome c)
      go none e =
          rw (end_request-none i outcome c e)
            (quiet-Sends loads exn_text to_str c c h refl refl refl refl)
      go (some runner) e = rw (end_request_eq loads exn_text to_str i runner outcome c e) (
          ended-Sends i runner.entry runner.message outcome value c h says e
            (All-get_elem? RunnerIsRequest c.requests i h.runners e))

  start_runner-Sends :
      (task : RpcTask) (rest : List (Option RpcTask)) (c : Connection)
      → IsServing c
      → c.queue.items ≡ some task ∷ rest
      → IsTask (some task)
      → Sends loads exn_text to_str c (start_runner task.kind task.message (taken rest c))
  unfolding task_done begin_incoming
  start_runner-Sends task rest c h e (call message is_request) = (
    [],
    sym (append-nil c.sent),
    record {
      opened = h.opened;
      tasks = (rw e at h.tasks).1;
      runners = All-append RunnerIsRequest c.requests _ h.runners (pair is_request tt);
      framed = tt;
      serves = λ k. rw (count-append (runs k) c.requests) (omega (arith, ap (count (calls k)) e));
      waits_for = λ k. omega arith;
    },
  )
  start_runner-Sends task rest c h e (note message is_notification) = (
    [],
    sym (append-nil c.sent),
    record {
      opened = h.opened;
      tasks = (rw e at h.tasks).1;
      runners = h.runners;
      framed = tt;
      serves = λ k. omega (arith, ap (count (calls k)) e);
      waits_for = λ k. omega arith;
    },
  )

  pub dispatch-Sends : (c : Connection) → IsServing c → Sends loads exn_text to_str c (dispatch c)
  dispatch-Sends c h = go c.queue.items refl
    where
      go :
          (items : List (Option RpcTask))
          → c.queue.items ≡ items
          → Sends loads exn_text to_str c (dispatch c)
      go [] e =
          rw (dispatch_empty c e) (quiet-Sends loads exn_text to_str c c h refl refl refl refl)
      go (none ∷ rest) e = absurd (no_mark (rw e at h.tasks).0)
      go (some task ∷ rest) e =
          rw (dispatch_task task rest c e) (start_runner-Sends task rest c h e (rw e at h.tasks).0)
