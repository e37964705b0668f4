-- ===== src/Conversation/Load.antt =====
-- How long the steps that serve can go on.
use mathlib.Core.List.{append_cancel_left, append-nil}
use agent_client_protocol_py.Base.{
  ◌≡◌, refl, sym, subst, ◌∙◌, ap, ℕ, ◌+◌, ◌<◌, ◌≤◌, String, Option, some, List, [], ◌∷◌, ◌++◌, Json,
  obj, Fields, arith,
}
use agent_client_protocol_py.Base.Lists.{get_elem?, drop_at, length, length-append}
use agent_client_protocol_py.Base.Counts.{total, total-append, length-drop_at}
use agent_client_protocol_py.Exceptions.{Exn}
use agent_client_protocol_py.Store.{Future, begin_incoming}
use agent_client_protocol_py.Queue.{RpcTask, RpcTaskKind, request, notification, task_done}
use agent_client_protocol_py.Connection.{
  Connection, HandlerOutcome, end_request, end_notification, start_runner,
}
use agent_client_protocol_py.Connection.Respond.{end_request_eq}
use agent_client_protocol_py.Peers.Responses.{arrives, response_to, response_to_lem}
use agent_client_protocol_py.Base.Counts.{All-get_elem?}
use agent_client_protocol_py.Conversation.State.{Conversation}
use agent_client_protocol_py.Conversation.Frames.{IsRequest, asked}
use agent_client_protocol_py.Conversation.Side.{weigh, side_load, IsServing, RunnerIsRequest}
use agent_client_protocol_py.Conversation.Serving.{taken, dispatch_task, finish_request_keeps}
use agent_client_protocol_py.Conversation.Reading.{receive_line-Took}
use agent_client_protocol_py.Conversation.Whole.{IsWhole, Step-IsWhole}
use agent_client_protocol_py.Conversation.Serve.{
  Serve, Serves, Runs, takes, answers_one, ends_one, left_serves, right_serves, left_takes,
  right_takes, stays, goes, Serves-Step,
}

abbrev pub load : Conversation → ℕ
load s = total weigh s.to_left + total weigh s.to_right + side_load s.left + side_load s.right

module _ (loads : String → Option Json) (exn_text : Exn → String) (to_str : Json → String) where
  start_runner-lighter :
      (kind : RpcTaskKind) (task : RpcTask) (rest : List (Option RpcTask)) (c : Connection)
      → c.queue.items ≡ some task ∷ rest
      → (side_load (start_runner kind task.message (taken rest c)) < side_load c)
        × ((start_runner kind task.message (taken rest c)).sent ≡ c.sent)
  unfolding task_done begin_incoming
  start_runner-lighter request task rest c e = (
    omega (
      arith,
      ap length e,
      length-append c.requests
          (record { message = task.message; entry = length c.store.incoming } ∷ []),
    ),
    refl,
  )
  start_runner-lighter notification task rest c e =
      (omega (arith, ap length e, length-append c.notifications (task.message ∷ [])), refl)

  end_request-lighter :
      (i entry : ℕ) (message : Fields) (outcome : HandlerOutcome) (value : Future) (c : Connection)
      → get_elem? c.requests i ≡ some (record { message = message; entry = entry })
      → arrives loads exn_text to_str outcome ≡ some value
      → IsRequest message
      → (frame : Json) × ((end_request loads exn_text to_str i outcome c).sent
          ≡ c.sent ++ (frame ∷ []))
        × (side_load (end_request loads exn_text to_str i outcome c) + weigh frame < side_load c)
  end_request-lighter i entry _ outcome value c found says (asked j method params) =
      let (queue, requests, _, sent, notifications) =
        finish_request_keeps loads exn_text to_str (record { message = _; entry = entry }) outcome
          (record c { requests = drop_at i c.requests }) in
      let (_, other, _, answer) =
        response_to_lem loads exn_text to_str j method params outcome value says in
      rw (end_request_eq loads exn_text to_str i _ outcome c found) (
        obj (response_to loads exn_text to_str j outcome),
        sent ∙ ap (λ fs. c.sent ++ fs) answer,
        rw (queue, requests, notifications)
            (ground (arith, other, length-drop_at c.requests i found)),
      )

  -- The frames of a move are those that the state shows, however it is written.
  lighter_with :
      (c t : Connection) (fs frames : List Json)
      → t.sent ≡ c.sent ++ fs
      → t.sent ≡ c.sent ++ frames
      → side_load t + total weigh fs < side_load c
      → side_load t + total weigh frames < side_load c
  lighter_with c t fs frames adds sent less =
      subst (λ fs. side_load t + total weigh fs < side_load c)
        (append_cancel_left c.sent fs frames (sym adds ∙ sent)) less

  Serve-lighter :
      {c t : Connection} (frames : List Json)
      → Serve loads exn_text to_str c t
      → IsServing c
      → t.sent ≡ c.sent ++ frames
      → side_load t + total weigh frames < side_load c
  unfolding end_notification
  Serve-lighter {c} {t} frames (takes task rest e) h sent =
      let (less, same) = start_runner-lighter task.kind task rest c e in
      let opened = dispatch_task task rest c e in
      lighter_with c t [] frames (rw opened (same ∙ sym (append-nil c.sent))) sent
        (rw opened (omega (arith, less)))
  Serve-lighter {c} {t} frames (answers_one i runner outcome value found says) h sent =
      let (frame, adds, less) =
        end_request-lighter i runner.entry runner.message outcome value c found says
          (All-get_elem? RunnerIsRequest c.requests i h.runners found) in
      lighter_with c t (frame ∷ []) frames adds sent (omega (arith, less))
  Serve-lighter {c} {t} frames (ends_one i message outcome found) h sent =
      lighter_with c t [] frames (sym (append-nil c.sent)) sent
        (omega (arith, length-drop_at c.notifications i found))

  Serves-load :
      {s t : Conversation}
      → Serves loads exn_text to_str s t
      → IsWhole loads exn_text to_str s
      → load t < load s
  Serves-load {s} (left_serves frames m sent) h =
      let less = Serve-lighter frames m h.left_serves sent in
      omega (arith, less, total-append weigh s.to_right frames)
  Serves-load {s} (right_serves frames m sent) h =
      let less = Serve-lighter frames m h.right_serves sent in
      omega (arith, less, total-append weigh s.to_left frames)
  Serves-load {s} (left_takes line frame rest wire reads) h =
      let (_, took) =
        receive_line-Took loads exn_text to_str line frame s.left h.left_serves
          (rw wire at h.left_frames).0 reads in
      omega (arith, took.lighter, ap (total weigh) wire)
  Serves-load {s} (right_takes line frame rest wire reads) h =
      let (_, took) =
        receive_line-Took loads exn_text to_str line frame s.right h.right_serves
          (rw wire at h.right_frames).0 reads in
      omega (arith, took.lighter, ap (total weigh) wire)

  pub Runs-load :
      {s t : Conversation} {n : ℕ}
      → Runs loads exn_text to_str s n t
      → IsWhole loads exn_text to_str s
      → IsWhole loads exn_text to_str t × (n + load t ≤ load s)
  Runs-load stays h = (h, omega arith)
  Runs-load (goes r st) h =
      let (whole, so_far) = Runs-load r h in
      (
        Step-IsWhole loads exn_text to_str (Serves-Step loads exn_text to_str st) whole,
        omega (arith, so_far, Serves-load st whole),
      )
