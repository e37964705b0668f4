-- ===== src/Conversation/Serve.antt =====
-- The steps that serve what has been sent: no new request, notification or observer, no cancelled
-- caller.
use agent_client_protocol_py.Base.{◌≡◌, ℕ, suc, String, Option, some, List, ◌∷◌, ◌++◌, Json, Fields}
use agent_client_protocol_py.Base.Lists.{get_elem?}
use agent_client_protocol_py.Exceptions.{Exn}
use agent_client_protocol_py.Store.{Future}
use agent_client_protocol_py.Queue.{RpcTask}
use agent_client_protocol_py.Connection.{
  Connection, Runner, HandlerOutcome, dispatch, end_request, end_notification, receive_line,
}
use agent_client_protocol_py.Peers.Responses.{arrives}
use agent_client_protocol_py.Conversation.State.{
  Conversation, Move, dispatched, request_ended, notification_ended, Step, left_moves, right_moves,
  left_reads, right_reads,
}

module _ (loads : String → Option Json) (exn_text : Exn → String) (to_str : Json → String) where
  -- The moves that serve: a round of the dispatcher with a task to take, and the ends of runners.
  pub data Serve (c : Connection) : Connection → Type 0 where
    takes :
        (task : RpcTask) (rest : List (Option RpcTask))
        → c.queue.items ≡ some task ∷ rest
        → Serve c (dispatch c)
    answers_one :
        (i : ℕ) (runner : Runner) (outcome : HandlerOutcome) (value : Future)
        → get_elem? c.requests i ≡ some runner
        → arrives loads exn_text to_str outcome ≡ some value
        → Serve c (end_request loads exn_text to_str i outcome c)
    ends_one :
        (i : ℕ) (message : Fields) (outcome : HandlerOutcome)
        → get_elem? c.notifications i ≡ some message
        → Serve c (end_notification i outcome c)

  pub data Serves (s : Conversation) : Conversation → Type 0 where
    left_serves :
        {t : Connection} (frames : List Json)
        → Serve s.left t
        → t.sent ≡ s.left.sent ++ frames
        → Serves s (record s { left = t; to_right = s.to_right ++ frames })
    right_serves :
        {t : Connection} (frames : List Json)
        → Serve s.right t
        → t.sent ≡ s.right.sent ++ frames
        → Serves s (record s { right = t; to_left = s.to_left ++ frames })
    left_takes :
        (line : String) (frame : Json) (rest : List Json)
        → s.to_left ≡ frame ∷ rest
        → loads line ≡ some frame
        → Serves s (record s { left = (receive_line loads line s.left).1; to_left = rest })
    right_takes :
        (line : String) (frame : Json) (rest : List Json)
        → s.to_right ≡ frame ∷ rest
        → loads line ≡ some frame
        → Serves s (record s { right = (receive_line loads line s.right).1; to_right = rest })

  -- A run of the steps that serve, with their number.
  pub data Runs (s : Conversation) : ℕ → Conversation → Type 0 where
    stays : Runs s 0 s
    goes : {n : ℕ} {t u : Conversation} → Runs s n t → Serves t u → Runs s (suc n) u

  pub Serve-Move : {c t : Connection} → Serve c t → Move loads exn_text to_str c t
  Serve-Move (takes task rest e) = dispatched
  Serve-Move (answers_one i runner outcome value e says) = request_ended i outcome value says
  Serve-Move (ends_one i message outcome e) = notification_ended i outcome

  pub Serves-Step : {s t : Conversation} → Serves s t → Step loads exn_text to_str s t
  Serves-Step (left_serves frames m sent) = left_moves frames (Serve-Move m) sent
  Serves-Step (right_serves frames m sent) = right_moves frames (Serve-Move m) sent
  Serves-Step (left_takes line frame rest wire reads) = left_reads line frame rest wire reads
  Serves-Step (right_takes line frame rest wire reads) = right_reads line frame rest wire reads
