-- ===== src/Conversation/State.antt =====
-- The steps of two connections and of the wires between them, in any order.
use agent_client_protocol_py.Base.{◌≡◌, ℕ, String, Option, some, List, [], ◌∷◌, ◌++◌, Json, ok}
use agent_client_protocol_py.Exceptions.{Exn}
use agent_client_protocol_py.Store.{Future, abandon}
use agent_client_protocol_py.Connection.{
  Connection, new_connection, send_request, send_notification, add_observer, dispatch, end_request,
  end_notification, receive_line, HandlerOutcome,
}
use agent_client_protocol_py.Peers.Responses.{arrives}

-- `to_right` holds the frames that the left side has sent and the right side has not read.
pub record Conversation : Type 0 where
  pub left : Connection
  pub right : Connection
  pub to_left : List Json
  pub to_right : List Json

abbrev pub new_conversation : List ℕ → List ℕ → Conversation
new_conversation on_left on_right = record {
  left = new_connection on_left;
  right = new_connection on_right;
  to_left = [];
  to_right = [];
}

module _ (loads : String → Option Json) (exn_text : Exn → String) (to_str : Json → String) where
  -- What a side that is open does of itself. A handler of a request does not return a value that
  -- JSON cannot write.
  pub data Move (s : Connection) : Connection → Type 0 where
    request_sent :
        {t : Connection} (method : String) (params : Json) (f : ℕ)
        → send_request method params s ≡ ok (f, t)
        → Move s t
    notification_sent :
        {t : Connection} (method : String) (params : Json)
        → send_notification method params s ≡ ok t
        → Move s t
    observer_added : (observer : ℕ) → Move s (add_observer observer s)
    dispatched : Move s (dispatch s)
    request_ended :
        (i : ℕ) (outcome : HandlerOutcome) (value : Future)
        → arrives loads exn_text to_str outcome ≡ some value
        → Move s (end_request loads exn_text to_str i outcome s)
    notification_ended : (i : ℕ) (outcome : HandlerOutcome) → Move s (end_notification i outcome s)
    caller_cancelled : (f : ℕ) → Move s (record s { store = abandon f s.store })

  -- A move's frames go to the end of the side's wire; a side reads the first frame of the other's,
  -- in a line that `readline` returns, so that is within its limit, and that `json.loads` reads as
  -- this frame.
  pub data Step (s : Conversation) : Conversation → Type 0 where
    left_moves :
        {t : Connection} (frames : List Json)
        → Move s.left t
        → t.sent ≡ s.left.sent ++ frames
        → Step s (record s { left = t; to_right = s.to_right ++ frames })
    right_moves :
        {t : Connection} (frames : List Json)
        → Move s.right t
        → t.sent ≡ s.right.sent ++ frames
        → Step s (record s { right = t; to_left = s.to_left ++ frames })
    left_reads :
        (line : String) (frame : Json) (rest : List Json)
        → s.to_left ≡ frame ∷ rest
        → loads line ≡ some frame
        → Step s (record s { left = (receive_line loads line s.left).1; to_left = rest })
    right_reads :
        (line : String) (frame : Json) (rest : List Json)
        → s.to_right ≡ frame ∷ rest
        → loads line ≡ some frame
        → Step s (record s { right = (receive_line loads line s.right).1; to_right = rest })

  pub data Reach (s : Conversation) : Conversation → Type 0 where
    here : Reach s s
    next : {t u : Conversation} → Reach s t → Step t u → Reach s u
