-- ===== src/Conversation/Tests.antt =====
-- The theorems on conversations, after one request of the left side.
use agent_client_protocol_py.Base.{
  ◌≡◌, refl, inl, ℕ, ◌≤◌, String, true, none, some, [], ◌∷◌, Json, null, bool, Fields, obj,
  json_value, ok,
}
use agent_client_protocol_py.Base.Dict.{insert}
use agent_client_protocol_py.Exceptions.{Exn}
use agent_client_protocol_py.Store.{Future, unresolved, resolved}
use agent_client_protocol_py.Connection.{
  Connection, new_connection, send_request, request_fields, dumps, HandlerOutcome, returned,
  receive_line,
}
use agent_client_protocol_py.Peers.Responses.{arrives}
use agent_client_protocol_py.Conversation.State.{
  Conversation, new_conversation, request_sent, left_moves, Reach, here, next,
}
use agent_client_protocol_py.Conversation.Side.{awaits}
use agent_client_protocol_py.Conversation.Whole.{found}
use agent_client_protocol_py.Conversation.Answered.{
  IsQuiet, IsPending, at_right, found_once, receive_line-Reading,
}
use agent_client_protocol_py.Conversation.Serve.{Runs, Serves, stays, goes, right_takes}
use agent_client_protocol_py.Conversation.Load.{load}
use agent_client_protocol_py.Conversation.Drain.{Runs-bounded, served, pending-Serves}
use agent_client_protocol_py.Conversation.Codec.{read, write, read-write}

abbrev exn_text : Exn → String
exn_text e = "failed"

abbrev to_str : Json → String
to_str value = "text"

abbrev handle : Fields → HandlerOutcome
handle message = returned (json_value (bool true))

abbrev future : Fields → Future
future message = resolved (bool true)

abbrev idle : Connection
idle = new_connection []

abbrev frame : Json
frame = obj (request_fields 0 "initialize" null)

abbrev waiting : Connection
waiting = record idle {
  next_request_id = 1;
  store = record {
    futures = unresolved ∷ [];
    outgoing = (0, record { request_id = 0; method = "initialize"; future = 0 }) ∷ [];
    incoming = [];
  };
  sent = frame ∷ [];
}

abbrev asked : Conversation
asked = record (new_conversation [] []) { left = waiting; to_right = frame ∷ [] }

sends : send_request "initialize" null idle ≡ ok (0, waiting)
unfolding send_request dumps insert
sends = refl

asked_reached : Reach read exn_text to_str (new_conversation [] []) asked
asked_reached = next here (left_moves (frame ∷ []) (request_sent "initialize" null 0 sends) refl)

says : (message : Fields) → arrives read exn_text to_str (handle message) ≡ some (future message)
says message = refl

found_once_example :
    (found 0 asked.to_right asked.right asked.to_left ≡ awaits 0 asked.left)
    × (found 0 asked.to_left asked.left asked.to_right ≡ awaits 0 asked.right)
found_once_example = found_once read exn_text to_str [] [] asked 0 asked_reached

receive_line-Reading_example : (receive_line read (write frame) idle).0 ≡ none
receive_line-Reading_example =
    receive_line-Reading read exn_text to_str [] [] asked idle (frame ∷ []) (write frame) frame []
      asked_reached at_right refl (read-write frame)

served_example :
    (t : Conversation) × (n : ℕ) × Runs read exn_text to_str asked n t
    × (n ≤ load asked)
    × IsQuiet t
    × ((f : ℕ) → (¬ IsPending t.left f) × (¬ IsPending t.right f))
served_example =
    served read exn_text to_str write handle future [] [] asked read-write says asked_reached

abbrev taken : Conversation
taken = record asked { right = (receive_line read (write frame) idle).1; to_right = [] }

one_step : Runs read exn_text to_str asked 1 taken
one_step = goes stays (right_takes (write frame) frame [] refl (read-write frame))

Runs-bounded_example : 1 ≤ load asked
Runs-bounded_example = Runs-bounded read exn_text to_str [] [] asked taken 1 asked_reached one_step

pending-Serves_example : (u : Conversation) × Serves read exn_text to_str taken u
pending-Serves_example =
    pending-Serves read exn_text to_str write handle future [] [] asked taken 1 0 read-write says
      asked_reached one_step (inl refl)
