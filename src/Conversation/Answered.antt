-- ===== src/Conversation/Answered.antt =====
-- What becomes of the requests of a conversation.
use agent_client_protocol_py.Base.{
  ◌≡◌, ℕ, nat_eq, String, Option, none, some, List, [], ◌∷◌, Json, arith,
}
use agent_client_protocol_py.Base.Lists.{get_elem?}
use agent_client_protocol_py.Exceptions.{Exn}
use agent_client_protocol_py.Store.{unresolved}
use agent_client_protocol_py.Connection.{Connection, receive_line}
use agent_client_protocol_py.Conversation.State.{Conversation, new_conversation, Reach}
use agent_client_protocol_py.Conversation.Side.{awaits, IsServing}
use agent_client_protocol_py.Conversation.Whole.{
  found, IsWhole, Reach-IsWhole, new_conversation-IsWhole,
}
use agent_client_protocol_py.Conversation.Reading.{receive_line-Took}

-- Nothing is on a wire, in a queue or with a runner.
pub record IsQuiet (s : Conversation) : Type 0 where
  pub to_left : s.to_left ≡ []
  pub to_right : s.to_right ≡ []
  pub left_queue : s.left.queue.items ≡ []
  pub right_queue : s.right.queue.items ≡ []
  pub left_requests : s.left.requests ≡ []
  pub right_requests : s.right.requests ≡ []

abbrev pub IsPending : Connection → ℕ → Type 0
IsPending c f = get_elem? c.store.futures f ≡ some unresolved

-- Either side, with the wire that it reads.
pub data Reading (t : Conversation) : Connection → List Json → Type 0 where
  at_left : Reading t t.left t.to_left
  at_right : Reading t t.right t.to_right

nothing_awaited :
    (c : Connection) → IsServing c → ((k : ℕ) → awaits k c ≡ 0) → (f : ℕ) → ¬ IsPending c f
nothing_awaited c h idle f waiting =
    let (id, m, there, own) = h.sound.tracked.entry f waiting in
    let none_awaited = idle id in ground (arith, none_awaited, there)

module _ (loads : String → Option Json) (exn_text : Exn → String) (to_str : Json → String) where
  pub reached-IsWhole :
      (on_left on_right : List ℕ) (t : Conversation)
      → Reach loads exn_text to_str (new_conversation on_left on_right) t
      → IsWhole loads exn_text to_str t
  reached-IsWhole on_left on_right t r =
      Reach-IsWhole loads exn_text to_str r
        (new_conversation-IsWhole loads exn_text to_str on_left on_right)

  -- Whatever two open connections have sent each other, read in lines within the reader's limit and
  -- served by handlers that return only values, and raise only errors with data, that JSON can
  -- write: a request that a side waits for is in exactly one place, once, which is the wire to the other side, the
  -- other side's queue, one of its runners, or a response on the wire back; and no request or
  -- response with an id that the side does not wait for is in any of these.
  pub found_once :
      (on_left on_right : List ℕ) (t : Conversation) (k : ℕ)
      → Reach loads exn_text to_str (new_conversation on_left on_right) t
      → (found k t.to_right t.right t.to_left ≡ awaits k t.left)
        × (found k t.to_left t.left t.to_right ≡ awaits k t.right)
  found_once on_left on_right t k r =
      let whole = reached-IsWhole on_left on_right t r in (whole.of_left k, whole.of_right k)

  -- When nothing is on a wire, in a queue or with a runner, no request is without its answer:
  -- no future of either side is pending.
  pub IsWhole-settled :
      (t : Conversation) (f : ℕ)
      → IsWhole loads exn_text to_str t
      → IsQuiet t
      → (¬ IsPending t.left f) × (¬ IsPending t.right f)
  IsWhole-settled t f whole quiet = (
    nothing_awaited t.left whole.left_serves
        (λ k.
          let there =
            rw (quiet.to_right, quiet.to_left, quiet.right_queue, quiet.right_requests) at
              whole.of_left k in
          omega (arith, there))
        f,
    nothing_awaited t.right whole.right_serves
        (λ k.
          let there =
            rw (quiet.to_right, quiet.to_left, quiet.left_queue, quiet.left_requests) at
              whole.of_right k in
          omega (arith, there))
        f,
  )

  -- In a conversation whose handlers have returned only values, and raised only errors with data,
  -- that JSON can write, no line that `readline` returns to a side and that `json.loads` reads as
  -- the next frame of the other side makes the side's receive loop end by an exception.
  pub receive_line-Reading :
      (on_left on_right : List ℕ) (t : Conversation) (side : Connection) (wire : List Json)
      (line : String) (frame : Json) (rest : List Json)
      → Reach loads exn_text to_str (new_conversation on_left on_right) t
      → Reading t side wire
      → wire ≡ frame ∷ rest
      → loads line ≡ some frame
      → (receive_line loads line side).0 ≡ none
  receive_line-Reading on_left on_right t _ _ line frame rest r at_left wire reads =
      let whole = reached-IsWhole on_left on_right t r in
      (receive_line-Took loads exn_text to_str line frame t.left whole.left_serves
        (rw wire at whole.left_frames).0 reads).0
  receive_line-Reading on_left on_right t _ _ line frame rest r at_right wire reads =
      let whole = reached-IsWhole on_left on_right t r in
      (receive_line-Took loads exn_text to_str line frame t.right whole.right_serves
        (rw wire at whole.right_frames).0 reads).0
