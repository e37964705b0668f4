-- ===== src/Conversation/Whole.antt =====
-- Where each request of a conversation is.
use agent_client_protocol_py.Base.{
  ◌≡◌, refl, ℕ, nat_eq, ◌+◌, String, Bool, true, false, if◌then◌else◌, Option, List, ◌∷◌, ◌++◌,
  Json, arith,
}
use agent_client_protocol_py.Base.Dict.{lookup}
use agent_client_protocol_py.Base.Lists.{All}
use agent_client_protocol_py.Base.Counts.{one_if, count, count-append, All-append}
use agent_client_protocol_py.Exceptions.{Exn}
use agent_client_protocol_py.Connection.{Connection, new_connection, receive_line}
use agent_client_protocol_py.Connection.Steps.{IsSound, receive_line-IsSound}
use agent_client_protocol_py.Connection.Reach.{new_connection-IsSound}
use agent_client_protocol_py.Conversation.State.{
  Conversation, new_conversation, Step, left_moves, right_moves, left_reads, right_reads, Reach,
  here, next,
}
use agent_client_protocol_py.Conversation.Frames.{asks, responds, IsFrame}
use agent_client_protocol_py.Conversation.Side.{serving, is_some, awaits, IsServing}
use agent_client_protocol_py.Conversation.Sending.{Moved}
use agent_client_protocol_py.Conversation.Reading.{Took, receive_line-Took}
use agent_client_protocol_py.Conversation.Moving.{Move-Moved, Move-IsSound}

-- How often the request `k` of a side is found: on the wire to the other side, in its queue or with
-- one of its runners, and as a response on the wire back.
abbrev pub found : ℕ → List Json → Connection → List Json → ℕ
found k to_server server back =
    count (asks k) to_server + serving k server + count (responds k) back

-- A response takes off the one that its request counts for.
read_off :
    (responding waiting : Bool) (n rest : ℕ)
    → n + one_if responding ≡ one_if waiting
    → rest ≡ (if responding then 0 else one_if waiting)
    → n ≡ rest
read_off true true n rest h e = omega (arith, h, e)
read_off true false n rest h e = omega (arith, h, e)
read_off false true n rest h e = omega (arith, h, e)
read_off false false n rest h e = omega (arith, h, e)

module _ (loads : String → Option Json) (exn_text : Exn → String) (to_str : Json → String) where
  pub record IsWhole (s : Conversation) : Type 0 where
    pub left_serves : IsServing s.left
    pub right_serves : IsServing s.right
    pub left_frames : All (IsFrame loads exn_text to_str) s.to_left
    pub right_frames : All (IsFrame loads exn_text to_str) s.to_right
    pub of_left : (k : ℕ) → found k s.to_right s.right s.to_left ≡ awaits k s.left
    pub of_right : (k : ℕ) → found k s.to_left s.left s.to_right ≡ awaits k s.right

  Moved-IsServing :
      (frames : List Json) (c t : Connection)
      → Moved loads exn_text to_str frames c t
      → IsSound t
      → IsServing t
  Moved-IsServing frames c t moved sound = record {
    opened = moved.opened;
    tasks = moved.tasks;
    runners = moved.runners;
    sound = sound;
  }

  -- The wires after a move.
  found-Moved :
      (frames : List Json) (c t other : Connection) (wire back : List Json) (k : ℕ)
      → Moved loads exn_text to_str frames c t
      → found k wire other back ≡ awaits k c
      → found k back c wire ≡ awaits k other
      → (found k (wire ++ frames) other back ≡ awaits k t)
        × (found k back t (wire ++ frames) ≡ awaits k other)
  found-Moved frames c t other wire back k moved own theirs = (
    omega (arith, count-append (asks k) wire frames, moved.waits_for k),
    omega (arith, count-append (responds k) wire frames, moved.serves k),
  )

  -- The wires after a frame is read.
  found-Took :
      (frame : Json) (c t other : Connection) (wire rest : List Json) (k : ℕ)
      → Took frame c t
      → found k wire other (frame ∷ rest) ≡ awaits k c
      → found k (frame ∷ rest) c wire ≡ awaits k other
      → (found k wire other rest ≡ awaits k t) × (found k rest t wire ≡ awaits k other)
  found-Took frame c t other wire rest k took own theirs = (
    read_off (responds k frame) (is_some (lookup k c.store.outgoing)) (found k wire other rest)
        (awaits k t) (omega (arith, own)) (took.fewer k),
    omega (arith, took.more k),
  )

  Took-IsServing : (frame : Json) (c t : Connection) → Took frame c t → IsSound t → IsServing t
  Took-IsServing frame c t took sound = record {
    opened = took.opened;
    tasks = took.tasks;
    runners = took.runners;
    sound = sound;
  }

  pub Step-IsWhole : {s t : Conversation} → Step loads exn_text to_str s t → IsWhole s → IsWhole t
  Step-IsWhole {s} (left_moves {t = t} frames m sent) h =
      let moved = Move-Moved loads exn_text to_str frames m sent h.left_serves in
      let counts = λ (k : ℕ).
        found-Moved frames s.left t s.right s.to_right s.to_left k moved (h.of_left k)
          (h.of_right k) in
      record {
        left_serves =
            Moved-IsServing frames s.left t moved
              (Move-IsSound loads exn_text to_str m h.left_serves.sound);
        right_serves = h.right_serves;
        left_frames = h.left_frames;
        right_frames =
            All-append (IsFrame loads exn_text to_str) s.to_right frames h.right_frames
              moved.framed;
        of_left = λ k. (counts k).0;
        of_right = λ k. (counts k).1;
      }
  Step-IsWhole {s} (right_moves {t = t} frames m sent) h =
      let moved = Move-Moved loads exn_text to_str frames m sent h.right_serves in
      let counts = λ (k : ℕ).
        found-Moved frames s.right t s.left s.to_left s.to_right k moved (h.of_right k)
          (h.of_left k) in
      record {
        left_serves = h.left_serves;
        right_serves =
            Moved-IsServing frames s.right t moved
              (Move-IsSound loads exn_text to_str m h.right_serves.sound);
        left_frames =
            All-append (IsFrame loads exn_text to_str) s.to_left frames h.left_frames moved.framed;
        right_frames = h.right_frames;
        of_left = λ k. (counts k).1;
        of_right = λ k. (counts k).0;
      }
  Step-IsWhole {s} (left_reads line frame rest wire reads) h =
      let framed = rw wire at h.left_frames in
      let (_, took) =
        receive_line-Took loads exn_text to_str line frame s.left h.left_serves framed.0 reads in
      let counts = λ (k : ℕ).
        found-Took frame s.left (receive_line loads line s.left).1 s.right s.to_right rest k took
          (rw wire at h.of_left k) (rw wire at h.of_right k) in
      record {
        left_serves =
            Took-IsServing frame s.left _ took
              (receive_line-IsSound loads line s.left h.left_serves.sound);
        right_serves = h.right_serves;
        left_frames = framed.1;
        right_frames = h.right_frames;
        of_left = λ k. (counts k).0;
        of_right = λ k. (counts k).1;
      }
  Step-IsWhole {s} (right_reads line frame rest wire reads) h =
      let framed = rw wire at h.right_frames in
      let (_, took) =
        receive_line-Took loads exn_text to_str line frame s.right h.right_serves framed.0 reads in
      let counts = λ (k : ℕ).
        found-Took frame s.right (receive_line loads line s.right).1 s.left s.to_left rest k took
          (rw wire at h.of_right k) (rw wire at h.of_left k) in
      record {
        left_serves = h.left_serves;
        right_serves =
            Took-IsServing frame s.right _ took
              (receive_line-IsSound loads line s.right h.right_serves.sound);
        left_frames = h.left_frames;
        right_frames = framed.1;
        of_left = λ k. (counts k).1;
        of_right = λ k. (counts k).0;
      }

  new_connection-IsServing : (observers : List ℕ) → IsServing (new_connection observers)
  new_connection-IsServing observers = record {
    opened = refl;
    tasks = tt;
    runners = tt;
    sound = new_connection-IsSound loads exn_text to_str observers;
  }

  pub new_conversation-IsWhole :
      (on_left on_right : List ℕ) → IsWhole (new_conversation on_left on_right)
  unfolding lookup
  new_conversation-IsWhole on_left on_right = record {
    left_serves = new_connection-IsServing on_left;
    right_serves = new_connection-IsServing on_right;
    left_frames = tt;
    right_frames = tt;
    of_left = λ k. refl;
    of_right = λ k. refl;
  }

  pub Reach-IsWhole : {s t : Conversation} → Reach loads exn_text to_str s t → IsWhole s → IsWhole t
  Reach-IsWhole here h = h
  Reach-IsWhole (next r st) h = Step-IsWhole st (Reach-IsWhole r h)
