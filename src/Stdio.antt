-- ===== src/Stdio.antt =====
-- src/acp/stdio.py: the two ends of the standard streams, and a connection to a subprocess.
pub mod Pipe
pub mod Spawned
mod Tests
use agent_client_protocol_py.Base.{
  ℕ, String, Bool, true, false, Option, none, some, List, [], ◌∷◌, ◌++◌, Json, null, Result, ok,
  err, if◌then◌else◌, ◌==◌, string_eq,
}
use agent_client_protocol_py.Base.Dict.{Dict}
use agent_client_protocol_py.Base.Lists.{length, get_elem?}
use agent_client_protocol_py.Exceptions.{Exn}
use agent_client_protocol_py.Store.{Future, unresolved, resolved, settle, abandoned}
use agent_client_protocol_py.Transports.{Op, Waited, spawn_stdio_transport}

-- `_WritePipeProtocol`; the futures that it makes are known by number.
pub record WritePipeProtocol : Type 0 where
  pub paused : Bool
  pub drain_waiter : Option ℕ
  pub futures : List Future

-- `__init__`
abbrev pub new_protocol : WritePipeProtocol
new_protocol = record { paused = false; drain_waiter = none; futures = [] }

unfoldable pub pause_writing : WritePipeProtocol → WritePipeProtocol
pause_writing self = elim self.drain_waiter [
  | some f ↦ record self { paused = true }
  | none ↦ record self {
    paused = true;
    drain_waiter = some (length self.futures);
    futures = self.futures ++ (unresolved ∷ []);
  }
]

-- `settle` leaves a future that is done as it is.
unfoldable pub resume_writing : WritePipeProtocol → WritePipeProtocol
unfolding settle
resume_writing self = elim self.drain_waiter [
  | none ↦ record self { paused = false }
  | some f ↦ record self {
    paused = false;
    drain_waiter = none;
    futures = settle f (resolved null) self.futures;
  }
]

-- The future that `_drain_helper` awaits, if it awaits one.
unfoldable pub drain_helper : WritePipeProtocol → Option ℕ
drain_helper self = if self.paused then self.drain_waiter else none

-- What a drain does: `await` of a future that is pending waits, and of one that is done it goes on,
-- or raises `CancelledError` at once if the future is cancelled.
pub data Drain : Type 0 where
  goes_on raises_cancelled : Drain
  waits : ℕ → Drain

unfoldable pub drain : WritePipeProtocol → Drain
unfolding drain_helper
drain self = elim (drain_helper self) [
  | none ↦ goes_on
  | some f ↦ elim (get_elem? self.futures f) [
    | none ↦ goes_on
    | some unresolved ↦ waits f
    | some abandoned ↦ raises_cancelled
    | some other ↦ goes_on
  ]
]

-- What the thread of `_start_stdin_feeder` hands to the reader.
pub data Fed : Type 0 where
  feed_data : String → Fed
  feed_eof : Fed

-- `blocking_read`: `lines` are what `readline` returns, and an empty one is the end.
unfoldable pub blocking_read : List String → List Fed
blocking_read [] = feed_eof ∷ []
blocking_read (line ∷ lines) =
    let rest = blocking_read lines in if line == "" then feed_eof ∷ [] else feed_data line ∷ rest

-- `_StdoutTransport`, with what it got out.
pub record StdoutTransport : Type 0 where
  pub is_closing : Bool
  pub out : List String

-- `failed` says whether `write` or `flush` raises, which is logged; then what came out is not known,
-- and here it is nothing.
unfoldable pub write : Bool → String → StdoutTransport → StdoutTransport
write fails text self =
    if self.is_closing
    then self
    else if fails
    then self
    else record self { out = self.out ++ (text ∷ []) }

unfoldable pub close : StdoutTransport → StdoutTransport
close self = record self { is_closing = true }

unfoldable pub abort : StdoutTransport → StdoutTransport
unfolding close
abort self = close self

-- The `async with` of the three functions that spawn: `connect` makes the connection, `use` is the
-- block with it, and `close_connection` its `close`.
module _ {W C : Type 0} (connect : W → Result Exn C × W) (use_connection : C → W → Option Exn × W)
    (close_connection : C → W → Option Exn × W) where
  unfoldable pub within_connection : W → Option Exn × W
  within_connection w =
      let (made, w1) = connect w in
      elim made [
        | err e ↦ (some e, w1)
        | ok conn ↦
            let (raises, w2) = use_connection conn w1 in
            let (raises', w3) = close_connection conn w2 in
            (elim raises' [ some e ↦ some e | none ↦ raises ], w3)
      ]

  unfoldable pub spawn_stdio_connection :
      (Op → W → Option Exn × W)
      → (W → Waited × W)
      → (Exn → Bool)
      → (Dict String String → W → Option Exn × W)
      → (W → Bool)
      → Bool
      → Dict String String
      → Option (Dict String String)
      → W
      → Option Exn × W
  unfolding within_connection spawn_stdio_transport
  spawn_stdio_connection act wait_for is_eof_error launch has_pipes windows environ env =
      spawn_stdio_transport act wait_for is_eof_error launch has_pipes windows environ env
        within_connection
