-- ===== src/Stdio/Tests.antt =====
-- The theorems on the standard streams, at concrete runs.
use agent_client_protocol_py.Base.{
  ◌≡◌, ◌≢◌, refl, ℕ, String, Bool, true, false, Option, none, some, [], ◌⊎◌, Result, ok, string_eq,
}
use agent_client_protocol_py.Base.Dict.{Dict}
use agent_client_protocol_py.Base.Lists.{get_elem?}
use agent_client_protocol_py.Exceptions.{Exn, other_error}
use agent_client_protocol_py.Store.{unresolved, abandoned}
use agent_client_protocol_py.Transports.{Op, wait, Waited, exited, shut_down}
use agent_client_protocol_py.Stdio.{
  WritePipeProtocol, new_protocol, pause_writing, resume_writing, drain_helper,
  spawn_stdio_connection, drain, waits, raises_cancelled, goes_on,
}
use agent_client_protocol_py.Stdio.Pipe.{
  here, next, pausing, Reach-resume_writing, cancel_drain, cancel_drain-stays,
}
use agent_client_protocol_py.Stdio.Spawned.{raised_last, spawn_stdio_connection-Ends}

abbrev first : ℕ
first = 0

abbrev full : WritePipeProtocol
full = pause_writing new_protocol

Reach-resume_writing_example :
    (full.paused ≡ true
      → ((f : ℕ) × (drain full ≡ waits f) × (get_elem? full.futures f ≡ some unresolved))
        ⊎ (drain full ≡ raises_cancelled))
    × (full.paused ≡ false → drain full ≡ goes_on)
    × (get_elem? full.futures first ≡ some unresolved → drain full ≡ waits first)
    × (drain (resume_writing full) ≡ goes_on)
    × (get_elem? (resume_writing full).futures first ≢ some unresolved)
Reach-resume_writing_example = Reach-resume_writing first (next here pausing)

full_waits : drain_helper full ≡ some first
unfolding drain_helper pause_writing
full_waits = refl

full_pending : get_elem? full.futures first ≡ some unresolved
unfolding pause_writing
full_pending = refl

cancel_drain-stays_example :
    (drain_helper (cancel_drain full) ≡ some first)
    × (get_elem? (cancel_drain full).futures first ≡ some abandoned)
    × (drain (cancel_drain full) ≡ raises_cancelled)
    × (pause_writing (cancel_drain full) ≡ cancel_drain full)
cancel_drain-stays_example = cancel_drain-stays full first full_waits full_pending

-- A world that says whether the process runs: a wait for it ends it.
abbrev act : Op → Bool → Option Exn × Bool
act wait w = (none, false)
act op w = (none, w)

abbrev wait_for : Bool → Waited × Bool
wait_for w = (exited, false)

abbrev runs : Bool → Bool
runs w = w

abbrev is_eof_error : Exn → Bool
is_eof_error e = false

abbrev launch : Dict String String → Bool → Option Exn × Bool
launch env w = (none, true)

abbrev has_pipes : Bool → Bool
has_pipes w = w

abbrev connect : Bool → Result Exn ℕ × Bool
connect w = (ok 0, w)

abbrev use_connection : ℕ → Bool → Option Exn × Bool
use_connection conn w = (some (other_error "block"), w)

abbrev close_connection : ℕ → Bool → Option Exn × Bool
close_connection conn w = (none, w)

spawn_stdio_connection-Ends_example :
    let ended = shut_down act wait_for is_eof_error true in
    let (raises, after) =
      spawn_stdio_connection connect use_connection close_connection act wait_for is_eof_error
        launch has_pipes false [] none false in
    (after ≡ ended.1)
    × (((raises ≡ raised_last (some (other_error "block")) none) × (runs after ≡ false))
        ⊎ ((e : Exn) × (ended.0 ≡ some e) × (raises ≡ some e)))
spawn_stdio_connection-Ends_example =
    spawn_stdio_connection-Ends act wait_for is_eof_error runs (λ w h. refl) (λ w h. refl) launch
      has_pipes false [] none connect use_connection close_connection 0 false refl refl refl
