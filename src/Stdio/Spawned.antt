-- ===== src/Stdio/Spawned.antt =====
-- A connection to a subprocess, from its start to its end.
use agent_client_protocol_py.Base.{
  ◌≡◌, refl, ap, subst, Bool, true, false, ◌⊎◌, Option, none, some, Result, ok, String,
}
use agent_client_protocol_py.Base.Dict.{Dict}
use agent_client_protocol_py.Exceptions.{Exn}
use agent_client_protocol_py.Transports.{Op, wait, Waited, exited, shut_down, merged_env}
use agent_client_protocol_py.Transports.Shutdown.{spawn_stdio_transport-Ends}
use agent_client_protocol_py.Stdio.{within_connection, spawn_stdio_connection}

-- The exception that is raised when one call follows another in a `finally`.
abbrev pub raised_last : Option Exn → Option Exn → Option Exn
raised_last first none = first
raised_last first (some e) = some e

module _ {W C : Type 0} (act : Op → W → Option Exn × W) (wait_for : W → Waited × W)
    (is_eof_error : Exn → Bool) (alive : W → Bool)
    (wait_for_ends : (w : W) → (wait_for w).0 ≡ exited → alive (wait_for w).1 ≡ false)
    (wait_ends : (w : W) → (act wait w).0 ≡ none → alive (act wait w).1 ≡ false) where
  within_connection_lem :
      (connect : W → Result Exn C × W) (use_connection : C → W → Option Exn × W)
      (close_connection : C → W → Option Exn × W) (conn : C) (w : W)
      → (connect w).0 ≡ ok conn
      → let used = use_connection conn (connect w).1 in
        let closed = close_connection conn used.1 in
        within_connection connect use_connection close_connection w
        ≡ (raised_last used.0 closed.0, closed.1)
  unfolding within_connection
  within_connection_lem connect use_connection close_connection conn w made =
      rw (within_connection, made) (ap (λ r. (r, closed.1)) (last used.0 closed.0))
    where
      used : Option Exn × W
      used = use_connection conn (connect w).1

      closed : Option Exn × W
      closed = close_connection conn used.1

      last :
          (first second : Option Exn)
          → elim second [ some e ↦ some e | none ↦ first ] ≡ raised_last first second
      last first none = refl
      last first (some e) = refl

  -- A block with a connection to a subprocess that was started: whatever the block raises, the
  -- connection is closed next, and whatever that raises, the process is ended last. What is
  -- raised is what the last of the three raises that raises; and if the end of the process raises
  -- nothing, the process runs no longer.
  pub spawn_stdio_connection-Ends :
      (launch : Dict String String → W → Option Exn × W) (has_pipes : W → Bool) (windows : Bool)
      (environ : Dict String String) (env : Option (Dict String String))
      (connect : W → Result Exn C × W) (use_connection : C → W → Option Exn × W)
      (close_connection : C → W → Option Exn × W) (conn : C) (w : W)
      → (launch (merged_env windows environ env) w).0 ≡ none
      → has_pipes (launch (merged_env windows environ env) w).1 ≡ true
      → (connect (launch (merged_env windows environ env) w).1).0 ≡ ok conn
      → let started = (launch (merged_env windows environ env) w).1 in
        let used = use_connection conn (connect started).1 in
        let closed = close_connection conn used.1 in
        let ended = shut_down act wait_for is_eof_error closed.1 in
        let (raises, after) =
          spawn_stdio_connection connect use_connection close_connection act wait_for is_eof_error
            launch has_pipes windows environ env w in
        (after ≡ ended.1)
        × (((raises ≡ raised_last used.0 closed.0) × (alive after ≡ false))
            ⊎ ((e : Exn) × (ended.0 ≡ some e) × (raises ≡ some e)))
  unfolding spawn_stdio_connection
  spawn_stdio_connection-Ends launch has_pipes windows environ env connect use_connection
        close_connection conn w launched piped made =
      subst
        (λ (ran : Option Exn × W).
          let ended = shut_down act wait_for is_eof_error ran.1 in
          let (raises, after) =
            spawn_stdio_connection connect use_connection close_connection act wait_for is_eof_error
              launch has_pipes windows environ env w in
          (after ≡ ended.1)
          × (((raises ≡ ran.0) × (alive after ≡ false))
              ⊎ ((e : Exn) × (ended.0 ≡ some e) × (raises ≡ some e))))
        (within_connection_lem connect use_connection close_connection conn _ made)
        (spawn_stdio_transport-Ends act wait_for is_eof_error alive wait_for_ends wait_ends launch
          has_pipes windows environ env (within_connection connect use_connection close_connection)
          w launched piped)
