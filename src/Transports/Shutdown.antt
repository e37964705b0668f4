-- ===== src/Transports/Shutdown.antt =====
-- How a subprocess is ended.
use agent_client_protocol_py.Base.{
  ◌≡◌, refl, String, Bool, true, false, ◌⊎◌, inl, inr, Option, none, some,
}
use agent_client_protocol_py.Base.Dict.{Dict}
use agent_client_protocol_py.Exceptions.{Exn}
use agent_client_protocol_py.Transports.{
  Op, wait, Waited, exited, timed_out, wait_raised, kill_process, terminate_process, end_process,
  end_input, shut_down, spawn_stdio_transport, merged_env, terminate, kill,
}

module _ {W : Type 0} (act : Op → W → Option Exn × W) (wait_for : W → Waited × W)
    (is_eof_error : Exn → Bool) (alive : W → Bool)
    (wait_for_ends : (w : W) → (wait_for w).0 ≡ exited → alive (wait_for w).1 ≡ false)
    (wait_ends : (w : W) → (act wait w).0 ≡ none → alive (act wait w).1 ≡ false) where
  -- A call that raises nothing leaves no process that runs.
  abbrev Ends : (W → Option Exn × W) → Type 0
  Ends f = (w : W) → (f w).0 ≡ none → alive (f w).1 ≡ false

  kill_process-Ends : Ends (kill_process act wait_for is_eof_error)
  unfolding kill_process
  kill_process-Ends w = go (act kill w).0 refl
    where
      go :
          (r : Option Exn)
          → (act kill w).0 ≡ r
          → (kill_process act wait_for is_eof_error w).0 ≡ none
          → alive (kill_process act wait_for is_eof_error w).1 ≡ false
      go none e = rw (kill_process, e) (wait_ends (act kill w).1)
      go (some exc) e = rw (kill_process, e) (λ h. cc)

  terminate_process-Ends : Ends (terminate_process act wait_for is_eof_error)
  unfolding terminate_process
  terminate_process-Ends w = go (act terminate w).0 (wait_for (act terminate w).1).0 refl refl
    where
      go :
          (r : Option Exn) (how : Waited)
          → (act terminate w).0 ≡ r
          → (wait_for (act terminate w).1).0 ≡ how
          → (terminate_process act wait_for is_eof_error w).0 ≡ none
          → alive (terminate_process act wait_for is_eof_error w).1 ≡ false
      go (some exc) how e e' = rw (terminate_process, e) (λ h. cc)
      go none exited e e' = rw (terminate_process, e, e') (λ h. wait_for_ends _ e')
      go none (wait_raised exc) e e' = rw (terminate_process, e, e') (λ h. cc)
      go none timed_out e e' = rw (terminate_process, e, e') (kill_process-Ends _)

  end_process-Ends : Ends (end_process act wait_for is_eof_error)
  unfolding end_process
  end_process-Ends w = go (wait_for w).0 refl
    where
      go :
          (how : Waited)
          → (wait_for w).0 ≡ how
          → (end_process act wait_for is_eof_error w).0 ≡ none
          → alive (end_process act wait_for is_eof_error w).1 ≡ false
      go exited e = rw (end_process, e) (λ h. wait_for_ends w e)
      go (wait_raised exc) e = rw (end_process, e) (λ h. cc)
      go timed_out e = rw (end_process, e) (terminate_process-Ends _)

  shut_down-Ends : Ends (shut_down act wait_for is_eof_error)
  unfolding shut_down
  shut_down-Ends w = go (end_input act wait_for is_eof_error w).0 refl
    where
      go :
          (r : Option Exn)
          → (end_input act wait_for is_eof_error w).0 ≡ r
          → (shut_down act wait_for is_eof_error w).0 ≡ none
          → alive (shut_down act wait_for is_eof_error w).1 ≡ false
      go none e = rw (shut_down, e) (end_process-Ends _)
      go (some exc) e = rw (shut_down, e) (λ h. cc)

  -- `async with spawn_stdio_transport`, once the process is there with its pipes, runs the block and
  -- then the shutdown, whatever the block raises. Either the shutdown raises nothing: then the
  -- process runs no longer, and what the block raised is raised. Or it raises, and that is raised.
  pub spawn_stdio_transport-Ends :
      (launch : Dict String String → W → Option Exn × W) (has_pipes : W → Bool) (windows : Bool)
      (environ : Dict String String) (env : Option (Dict String String)) (body : W → Option Exn × W)
      (w : W)
      → (launch (merged_env windows environ env) w).0 ≡ none
      → has_pipes (launch (merged_env windows environ env) w).1 ≡ true
      → let started = (launch (merged_env windows environ env) w).1 in
        let ran = body started in
        let (raises, after) =
          spawn_stdio_transport act wait_for is_eof_error launch has_pipes windows environ env body
            w in
        (after ≡ (shut_down act wait_for is_eof_error ran.1).1)
        × (((raises ≡ ran.0) × (alive after ≡ false))
            ⊎ ((e : Exn) × ((shut_down act wait_for is_eof_error ran.1).0 ≡ some e)
                × (raises ≡ some e)))
  unfolding spawn_stdio_transport
  spawn_stdio_transport-Ends launch has_pipes windows environ env body w launched piped =
      go (shut_down act wait_for is_eof_error ran.1).0 refl
    where
      ran : Option Exn × W
      ran = body (launch (merged_env windows environ env) w).1

      go :
          (r : Option Exn)
          → (shut_down act wait_for is_eof_error ran.1).0 ≡ r
          → let (raises, after) =
              spawn_stdio_transport act wait_for is_eof_error launch has_pipes windows environ env
                body w in
            (after ≡ (shut_down act wait_for is_eof_error ran.1).1)
            × (((raises ≡ ran.0) × (alive after ≡ false))
                ⊎ ((e : Exn) × ((shut_down act wait_for is_eof_error ran.1).0 ≡ some e)
                    × (raises ≡ some e)))
      go none e =
          rw (spawn_stdio_transport, launched, piped, e) (refl, inl (refl, shut_down-Ends ran.1 e))
      go (some exc) e = rw (spawn_stdio_transport, launched, piped, e) (refl, inr (exc, refl, refl))
