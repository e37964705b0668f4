-- ===== src/Examples/Ended.antt =====
-- The subprocess of `run` does not outlive it.
use agent_client_protocol_py.Base.{
  ◌≡◌, refl, ℕ, ℤ, String, Bool, true, false, Option, none, some, List, Result, ok, arith,
}
use agent_client_protocol_py.Exceptions.{Exn}
use agent_client_protocol_py.Examples.Run.{
  Args, Act, close, terminate, kill, wait, initialize, new_session, Spawned, not_found, Waited,
  exited, kill_and_wait, terminate_and_wait, shutdown, interactive_loop, give_up, converse,
  connected, without_pipes, run, resolve_gemini_cli, command,
}

module _ {W : Type 0} (act : Act → W → Option Exn × W) (wait_for : W → Waited × W)
    (returncode : W → Option ℤ) (spawn : List String → W → Spawned × W)
    (is_lookup_error : Exn → Bool) (alive : W → Bool)
    (wait_for_ends : (w : W) → (wait_for w).0 ≡ exited → alive (wait_for w).1 ≡ false)
    (wait_ends : (w : W) → (act wait w).0 ≡ none → alive (act wait w).1 ≡ false)
    (lookup_fails : (w : W) (e : Exn)
      → (act wait w).0 ≡ some e
      → is_lookup_error e ≡ true
      → alive (act wait w).1 ≡ false)
    (returned : (w : W) (code : ℤ) → returncode w ≡ some code → alive w ≡ false)
    (none_started : (argv : List String) (w : W)
      → (spawn argv w).0 ≡ not_found
      → alive (spawn argv w).1 ≡ false) where
  -- A call that raises nothing leaves no process that runs.
  abbrev Ends : (W → Option Exn × W) → Type 0
  Ends f = (w : W) → (f w).0 ≡ none → alive (f w).1 ≡ false

  abbrev Exits : (W → Result Exn ℕ × W) → Type 0
  Exits f = (w : W) (code : ℕ) → (f w).0 ≡ ok code → alive (f w).1 ≡ false

  kill_and_wait-Ends : Ends (kill_and_wait act wait_for returncode spawn is_lookup_error)
  kill_and_wait-Ends w h = unfold kill_and_wait in ground (arith, h, wait_ends (act kill w).1)

  terminate_and_wait-Ends : Ends (terminate_and_wait act wait_for returncode spawn is_lookup_error)
  terminate_and_wait-Ends w h =
      let w1 = (act terminate w).1 in
      unfold terminate_and_wait in
      ground (arith, h, wait_for_ends w1, kill_and_wait-Ends (wait_for w1).1)

  shutdown-Ends : Ends (shutdown act wait_for returncode spawn is_lookup_error)
  shutdown-Ends w h = go (returncode (act close w).1) refl
    where
      go :
          (o : Option ℤ)
          → returncode (act close w).1 ≡ o
          → alive (shutdown act wait_for returncode spawn is_lookup_error w).1 ≡ false
      go (some code) e = unfold shutdown in ground (arith, e, returned (act close w).1 code e)
      go none e = unfold shutdown in ground (arith, h, e, terminate_and_wait-Ends (act close w).1)

  give_up-Exits : Exits (give_up act wait_for returncode spawn is_lookup_error)
  give_up-Exits w code h = unfold give_up in ground (arith, h, shutdown-Ends w)

  converse-Exits :
      (lines : List String) → Exits (converse act wait_for returncode spawn is_lookup_error lines)
  converse-Exits lines w code h =
      unfold converse in
      ground (
        arith,
        h,
        shutdown-Ends (interactive_loop act wait_for returncode spawn is_lookup_error lines w).1,
      )

  connected-Exits :
      (lines : List String) → Exits (connected act wait_for returncode spawn is_lookup_error lines)
  connected-Exits lines w code h =
      let w1 = (act initialize w).1 in
      let w2 = (act new_session w1).1 in
      unfold connected in
      ground (arith, h, give_up-Exits w1 code, give_up-Exits w2 code, converse-Exits lines w2 code)

  without_pipes-Exits : Exits (without_pipes act wait_for returncode spawn is_lookup_error)
  without_pipes-Exits w code h = go (act wait w1).0 refl
    where
      w1 : W
      w1 = (act terminate w).1

      go :
          (o : Option Exn)
          → (act wait (act terminate w).1).0 ≡ o
          → alive (without_pipes act wait_for returncode spawn is_lookup_error w).1 ≡ false
      go none e = unfold without_pipes in ground (arith, h, e, wait_ends (act terminate w).1 e)
      go (some exc) e =
          unfold without_pipes in ground (arith, h, e, lookup_fails (act terminate w).1 exc e)

  -- If waiting for the process to its end, a lookup that fails, a return code and a program that is
  -- not found all mean that no process runs, then `run` returns an exit code, whatever the agent,
  -- the connection and the console do, only when the process that it has started runs no longer.
  pub run-Exits :
      (args : Args) (env_value resolved : Option String) (lines : List String) (w : W) (code : ℕ)
      → alive w ≡ false
      → (run act wait_for returncode spawn is_lookup_error args env_value resolved lines w).0
        ≡ ok code
      → alive (run act wait_for returncode spawn is_lookup_error args env_value resolved lines w).1
        ≡ false
  run-Exits args env_value resolved lines w code idle h =
      go (resolve_gemini_cli args.gemini env_value resolved) refl
    where
      go :
          (o : Option String)
          → resolve_gemini_cli args.gemini env_value resolved ≡ o
          → alive
              (run act wait_for returncode spawn is_lookup_error args env_value resolved lines w).1
            ≡ false
      go none e = unfold run in ground (arith, e, idle)
      go (some path) e =
          let w1 = (spawn (command path args) w).1 in
          unfold run in
          ground (
            arith,
            h,
            e,
            none_started (command path args) w,
            without_pipes-Exits w1 code,
            connected-Exits lines w1 code,
          )
