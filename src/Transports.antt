-- ===== src/Transports.antt =====
-- src/acp/transports.py: a subprocess, its environment, and how it is ended. What the operating
-- system does is a parameter over a world `W`; `os.environ` is a dict.
pub mod Prefix
pub mod Environment
pub mod Shutdown
mod Tests
use agent_client_protocol_py.Transports.Prefix.{starts_with}
use agent_client_protocol_py.Base.{
  String, string_eq, Bool, true, false, Option, none, some, List, [], ◌∷◌, if◌then◌else◌, ◌==◌,
}
use agent_client_protocol_py.Base.Dict.{Dict, lookup, insert, update_with}
use agent_client_protocol_py.Exceptions.{Exn, runtime_error}

-- `DEFAULT_INHERITED_ENV_VARS`, on Windows and elsewhere.
abbrev pub default_inherited_env_vars : Bool → List String
default_inherited_env_vars true =
    "APPDATA" ∷ "HOMEDRIVE" ∷ "HOMEPATH" ∷ "LOCALAPPDATA" ∷ "PATH" ∷ "PATHEXT"
    ∷ "PROCESSOR_ARCHITECTURE" ∷ "SYSTEMDRIVE" ∷ "SYSTEMROOT" ∷ "TEMP" ∷ "USERNAME" ∷ "USERPROFILE"
    ∷ []
default_inherited_env_vars false = "HOME" ∷ "LOGNAME" ∷ "PATH" ∷ "SHELL" ∷ "TERM" ∷ "USER" ∷ []

-- The loop of `default_environment` over the names.
unfoldable pub inherit : Dict String String → List String → Dict String String → Dict String String
unfolding lookup insert
inherit environ [] env = env
inherit environ (key ∷ keys) env = elim (lookup key environ) [
  | none ↦ inherit environ keys env
  | some value ↦
      if starts_with "()" value
      then inherit environ keys env
      else inherit environ keys (insert key value env)
]

unfoldable pub default_environment : Bool → Dict String String → Dict String String
unfolding inherit
default_environment windows environ = inherit environ (default_inherited_env_vars windows) []

-- `merged_env`; without `env` nothing is added.
unfoldable pub merged_env :
    Bool → Dict String String → Option (Dict String String) → Dict String String
unfolding default_environment update_with
merged_env windows environ env = elim env [
  | none ↦ default_environment windows environ
  | some entries ↦ update_with entries (default_environment windows environ)
]

-- The calls of a process and of its standard input.
pub data Op : Type 0 where
  write_eof close_stdin drain_stdin wait_closed terminate kill wait : Op

-- What `wait_for(process.wait(), timeout=shutdown_timeout)` comes to.
pub data Waited : Type 0 where
  exited timed_out : Waited
  wait_raised : Exn → Waited

-- `act` and `wait_for` may raise; `is_eof_error` says whether an exception is an `AttributeError`,
-- an `OSError` or a `RuntimeError`.
module _ {W : Type 0} (act : Op → W → Option Exn × W) (wait_for : W → Waited × W)
    (is_eof_error : Exn → Bool) where
  -- `with contextlib.suppress(Exception)`
  abbrev suppressed : Op → W → W
  suppressed op w = (act op w).1

  -- `write_eof`, or else `close`.
  unfoldable pub send_eof : W → Option Exn × W
  send_eof w =
      let (raises, w1) = act write_eof w in
      elim raises [
        | none ↦ (none, w1)
        | some e ↦ if is_eof_error e then act close_stdin w1 else (some e, w1)
      ]

  unfoldable pub end_input : W → Option Exn × W
  unfolding send_eof
  end_input w =
      let (raises, w1) = send_eof w in
      elim raises [
        | some e ↦ (some e, w1)
        | none ↦ (none, suppressed wait_closed (suppressed close_stdin (suppressed drain_stdin w1)))
      ]

  unfoldable pub kill_process : W → Option Exn × W
  kill_process w =
      let (raises, w1) = act kill w in elim raises [ some e ↦ (some e, w1) | none ↦ act wait w1 ]

  unfoldable pub terminate_process : W → Option Exn × W
  unfolding kill_process
  terminate_process w =
      let (raises, w1) = act terminate w in
      elim raises [
        | some e ↦ (some e, w1)
        | none ↦
            let (waited, w2) = wait_for w1 in
            elim waited [
              | exited ↦ (none, w2)
              | wait_raised e ↦ (some e, w2)
              | timed_out ↦ kill_process w2
            ]
      ]

  unfoldable pub end_process : W → Option Exn × W
  unfolding terminate_process
  end_process w =
      let (waited, w1) = wait_for w in
      elim waited [
        | exited ↦ (none, w1)
        | wait_raised e ↦ (some e, w1)
        | timed_out ↦ terminate_process w1
      ]

  -- The `finally` block.
  unfoldable pub shut_down : W → Option Exn × W
  unfolding end_input end_process
  shut_down w =
      let (raises, w1) = end_input w in
      elim raises [ some e ↦ (some e, w1) | none ↦ end_process w1 ]

  -- `body` is the block under `async with`. `launch` makes the process in an environment, or
  -- raises; `has_pipes` says whether it has both streams.
  unfoldable pub spawn_stdio_transport :
      (Dict String String → W → Option Exn × W)
      → (W → Bool)
      → Bool
      → Dict String String
      → Option (Dict String String)
      → (W → Option Exn × W)
      → W
      → Option Exn × W
  unfolding merged_env shut_down
  spawn_stdio_transport launch has_pipes windows environ env body w =
      let (fails, w1) = launch (merged_env windows environ env) w in
      elim fails [
        | some e ↦ (some e, w1)
        | none ↦
            if has_pipes w1
            then (let (raises, w2) = body w1 in
                let (raises', w3) = shut_down w2 in
                (elim raises' [ some e ↦ some e | none ↦ raises ], w3))
            else (let (raises, w2) = kill_process w1 in
                elim raises [
                  | some e ↦ (some e, w2)
                  | none ↦ (
                    some (runtime_error "spawn_stdio_transport requires stdout/stderr pipes"),
                    w2,
                  )
                ])
      ]
