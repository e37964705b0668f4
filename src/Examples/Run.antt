-- ===== src/Examples/Run.antt =====
-- `run` of src/examples/gemini.py, from the command line to the end of the subprocess. What it
-- prints is left out.
use agent_client_protocol_py.Base.{
  ℕ, ℤ, String, string_eq, Bool, ◌||◌, Option, none, some, List, [], ◌∷◌, ◌++◌, Result, ok, err,
  if◌then◌else◌, ◌==◌,
}
use agent_client_protocol_py.Exceptions.{Exn}

-- What `argparse` finds.
pub record Args : Type 0 where
  pub gemini : Option String
  pub model : Option String
  pub sandbox : Bool
  pub debug : Bool
  pub yolo : Bool

-- A text that is not empty, or else another.
abbrev pub or_text : Option String → Option String → Option String
or_text none other = other
or_text (some text) other = if text == "" then other else some text

-- `ACP_GEMINI_BIN` of the environment and the `gemini` that is found on the path are arguments;
-- `none` is the `FileNotFoundError`.
unfoldable pub resolve_gemini_cli : Option String → Option String → Option String → Option String
resolve_gemini_cli binary env_value resolved =
    or_text binary (or_text env_value (or_text resolved none))

abbrev pub model_args : Option String → List String
model_args none = []
model_args (some model) = if model == "" then [] else "--model" ∷ model ∷ []

unfoldable pub command : String → Args → List String
command path args =
    (path ∷ "--experimental-acp" ∷ [])
    ++ model_args args.model
    ++ (if args.sandbox then "--sandbox" ∷ [] else [])
    ++ (if args.debug then "--debug" ∷ [] else [])

-- The calls of the process and of the connection that may raise.
pub data Act : Type 0 where
  close terminate kill wait initialize new_session cancel : Act
  prompt : String → Act

pub data Spawned : Type 0 where
  not_found no_pipes with_pipes : Spawned
  spawn_raised : Exn → Spawned

-- `await asyncio.wait_for(proc.wait(), timeout=5)`
pub data Waited : Type 0 where
  exited timed_out : Waited
  wait_raised : Exn → Waited

module _ {W : Type 0} (act : Act → W → Option Exn × W) (wait_for : W → Waited × W)
    (returncode : W → Option ℤ) (spawn : List String → W → Spawned × W)
    (is_lookup_error : Exn → Bool) where
  unfoldable pub kill_and_wait : W → Option Exn × W
  kill_and_wait w =
      let (raises, w1) = act kill w in elim raises [ some e ↦ (some e, w1) | none ↦ act wait w1 ]

  unfoldable pub terminate_and_wait : W → Option Exn × W
  unfolding kill_and_wait
  terminate_and_wait w =
      let (raises, w1) = act terminate w in
      elim raises [
        | some e ↦ (some e, w1)
        | none ↦
            let (waited, w2) = wait_for w1 in
            elim waited [
              | exited ↦ (none, w2)
              | wait_raised e ↦ (some e, w2)
              | timed_out ↦ kill_and_wait w2
            ]
      ]

  -- `_shutdown`: what the close of the connection raises is suppressed.
  unfoldable pub shutdown : W → Option Exn × W
  unfolding terminate_and_wait
  shutdown w =
      let (_, w1) = act close w in
      elim (returncode w1) [ some code ↦ (none, w1) | none ↦ terminate_and_wait w1 ]

  -- `interactive_loop` over the stripped lines of the console, whose end is an `EOFError`. What a
  -- prompt raises is printed; what a cancellation raises is not caught.
  unfoldable pub interactive_loop : List String → W → Option Exn × W
  interactive_loop [] w = (none, w)
  interactive_loop (line ∷ rest) w =
      let (raises, w1) = act cancel w in
      let (_, w2) = act (prompt line) w in
      let skipped = interactive_loop rest w in
      let after_cancel = interactive_loop rest w1 in
      let after_prompt = interactive_loop rest w2 in
      if line == ""
      then skipped
      else if line == ":exit" || line == ":quit"
      then (none, w)
      else if line == ":cancel"
      then elim raises [ some e ↦ (some e, w1) | none ↦ after_cancel ]
      else after_prompt

  -- `await _shutdown(proc, conn)`, then `return 1`
  unfoldable pub give_up : W → Result Exn ℕ × W
  unfolding shutdown
  give_up w =
      let (raises, w1) = shutdown w in elim raises [ some e ↦ (err e, w1) | none ↦ (ok 1, w1) ]

  -- The loop, with `_shutdown` in its `finally`.
  unfoldable pub converse : List String → W → Result Exn ℕ × W
  unfolding interactive_loop shutdown
  converse lines w =
      let (raises, w1) = interactive_loop lines w in
      let (again, w2) = shutdown w1 in
      elim again [
        | some e ↦ (err e, w2)
        | none ↦ elim raises [ some e ↦ (err e, w2) | none ↦ (ok 0, w2) ]
      ]

  -- Once there is a connection.
  unfoldable pub connected : List String → W → Result Exn ℕ × W
  unfolding give_up converse
  connected lines w =
      let (raises, w1) = act initialize w in
      let (refused, w2) = act new_session w1 in
      elim raises [
        | some e ↦ give_up w1
        | none ↦ elim refused [ some e ↦ give_up w2 | none ↦ converse lines w2 ]
      ]

  -- A process without pipes: a `ProcessLookupError` of the wait is suppressed.
  unfoldable pub without_pipes : W → Result Exn ℕ × W
  without_pipes w =
      let (raises, w1) = act terminate w in
      let (lost, w2) = act wait w1 in
      elim raises [
        | some e ↦ (err e, w1)
        | none ↦ elim lost [
          | none ↦ (ok 1, w2)
          | some e ↦ if is_lookup_error e then (ok 1, w2) else (err e, w2)
        ]
      ]

  -- The exit code, or what `run` raises.
  unfoldable pub run : Args → Option String → Option String → List String → W → Result Exn ℕ × W
  unfolding resolve_gemini_cli command without_pipes connected
  run args env_value resolved lines w = elim (resolve_gemini_cli args.gemini env_value resolved) [
    | none ↦ (ok 1, w)
    | some path ↦
        let (spawned, w1) = spawn (command path args) w in
        elim spawned [
          | not_found ↦ (ok 1, w1)
          | spawn_raised e ↦ (err e, w1)
          | no_pipes ↦ without_pipes w1
          | with_pipes ↦ connected lines w1
        ]
  ]
