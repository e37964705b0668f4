-- ===== src/Supervisor/Errors.antt =====
-- Which handlers learn of a task that fails.
use mathlib.Core.List.{append-nil, append_assoc}
use agent_client_protocol_py.Base.{
  ◌≡◌, ℕ, nat_eq, Bool, true, false, Option, none, some, is_some, List, [], ◌∷◌, ◌++◌, map,
  if◌then◌else◌, ◌&&◌, arith,
}
use agent_client_protocol_py.Base.Lists.{remove}
use agent_client_protocol_py.Exceptions.{Exn}
use agent_client_protocol_py.Supervisor.{
  TaskSupervisor, raised, run_handlers, handle_error, on_done,
}

-- A world that records every call of a handler: the handler, the task and the exception.
abbrev pub Calls : Type 0
Calls = List (ℕ × ℕ × Exn)

abbrev pub recorder : (ℕ → Option Exn) → ℕ → ℕ → Exn → Calls → Option Exn × Calls
recorder raises handler task exc log = (raises handler, log ++ ((handler, task, exc) ∷ []))

abbrev pub all_raise : (ℕ → Option Exn) → List ℕ → Bool
all_raise raises [] = true
all_raise raises (h ∷ hs) = is_some (raises h) && all_raise raises hs

-- The handlers that are called: the task's own, and those of the supervisor if there is none or it
-- raises.
abbrev pub called : (ℕ → Option Exn) → Option ℕ → List ℕ → List ℕ
called raises none handlers = handlers
called raises (some h) handlers = h ∷ (if is_some (raises h) then handlers else [])

module _ (raises : ℕ → Option Exn) (task : ℕ) (exc : Exn) where
  abbrev pub calls : List ℕ → Calls
  calls = map (λ h. (h, task, exc))

  run_handlers-recorder :
      (hs : List ℕ) (handled : Bool) (log : Calls)
      → run_handlers (recorder raises) hs task exc handled log
        ≡ (if all_raise raises hs then handled else true, log ++ calls hs)
  unfolding run_handlers
  run_handlers-recorder [] handled log = rw append-nil
  run_handlers-recorder (h ∷ hs) handled log = ground (
    arith,
    run_handlers-recorder hs handled (log ++ ((h, task, exc) ∷ [])),
    run_handlers-recorder hs true (log ++ ((h, task, exc) ∷ [])),
    append_assoc log ((h, task, exc) ∷ []) (calls hs),
  )

  -- A task that fails leaves the supervisor, and the handlers of `called` learn of it: in order,
  -- each once, with the task and its exception, whether those before them raise or not. The
  -- exception goes unhandled just if every one of them raises, or there is none.
  pub on_done-recorder :
      (on_error : Option ℕ) (self : TaskSupervisor) (log : Calls)
      → on_done (recorder raises) task on_error (raised exc) self log ≡ (
        all_raise raises (called raises on_error self.error_handlers),
        record self { tasks = remove task self.tasks },
        log ++ calls (called raises on_error self.error_handlers),
      )
  unfolding on_done handle_error
  on_done-recorder none self log =
      ground (arith, run_handlers-recorder self.error_handlers false log)
  on_done-recorder (some h) self log = ground (
    arith,
    run_handlers-recorder self.error_handlers false (log ++ ((h, task, exc) ∷ [])),
    append_assoc log ((h, task, exc) ∷ []) (calls self.error_handlers),
  )
