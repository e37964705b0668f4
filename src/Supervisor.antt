-- ===== src/Supervisor.antt =====
-- src/acp/task/supervisor.py. A task is known by its number, and an error handler too; what a
-- handler does to the world `W` is a parameter, with the exception that it raises, if any.
pub mod Errors
pub mod Shutdown
mod Tests
use agent_client_protocol_py.Base.{
  ℕ, nat_eq, ◌+◌, ◌<>◌, String, Bool, true, false, not, Option, none, some, List, [], ◌∷◌, ◌++◌,
  Result, ok, err, if◌then◌else◌, ◌||◌,
}
use agent_client_protocol_py.Base.Lists.{remove, null?}
use agent_client_protocol_py.Exceptions.{Exn, runtime_error}

-- The tasks are a set, here in the order in which `list` gives them.
pub record TaskSupervisor : Type 0 where
  pub source : String
  pub tasks : List ℕ
  pub closed : Bool
  pub error_handlers : List ℕ

-- `__init__`
abbrev pub new_supervisor : String → TaskSupervisor
new_supervisor source = record { source = source; tasks = []; closed = false; error_handlers = [] }

unfoldable pub add_error_handler : ℕ → TaskSupervisor → TaskSupervisor
add_error_handler handler self = record self {
  error_handlers = self.error_handlers ++ (handler ∷ []);
}

-- `task` is what `asyncio.create_task` returns: a new task.
unfoldable pub create : ℕ → TaskSupervisor → Result Exn TaskSupervisor
create task self =
    if self.closed
    then err (runtime_error ("TaskSupervisor for " <> self.source <> " already closed"))
    else ok (record self { tasks = task ∷ self.tasks })

-- How a task ends.
pub data Ending : Type 0 where
  finished cancelled : Ending
  raised : Exn → Ending

module _ {W : Type 0} (call : ℕ → ℕ → Exn → W → Option Exn × W) where
  -- The loop over the supervisor's handlers: one that raises is logged, and the others still run.
  unfoldable pub run_handlers : List ℕ → ℕ → Exn → Bool → W → Bool × W
  run_handlers [] task exc handled w = (handled, w)
  run_handlers (handler ∷ rest) task exc handled w =
      let (raises, w') = call handler task exc w in
      elim raises [
        | none ↦ run_handlers rest task exc true w'
        | some e ↦ run_handlers rest task exc handled w'
      ]

  -- Whether the exception was handled. `on_error` is the task's own handler.
  unfoldable pub handle_error : List ℕ → ℕ → Option ℕ → Exn → W → Bool × W
  unfolding run_handlers
  handle_error handlers task on_error exc w = elim on_error [
    | none ↦ run_handlers handlers task exc false w
    | some handler ↦
        let (raises, w') = call handler task exc w in
        elim raises [ none ↦ (true, w') | some e ↦ run_handlers handlers task exc false w' ]
  ]

  -- Whether an exception went unhandled, beside the supervisor and the world.
  unfoldable pub on_done : ℕ → Option ℕ → Ending → TaskSupervisor → W → Bool × TaskSupervisor × W
  unfolding handle_error remove
  on_done task on_error finished self w = (false, record self { tasks = remove task self.tasks }, w)
  on_done task on_error cancelled self w =
      (false, record self { tasks = remove task self.tasks }, w)
  on_done task on_error (raised exc) self w =
      let (handled, w') = handle_error self.error_handlers task on_error exc w in
      (not handled, record self { tasks = remove task self.tasks }, w')

-- The loop of `shutdown` over its tasks: `endings` says how each ends once it is cancelled. An
-- exception but `CancelledError` is raised on.
unfoldable pub await_tasks : (ℕ → Ending) → List ℕ → Result Exn (Unit {0})
await_tasks endings [] = ok tt
await_tasks endings (task ∷ rest) = elim (endings task) [
  | finished ↦ await_tasks endings rest
  | cancelled ↦ await_tasks endings rest
  | raised exc ↦ err exc
]

-- The tasks but those that `_on_done` has discarded.
abbrev pub undiscarded : (ℕ → Bool) → List ℕ → List ℕ
undiscarded is_discarded [] = []
undiscarded is_discarded (task ∷ rest) =
    let left = undiscarded is_discarded rest in if is_discarded task then left else task ∷ left

-- What it raises, and the supervisor that it leaves. The tasks that end meanwhile are discarded by
-- their `_on_done`; `is_discarded` says for which ones it has run once `shutdown` raises, and what
-- else it does is `on_done`.
unfoldable pub shutdown : (ℕ → Ending) → (ℕ → Bool) → TaskSupervisor → Option Exn × TaskSupervisor
unfolding await_tasks
shutdown endings is_discarded self =
    if null? self.tasks
    then (none, record self { closed = true })
    else elim (await_tasks endings self.tasks) [
      | ok _ ↦ (none, record self { closed = true; tasks = [] })
      | err exc ↦
          (some exc, record self { closed = true; tasks = undiscarded is_discarded self.tasks })
    ]
