-- ===== src/Supervisor/Shutdown.antt =====
-- What `shutdown` leaves.
use agent_client_protocol_py.Base.{
  ◌≡◌, refl, ℕ, ◌<>◌, Option, none, some, is_some, List, [], ◌∷◌, Result, ok, err, if◌then◌else◌,
  arith, Bool, false, not, nat_eq, ◌==◌, ◌||◌, ◌&&◌, ap,
}
use agent_client_protocol_py.Exceptions.{Exn, runtime_error}
use agent_client_protocol_py.Supervisor.{
  TaskSupervisor, Ending, finished, cancelled, raised, await_tasks, shutdown, create, undiscarded,
}

-- The first exception, in the order of the tasks, that one ends by.
abbrev pub first_raised : (ℕ → Ending) → List ℕ → Option Exn
first_raised endings [] = none
first_raised endings (task ∷ rest) = elim (endings task) [
  | finished ↦ first_raised endings rest
  | cancelled ↦ first_raised endings rest
  | raised exc ↦ some exc
]

abbrev result_of : Option Exn → Result Exn (Unit {0})
result_of none = ok tt
result_of (some exc) = err exc

await_tasks-first_raised :
    (endings : ℕ → Ending) (tasks : List ℕ)
    → await_tasks endings tasks ≡ result_of (first_raised endings tasks)
unfolding await_tasks
await_tasks-first_raised endings [] = refl
await_tasks-first_raised endings (task ∷ rest) =
    ground (arith, await_tasks-first_raised endings rest)

abbrev pub is_registered : ℕ → List ℕ → Bool
is_registered task [] = false
is_registered task (t ∷ rest) = (t == task) || is_registered task rest

is_registered-undiscarded :
    (is_discarded : ℕ → Bool) (task : ℕ) (tasks : List ℕ)
    → is_registered task (undiscarded is_discarded tasks)
      ≡ is_registered task tasks && not (is_discarded task)
is_registered-undiscarded is_discarded task [] = refl
is_registered-undiscarded is_discarded task (t ∷ rest) =
    ground
      (arith, is_registered-undiscarded is_discarded task rest, ap is_discarded {x = t} {y = task})

-- `shutdown` raises the first exception that a task ends by, in the order of the tasks. A task is
-- registered afterwards exactly if there is such an exception, it was registered before, and its
-- `_on_done` has not run. No task can be created afterwards.
pub shutdown-first_raised :
    (endings : ℕ → Ending) (is_discarded : ℕ → Bool) (self : TaskSupervisor) (task : ℕ)
    → ((shutdown endings is_discarded self).0 ≡ first_raised endings self.tasks)
      × (is_registered task (shutdown endings is_discarded self).1.tasks ≡ (
          if is_some (first_raised endings self.tasks)
          then is_registered task self.tasks && not (is_discarded task)
          else false))
      × (create task (shutdown endings is_discarded self).1
          ≡ err (runtime_error ("TaskSupervisor for " <> self.source <> " already closed")))
unfolding shutdown create
shutdown-first_raised endings is_discarded self task = ground (
  arith,
  await_tasks-first_raised endings self.tasks,
  is_registered-undiscarded is_discarded task self.tasks,
)
