-- ===== src/Supervisor/Tests.antt =====
-- The theorems on the supervisor, at concrete tasks.
use agent_client_protocol_py.Base.{
  ◌≡◌, ℕ, nat_eq, ◌<>◌, false, Option, none, some, is_some, [], ◌∷◌, err, if◌then◌else◌, ◌==◌, Bool,
  not, ◌&&◌,
}
use agent_client_protocol_py.Exceptions.{Exn, runtime_error, type_error}
use agent_client_protocol_py.Supervisor.{
  TaskSupervisor, Ending, cancelled, raised, shutdown, create,
}
use agent_client_protocol_py.Supervisor.Shutdown.{
  first_raised, shutdown-first_raised, is_registered,
}

abbrev two_tasks : TaskSupervisor
two_tasks = record {
  source = "acp.Connection";
  tasks = 1 ∷ 2 ∷ [];
  closed = false;
  error_handlers = 5 ∷ 6 ∷ [];
}

abbrev raises : ℕ → Option Exn
raises h = if h == 5 then some type_error else none

abbrev second_fails : ℕ → Ending
second_fails task = if task == 2 then raised type_error else cancelled

abbrev ends_first : ℕ → Bool
ends_first task = task == 1

shutdown-first_raised_example :
    ((shutdown second_fails ends_first two_tasks).0 ≡ first_raised second_fails two_tasks.tasks)
    × (is_registered 2 (shutdown second_fails ends_first two_tasks).1.tasks ≡ (
        if is_some (first_raised second_fails two_tasks.tasks)
        then is_registered 2 two_tasks.tasks && not (ends_first 2)
        else false))
    × (create 2 (shutdown second_fails ends_first two_tasks).1
        ≡ err (runtime_error ("TaskSupervisor for " <> two_tasks.source <> " already closed")))
shutdown-first_raised_example = shutdown-first_raised second_fails ends_first two_tasks 2
