-- ===== src/Queue.antt =====
-- src/acp/task/queue.py: the in-memory queue of tasks, unbounded as `Connection` makes it.
-- `asyncio.Queue` is a list with a count of the items that are not done.
pub mod Order
mod Tests
use agent_client_protocol_py.Base.{
  ℕ, zero, suc, Bool, true, false, Option, none, some, List, [], ◌∷◌, ◌++◌, Fields, Result, ok, err,
  if◌then◌else◌,
}
use agent_client_protocol_py.Exceptions.{Exn, runtime_error}

pub data RpcTaskKind : Type 0 where
  request notification : RpcTaskKind

pub record RpcTask : Type 0 where
  pub kind : RpcTaskKind
  pub message : Fields

-- The `None` that `close` puts is the end mark.
pub record MessageQueue : Type 0 where
  pub items : List (Option RpcTask)
  pub unfinished : ℕ
  pub closed : Bool

abbrev pub new_queue : MessageQueue
new_queue = record { items = []; unfinished = 0; closed = false }

abbrev put : Option RpcTask → MessageQueue → MessageQueue
put item self = record self { items = self.items ++ (item ∷ []); unfinished = suc self.unfinished }

unfoldable pub publish : RpcTask → MessageQueue → Result Exn MessageQueue
publish task self =
    if self.closed
    then err (runtime_error "mssage queue already closed")
    else ok (put (some task) self)

unfoldable pub close : MessageQueue → MessageQueue
close self = if self.closed then self else put none (record self { closed = true })

-- The `ValueError` of a call too many is suppressed.
unfoldable pub task_done : MessageQueue → MessageQueue
task_done self = record self { unfinished = elim self.unfinished [ zero ↦ zero | suc n ↦ n ] }

-- What `__anext__` comes to: it waits while the queue is empty.
pub data Next : Type 0 where
  waits : Next
  item : RpcTask → MessageQueue → Next
  stop_iteration : MessageQueue → Next

unfoldable pub anext : MessageQueue → Next
unfolding task_done
anext self = elim self.items [
  | [] ↦ waits
  | some task ∷ rest ↦ item task (record self { items = rest })
  | none ∷ rest ↦ stop_iteration (task_done (record self { items = rest }))
]
