-- ===== src/Queue/Order.antt =====
-- The order in which the dispatcher gets the tasks.
use mathlib.Core.List.{append_assoc, append-nil}
use agent_client_protocol_py.Base.{
  ◌≡◌, refl, ◌∙◌, ap, ℕ, zero, suc, ◌+◌, true, false, Option, none, some, List, [], ◌∷◌, ◌++◌, map,
  Result, ok, err, ◌>>=◌, arith,
}
use agent_client_protocol_py.Base.Lists.{length}
use agent_client_protocol_py.Exceptions.{Exn, runtime_error}
use agent_client_protocol_py.Queue.{
  RpcTask, MessageQueue, new_queue, publish, close, task_done, waits, item, stop_iteration, anext,
}

abbrev pub publish_all : List RpcTask → MessageQueue → Result Exn MessageQueue
publish_all [] self = ok self
publish_all (task ∷ tasks) self = publish task self >>= publish_all tasks

-- What the dispatcher's loop gets in `n` rounds, and the queue that it leaves if it has ended.
unfoldable pub drain : ℕ → MessageQueue → List RpcTask × Option MessageQueue
unfolding anext task_done
drain zero self = ([], none)
drain (suc n) self = elim (anext self) [
  | waits ↦ ([], none)
  | stop_iteration queue ↦ ([], some queue)
  | item task queue ↦ let (tasks, ended) = drain n (task_done queue) in (task ∷ tasks, ended)
]

publish_all_open :
    (tasks : List RpcTask) (items : List (Option RpcTask)) (n : ℕ)
    → publish_all tasks (record { items = items; unfinished = n; closed = false })
      ≡ ok (record {
        items = items ++ map some tasks;
        unfinished = n + length tasks;
        closed = false;
      })
unfolding publish
publish_all_open [] items n =
    rw append-nil
      (ap (λ m. ok (record { items = items; unfinished = m; closed = false })) (omega arith))
publish_all_open (task ∷ tasks) items n = ground (
  arith,
  publish_all_open tasks (items ++ (some task ∷ [])) (suc n),
  append_assoc items (some task ∷ []) (map some tasks),
)

drain_closed :
    (tasks : List RpcTask)
    → drain (suc (length tasks)) (record {
      items = map some tasks ++ (none ∷ []);
      unfinished = suc (length tasks);
      closed = true;
    })
      ≡ (tasks, some (record { items = []; unfinished = 0; closed = true }))
unfolding drain
drain_closed [] = refl
drain_closed (task ∷ tasks) = rw (drain_closed tasks) refl

-- The open queue that holds these tasks.
abbrev pub holding : List RpcTask → MessageQueue
holding tasks = record { items = map some tasks; unfinished = length tasks; closed = false }

-- Any tasks are taken by an open queue, and once it is closed the dispatcher gets them in the
-- order of publication, each once, then the end of the queue, with no task left unfinished; a
-- task published after the close is refused.
pub drain-close :
    (tasks : List RpcTask) (late : RpcTask)
    → (publish_all tasks new_queue ≡ ok (holding tasks))
      × (drain (suc (length tasks)) (close (holding tasks))
          ≡ (tasks, some (record { items = []; unfinished = 0; closed = true })))
      × (publish late (close (holding tasks)) ≡ err (runtime_error "mssage queue already closed"))
unfolding close publish
drain-close tasks late = (
  publish_all_open tasks [] 0
      ∙ ap (λ m. ok (record { items = map some tasks; unfinished = m; closed = false }))
          (omega arith),
  drain_closed tasks,
  refl,
)
