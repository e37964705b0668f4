-- ===== src/Conversation/Side.antt =====
-- What one side of a conversation holds of the requests: those that it serves, and those that it
-- waits for.
use agent_client_protocol_py.Base.{
  ◌≡◌, ℕ, nat_eq, ◌+◌, Bool, true, false, Option, none, some, Json, obj, if◌then◌else◌, ◌*◌,
}
use agent_client_protocol_py.Base.Dict.{lookup}
use agent_client_protocol_py.Base.Lists.{All, length}
use agent_client_protocol_py.Base.Counts.{one_if, count}
use agent_client_protocol_py.Queue.{RpcTask, request, notification}
use agent_client_protocol_py.Connection.{Connection, Runner, has_method}
use agent_client_protocol_py.Connection.Steps.{IsSound}
use agent_client_protocol_py.Conversation.Frames.{asks, IsRequest, IsTask}

abbrev pub calls : ℕ → Option RpcTask → Bool
calls k none = false
calls k (some task) = elim task.kind [ request ↦ asks k (obj task.message) | notification ↦ false ]

abbrev pub runs : ℕ → Runner → Bool
runs k runner = asks k (obj runner.message)

-- How many requests with the id `k` are in the queue or with a runner.
abbrev pub serving : ℕ → Connection → ℕ
serving k c = count (calls k) c.queue.items + count (runs k) c.requests

abbrev pub is_some {ℓ} : {A : Type ℓ} → Option A → Bool
is_some none = false
is_some (some a) = true

-- Whether the side's own request `k` is under way, as a number.
abbrev pub awaits : ℕ → Connection → ℕ
awaits k c = one_if (is_some (lookup k c.store.outgoing))

-- The steps that a frame, or what a side has taken, can still cause at most.
abbrev pub weigh : Json → ℕ
weigh (obj message) = if has_method message then 4 else 1
weigh _ = 1

abbrev pub side_load : Connection → ℕ
side_load c = 3 * length c.queue.items + 2 * length c.requests + length c.notifications

abbrev pub RunnerIsRequest : Runner → Type 0
RunnerIsRequest runner = IsRequest runner.message

pub record IsServing (c : Connection) : Type 0 where
  pub opened : c.queue.closed ≡ false
  pub tasks : All IsTask c.queue.items
  pub runners : All RunnerIsRequest c.requests
  pub sound : IsSound c
