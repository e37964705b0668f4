-- ===== src/Connection/Close.antt =====
-- `close` with its sender and its supervisor.
use agent_client_protocol_py.Base.{
  ◌≡◌, ◌≢◌, ◌⊎◌, ℕ, String, Option, none, some, List, [], Json, Result, ok, err, Bool, ◌∷◌, nat_eq,
}
use agent_client_protocol_py.Base.Lists.{get_elem?}
use agent_client_protocol_py.Exceptions.{Exn}
use agent_client_protocol_py.Store.{unresolved, abandon, abandoned, MessageStateStore}
use agent_client_protocol_py.Supervisor.{TaskSupervisor, Ending, shutdown}
use agent_client_protocol_py.Connection.State.{Connection}
use agent_client_protocol_py.Connection.Run.{finish_close}
use agent_client_protocol_py.Connection.Reach.{Reach}

-- `task.cancel()` cancels the future that the task awaits, here those of the given numbers.
abbrev pub cancel_awaited : List ℕ → Connection → Connection
cancel_awaited [] self = self
cancel_awaited (f ∷ rest) self = cancel_awaited rest (record self { store = abandon f self.store })

-- `close` once the dispatcher has stopped. `sender_ends` is what `await self._sender.close()` comes
-- to, `endings` and `is_discarded` what becomes of the tasks that `shutdown` cancels, and `awaited`
-- the futures of requests that these tasks await. What a cancelled task does in a cleanup of its own
-- is left out.
unfoldable pub close_rest :
    Result Exn (Unit {0})
    → (ℕ → Ending)
    → (ℕ → Bool)
    → List ℕ
    → TaskSupervisor
    → Connection
    → Option Exn × TaskSupervisor × Connection
unfolding shutdown finish_close
close_rest sender_ends endings is_discarded awaited tasks self = elim sender_ends [
  | err e ↦ (some e, tasks, self)
  | ok _ ↦
      let (raises, tasks') = shutdown endings is_discarded tasks in
      let cancelled_self = cancel_awaited awaited self in
      elim raises [
        | some e ↦ (some e, tasks', record cancelled_self { requests = []; notifications = [] })
        | none ↦ (none, tasks', finish_close cancelled_self)
      ]
]

-- The future `f` is as before, or was pending and is cancelled.
abbrev pub IsAtMostCancelled : MessageStateStore → MessageStateStore → ℕ → Type 0
IsAtMostCancelled s t f =
    (get_elem? t.futures f ≡ get_elem? s.futures f)
    ⊎ ((get_elem? s.futures f ≡ some unresolved) × (get_elem? t.futures f ≡ some abandoned))

module _ (loads : String → Option Json) (exn_text : Exn → String) (to_str : Json → String) where
  abbrev IsClosed : Option Exn × TaskSupervisor × Connection → Connection → ℕ → Type 0
  IsClosed result self f =
      ((result.0 ≡ none)
        × (get_elem? result.2.store.futures f ≢ some unresolved)
        × (result.2.store.outgoing ≡ []))
      ⊎ ((e : Exn) × (result.0 ≡ some e)
          × IsAtMostCancelled self.store result.2.store f
          × (result.2.store.outgoing ≡ self.store.outgoing))
