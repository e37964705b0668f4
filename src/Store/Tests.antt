-- ===== src/Store/Tests.antt =====
-- The theorems on the store, at a concrete request.
use agent_client_protocol_py.Base.{◌≡◌, refl, true, some, [], bool, ◌∷◌}
use agent_client_protocol_py.Base.Lists.{get_elem?}
use agent_client_protocol_py.Exceptions.{type_error}
use agent_client_protocol_py.Store.State.{resolved, MessageStateStore, reject_all_outgoing}
use agent_client_protocol_py.Store.Settled.{here, next, reject_all, Reach-done}

abbrev answered : MessageStateStore
answered = record { futures = resolved (bool true) ∷ []; outgoing = []; incoming = [] }

Reach-done_example :
    get_elem? (reject_all_outgoing type_error answered).futures 0 ≡ some (resolved (bool true))
Reach-done_example =
    Reach-done (next here (reject_all type_error)) 0 (resolved (bool true)) refl refl
