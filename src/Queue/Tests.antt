-- ===== src/Queue/Tests.antt =====
-- The theorem on the queue, at concrete tasks.
use agent_client_protocol_py.Base.{◌≡◌, suc, true, some, [], ◌∷◌, str, end, field, ok, err}
use agent_client_protocol_py.Base.Lists.{length}
use agent_client_protocol_py.Exceptions.{runtime_error}
use agent_client_protocol_py.Queue.{RpcTask, request, notification, new_queue, publish, close}
use agent_client_protocol_py.Queue.Order.{publish_all, drain, holding, drain-close}

abbrev prompt : RpcTask
prompt = record { kind = request; message = field "method" (str "session/prompt") end }

abbrev cancel : RpcTask
cancel = record { kind = notification; message = field "method" (str "session/cancel") end }

drain-close_example :
    (publish_all (prompt ∷ cancel ∷ []) new_queue ≡ ok (holding (prompt ∷ cancel ∷ [])))
    × (drain (suc (length (prompt ∷ cancel ∷ []))) (close (holding (prompt ∷ cancel ∷ [])))
        ≡ (prompt ∷ cancel ∷ [], some (record { items = []; unfinished = 0; closed = true })))
    × (publish prompt (close (holding (prompt ∷ cancel ∷ [])))
        ≡ err (runtime_error "mssage queue already closed"))
drain-close_example = drain-close (prompt ∷ cancel ∷ []) prompt
