-- ===== src/Connection/Tests.antt =====
-- The theorems on the connection, at concrete messages.
use agent_client_protocol_py.Connection.Closing.{receive_task_raising}
use agent_client_protocol_py.Supervisor.{TaskSupervisor, Ending, cancelled, new_supervisor}
use agent_client_protocol_py.Connection.Close.{close_rest}
use agent_client_protocol_py.Base.{
  ◌≡◌, ◌≢◌, refl, ℕ, String, true, false, Option, none, some, [], ◌∷◌, ◌++◌, Json, null, bool, num,
  pos, str, obj, arr, nil, Fields, end, field, json_value, ok, nat_eq, if◌then◌else◌, ◌==◌,
  string_eq, get_field, err, Bool, List,
}
use agent_client_protocol_py.Base.Dict.{lookup, insert}
use agent_client_protocol_py.Base.Lists.{get_elem?, drop_at}
use agent_client_protocol_py.Exceptions.{Exn, other_error, attribute_error}
use agent_client_protocol_py.Store.{unresolved, resolved, key_of, key, IncomingMessage, pending}
use agent_client_protocol_py.Connection.State.{
  Connection, Runner, new_connection, send_request, request_fields, dumps,
}
use agent_client_protocol_py.Connection.Incoming.{receive_task, has_method}
use agent_client_protocol_py.Connection.Run.{end_request, raised, HandlerOutcome}
use agent_client_protocol_py.Connection.Receive.{receive_task_no_object, verdict}
use agent_client_protocol_py.Connection.Respond.{
  answers, close_by, outcome_result, end_request-answers,
}
use agent_client_protocol_py.Connection.Reach.{
  Reach, here, next, request_sent, Reach-IsSound, new_connection-IsSound,
}
use agent_client_protocol_py.Connection.Steps.{IsSound}

abbrev answer : Fields
answer = field "id" (num (pos 0)) (field "result" (bool true) end)

-- A parser that knows three lines.
abbrev loads : String → Option Json
loads line =
    if line == "answer" then some (obj answer) else if line == "[]" then some (arr nil) else none

abbrev exn_text : Exn → String
exn_text e = "failed"

abbrev to_str : Json → String
to_str value = "text"

abbrev idle : Connection
idle = new_connection []

abbrev waiting : Connection
waiting = record idle {
  next_request_id = 1;
  store = record {
    futures = unresolved ∷ [];
    outgoing = (0, record { request_id = 0; method = "initialize"; future = 0 }) ∷ [];
    incoming = [];
  };
  sent = obj (request_fields 0 "initialize" null) ∷ [];
}

sends : send_request "initialize" null idle ≡ ok (0, waiting)
unfolding send_request dumps insert
sends = refl

reads_answer : loads "answer" ≡ some (obj answer)
unfolding string_eq
reads_answer = refl

reads_list : loads "[]" ≡ some (arr nil)
unfolding string_eq
reads_list = refl

answer_id : get_field "id" answer ≡ some (num (pos 0))
unfolding get_field string_eq
answer_id = refl

answer_has_no_method : has_method answer ≡ false
unfolding get_field string_eq
answer_has_no_method = refl

answer-verdict : verdict answer ≡ some (resolved (bool true))
unfolding get_field string_eq
answer-verdict = refl

waiting_reached : Reach loads exn_text to_str idle waiting
waiting_reached = next here (request_sent "initialize" null 0 sends)

waiting-IsSound : IsSound waiting
waiting-IsSound =
    Reach-IsSound loads exn_text to_str waiting_reached
      (new_connection-IsSound loads exn_text to_str [])

Reach-IsSound_example : IsSound waiting
Reach-IsSound_example =
    Reach-IsSound loads exn_text to_str waiting_reached
      (new_connection-IsSound loads exn_text to_str [])

abbrev first : ℕ
first = 0

waiting_found :
    lookup 0 waiting.store.outgoing
    ≡ some (record { request_id = 0; method = "initialize"; future = 0 })
unfolding lookup nat_eq
waiting_found = refl

key_zero : key_of (num (pos 0)) ≡ key 0
unfolding key_of
key_zero = refl

receive_task_no_object_example :
    (receive_task loads (ok "[]" ∷ ok "answer" ∷ []) waiting
      ≡ receive_task loads (ok "[]" ∷ []) waiting)
    × ((receive_task loads (ok "[]" ∷ ok "answer" ∷ []) waiting).0 ≡ some attribute_error)
    × (get_elem? (receive_task loads (ok "[]" ∷ ok "answer" ∷ []) waiting).1.store.futures 0
        ≢ some unresolved)
receive_task_no_object_example =
    receive_task_no_object loads "[]" (ok "answer" ∷ []) (arr nil) waiting 0 reads_list refl
      waiting-IsSound.tracked

abbrev entry : IncomingMessage
entry = record {
  method = str "ping";
  params = null;
  status = pending;
  result = json_value null;
  error = none;
}

abbrev runner : Runner
runner = record { message = field "id" (num (pos 7)) (field "method" (str "ping") end); entry = 0 }

abbrev serving : Connection
serving = record idle {
  store = record { futures = []; outgoing = []; incoming = entry ∷ [] };
  requests = runner ∷ [];
}

abbrev failure : HandlerOutcome
failure = raised (other_error "failed")

end_request-answers_example :
    ((end_request loads exn_text to_str 0 failure serving).sent
      ≡ serving.sent ++ answers loads exn_text to_str runner.message failure)
    × ((end_request loads exn_text to_str 0 failure serving).requests ≡ drop_at 0 serving.requests)
    × (get_elem? (end_request loads exn_text to_str 0 failure serving).store.incoming runner.entry
        ≡ some (close_by (outcome_result loads exn_text to_str failure) entry))
end_request-answers_example =
    end_request-answers loads exn_text to_str 0 runner failure serving entry refl refl

abbrev workers : TaskSupervisor
workers = record (new_supervisor "acp.Connection") { tasks = 1 ∷ [] }

abbrev all_cancelled : ℕ → Ending
all_cancelled task = cancelled

abbrev all_discarded : ℕ → Bool
all_discarded task = true

abbrev awaited : List ℕ
awaited = 0 ∷ []

abbrev result : Option Exn × TaskSupervisor × Connection
result = close_rest (ok tt) all_cancelled all_discarded awaited workers waiting

abbrev over_limit : Exn
over_limit = other_error "Separator is not found, and chunk exceed the limit"

receive_task_raising_example :
    (receive_task loads (ok "noise" ∷ err over_limit ∷ ok "answer" ∷ []) waiting
      ≡ receive_task loads (ok "noise" ∷ err over_limit ∷ []) waiting)
    × ((e' : Exn) × ((receive_task loads (ok "noise" ∷ err over_limit ∷ ok "answer" ∷ []) waiting).0
          ≡ some e'))
    × (get_elem?
          (receive_task loads
            (ok "noise" ∷ err over_limit ∷ ok "answer" ∷ [])
            waiting).1.store.futures
          0
        ≢ some unresolved)
    × ((receive_task loads
          (ok "noise" ∷ err over_limit ∷ ok "answer" ∷ [])
          waiting).1.store.outgoing
        ≡ [])
receive_task_raising_example =
    receive_task_raising loads exn_text to_str [] waiting (ok "noise" ∷ []) over_limit
      (ok "answer" ∷ []) 0 waiting_reached
