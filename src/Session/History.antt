-- ===== src/Session/History.antt =====
-- What a run of notifications of one session leaves in the accumulator.
use mathlib.Core.Option.{get_or}
use mathlib.Core.List.{append_assoc, append-nil}
use agent_client_protocol_py.Base.{
  ◌≡◌, refl, ◌∙◌, ap, ◌==◌, string_eq, String, Option, none, some, List, [], ◌∷◌, ◌++◌,
  if◌then◌else◌, arith,
}
use agent_client_protocol_py.Base.Dict.{Dict, lookup, lookup-insert}
use agent_client_protocol_py.Schema.{
  PlanEntry, AvailableCommand, ContentChunk, SessionUpdate, user_message_chunk, agent_message_chunk,
  agent_thought_chunk, tool_call, tool_call_update, plan, available_commands_update,
  current_mode_update,
}
use agent_client_protocol_py.Session.Calls.{
  MutableToolCallState, new_state, apply_start, apply_progress, over,
}
use agent_client_protocol_py.Session.Merge.{latest, over_assoc}
use agent_client_protocol_py.Base.Models.{map-model_copy}
use agent_client_protocol_py.Session.Accumulator.{SessionAccumulator, update_call, apply_update}

-- What an update says of each part of the state.
abbrev pub user_of : SessionUpdate → List ContentChunk
user_of (user_message_chunk u) = u ∷ []
user_of _ = []

abbrev pub agent_of : SessionUpdate → List ContentChunk
agent_of (agent_message_chunk u) = u ∷ []
agent_of _ = []

abbrev pub thought_of : SessionUpdate → List ContentChunk
thought_of (agent_thought_chunk u) = u ∷ []
thought_of _ = []

abbrev pub plan_of : SessionUpdate → Option (List PlanEntry)
plan_of (plan u) = some u.entries
plan_of _ = none

abbrev pub mode_of : SessionUpdate → Option String
mode_of (current_mode_update u) = some u.current_mode_id
mode_of _ = none

abbrev pub commands_of : SessionUpdate → Option (List AvailableCommand)
commands_of (available_commands_update u) = some u.available_commands
commands_of _ = none

-- One tool call by itself: a start replaces it, a progress merges into it, and either creates it.
abbrev pub call_effect :
    String → SessionUpdate → Option MutableToolCallState → Option MutableToolCallState
call_effect id (tool_call u) old =
    if id == u.tool_call_id then some (apply_start u (get_or old (new_state id))) else old
call_effect id (tool_call_update u) old =
    if id == u.tool_call_id then some (apply_progress u (get_or old (new_state id))) else old
call_effect id _ old = old

abbrev pub call_after :
    String → List SessionUpdate → Option MutableToolCallState → Option MutableToolCallState
call_after id [] old = old
call_after id (u ∷ us) old = call_after id us (call_effect id u old)

abbrev pub collect : (SessionUpdate → List ContentChunk) → List SessionUpdate → List ContentChunk
collect f [] = []
collect f (u ∷ us) = f u ++ collect f us

-- `t` is `s` after the updates `us`: chunks are recorded in order, the last plan, mode and
-- commands stand, each tool call went by its own updates, and the rest stayed.
pub record IsHistory (s : SessionAccumulator) (us : List SessionUpdate) (t : SessionAccumulator)
    : Type 0 where
  pub auto_reset : t.auto_reset ≡ s.auto_reset
  pub session_id : t.session_id ≡ s.session_id
  pub subscribers : t.subscribers ≡ s.subscribers
  pub user_messages : t.user_messages ≡ s.user_messages ++ collect user_of us
  pub agent_messages : t.agent_messages ≡ s.agent_messages ++ collect agent_of us
  pub agent_thoughts : t.agent_thoughts ≡ s.agent_thoughts ++ collect thought_of us
  pub plan_entries : t.plan_entries ≡ get_or (latest plan_of us) s.plan_entries
  pub current_mode_id : t.current_mode_id ≡ over (latest mode_of us) s.current_mode_id
  pub available_commands :
      t.available_commands ≡ get_or (latest commands_of us) s.available_commands
  pub tool_calls :
      (id : String) → lookup id t.tool_calls ≡ call_after id us (lookup id s.tool_calls)

lookup-update_call :
    (j id : String) (change : MutableToolCallState → MutableToolCallState)
    (d : Dict String MutableToolCallState)
    → lookup j (update_call id change d)
      ≡ (if j == id then some (change (get_or (lookup j d) (new_state j))) else lookup j d)
unfolding update_call
lookup-update_call j id change d =
    ground (arith, lookup-insert j id (change (get_or (lookup id d) (new_state id))) d)

pub IsHistory-nil : (s : SessionAccumulator) → IsHistory s [] s
IsHistory-nil s = record {
  auto_reset = refl;
  session_id = refl;
  subscribers = refl;
  user_messages = rw append-nil;
  agent_messages = rw append-nil;
  agent_thoughts = rw append-nil;
  plan_entries = refl;
  current_mode_id = refl;
  available_commands = refl;
  tool_calls = λ id. refl;
}

-- One update, part by part.
module _ (s : SessionAccumulator) where
  user_step : (u : SessionUpdate) → (apply_update u s).user_messages ≡ s.user_messages ++ user_of u
  unfolding apply_update
  user_step (user_message_chunk u) = refl
  user_step _ = rw append-nil

  agent_step :
      (u : SessionUpdate) → (apply_update u s).agent_messages ≡ s.agent_messages ++ agent_of u
  unfolding apply_update
  agent_step (agent_message_chunk u) = refl
  agent_step _ = rw append-nil

  thought_step :
      (u : SessionUpdate) → (apply_update u s).agent_thoughts ≡ s.agent_thoughts ++ thought_of u
  unfolding apply_update
  thought_step (agent_thought_chunk u) = refl
  thought_step _ = rw append-nil

  plan_step :
      (u : SessionUpdate) → (apply_update u s).plan_entries ≡ get_or (plan_of u) s.plan_entries
  unfolding apply_update
  plan_step (plan u) = map-model_copy u.entries
  plan_step _ = refl

  mode_step :
      (u : SessionUpdate) → (apply_update u s).current_mode_id ≡ over (mode_of u) s.current_mode_id
  unfolding apply_update
  mode_step (current_mode_update u) = refl
  mode_step _ = refl

  commands_step :
      (u : SessionUpdate)
      → (apply_update u s).available_commands ≡ get_or (commands_of u) s.available_commands
  unfolding apply_update
  commands_step (available_commands_update u) = map-model_copy u.available_commands
  commands_step _ = refl

  pub call_step :
      (id : String) (u : SessionUpdate)
      → lookup id (apply_update u s).tool_calls ≡ call_effect id u (lookup id s.tool_calls)
  unfolding apply_update
  call_step id (tool_call u) = lookup-update_call id u.tool_call_id (apply_start u) s.tool_calls
  call_step id (tool_call_update u) =
      lookup-update_call id u.tool_call_id (apply_progress u) s.tool_calls
  call_step id _ = refl

  pub rest_step :
      (u : SessionUpdate)
      → ((apply_update u s).auto_reset ≡ s.auto_reset)
        × ((apply_update u s).session_id ≡ s.session_id)
        × ((apply_update u s).subscribers ≡ s.subscribers)
  unfolding apply_update
  rest_step (tool_call u) = (refl, refl, refl)
  rest_step _ = (refl, refl, refl)

get_or-over {ℓ} :
    {A : Type ℓ} (a b : Option A) (c : A) → get_or a (get_or b c) ≡ get_or (over a b) c
get_or-over none b c = refl
get_or-over (some x) b c = refl

pub IsHistory-cons :
    (u : SessionUpdate) (us : List SessionUpdate) (s t : SessionAccumulator)
    → IsHistory (apply_update u s) us t
    → IsHistory s (u ∷ us) t
IsHistory-cons u us s t h = record {
  auto_reset = h.auto_reset ∙ (rest_step s u).0;
  session_id = h.session_id ∙ (rest_step s u).1;
  subscribers = h.subscribers ∙ (rest_step s u).2;
  user_messages = rw (h.user_messages, user_step, append_assoc);
  agent_messages = rw (h.agent_messages, agent_step, append_assoc);
  agent_thoughts = rw (h.agent_thoughts, thought_step, append_assoc);
  plan_entries = rw (h.plan_entries, plan_step) (get_or-over (latest plan_of us) (plan_of u) _);
  current_mode_id =
      rw (h.current_mode_id, mode_step) (over_assoc (latest mode_of us) (mode_of u) _);
  available_commands =
      rw (h.available_commands, commands_step)
        (get_or-over (latest commands_of us) (commands_of u) _);
  tool_calls = λ id. h.tool_calls id ∙ ap (call_after id us) (call_step s id u);
}
