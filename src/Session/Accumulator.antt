-- ===== src/Session/Accumulator.antt =====
-- `SessionAccumulator`. A callback is known by its identity, a number; what it does when it is
-- called is a parameter, and it may use the accumulator again and change the world `W` around it.
use mathlib.Core.Option.{get_or}
use agent_client_protocol_py.Base.{
  ◌==◌, ℕ, String, string_eq, nat_eq, Bool, Option, none, some, List, [], ◌∷◌, ◌++◌, map, Result,
  ok, err, not, if◌then◌else◌,
}
use agent_client_protocol_py.Base.Dict.{Dict, lookup, insert, map_values}
use agent_client_protocol_py.Base.Lists.{remove}
use agent_client_protocol_py.Schema.{
  PlanEntry, AvailableCommand, UserMessageChunk, AgentMessageChunk, AgentThoughtChunk,
  SessionUpdate, SessionNotification, user_message_chunk, agent_message_chunk, agent_thought_chunk,
  tool_call, tool_call_update, plan, available_commands_update, current_mode_update,
}
use agent_client_protocol_py.Session.Calls.{
  MutableToolCallState, new_state, apply_start, apply_progress, ToolCallView, call_view,
}
use agent_client_protocol_py.Base.Models.{model_copy, copy_model_list}

pub data SessionError : Type 0 where
  session_notification_mismatch_error : String → String → SessionError
  session_snapshot_unavailable_error : SessionError
  callback_error : String → SessionError

pub record SessionSnapshot : Type 0 where
  pub session_id : String
  pub tool_calls : Dict String ToolCallView
  pub plan_entries : List PlanEntry
  pub current_mode_id : Option String
  pub available_commands : List AvailableCommand
  pub user_messages : List UserMessageChunk
  pub agent_messages : List AgentMessageChunk
  pub agent_thoughts : List AgentThoughtChunk

pub record SessionAccumulator : Type 0 where
  pub auto_reset : Bool
  pub session_id : Option String
  pub tool_calls : Dict String MutableToolCallState
  pub plan_entries : List PlanEntry
  pub current_mode_id : Option String
  pub available_commands : List AvailableCommand
  pub user_messages : List UserMessageChunk
  pub agent_messages : List AgentMessageChunk
  pub agent_thoughts : List AgentThoughtChunk
  pub subscribers : List ℕ

-- `__init__`
abbrev pub new_accumulator : Bool → SessionAccumulator
new_accumulator auto_reset_on_session_change = record {
  auto_reset = auto_reset_on_session_change;
  session_id = none;
  tool_calls = [];
  plan_entries = [];
  current_mode_id = none;
  available_commands = [];
  user_messages = [];
  agent_messages = [];
  agent_thoughts = [];
  subscribers = [];
}

unfoldable pub reset : SessionAccumulator → SessionAccumulator
reset self = record self {
  session_id = none;
  tool_calls = [];
  plan_entries = [];
  current_mode_id = none;
  available_commands = [];
  user_messages = [];
  agent_messages = [];
  agent_thoughts = [];
}

unfoldable pub subscribe : ℕ → SessionAccumulator → SessionAccumulator
subscribe callback self = record self { subscribers = self.subscribers ++ (callback ∷ []) }

-- The function that `subscribe` returns; the `ValueError` of a missing item is suppressed.
unfoldable pub unsubscribe : ℕ → SessionAccumulator → SessionAccumulator
unfolding remove
unsubscribe callback self = record self { subscribers = remove callback self.subscribers }

unfoldable pub handle_session_change :
    String → SessionAccumulator → Result SessionError SessionAccumulator
unfolding reset
handle_session_change session_id self = elim self.session_id [
  | none ↦ ok (record self { session_id = some session_id })
  | some expected ↦
      if not self.auto_reset
      then err (session_notification_mismatch_error expected session_id)
      else ok (record (reset self) { session_id = some session_id })
]

unfoldable pub ensure_session :
    SessionNotification → SessionAccumulator → Result SessionError SessionAccumulator
unfolding handle_session_change
ensure_session notification self = elim self.session_id [
  | none ↦ ok (record self { session_id = some notification.session_id })
  | some current ↦
      if not (notification.session_id == current)
      then handle_session_change notification.session_id self
      else ok self
]

-- `self._tool_calls.setdefault(id, _MutableToolCallState(id))`, and the call on what it returns.
unfoldable pub update_call :
    String
    → (MutableToolCallState → MutableToolCallState)
    → Dict String MutableToolCallState
    → Dict String MutableToolCallState
update_call id change calls = insert id (change (get_or (lookup id calls) (new_state id))) calls

-- `items or []`
abbrev pub or_empty {ℓ} : {A : Type ℓ} → Option (List A) → List A
or_empty items = get_or items []

unfoldable pub apply_update : SessionUpdate → SessionAccumulator → SessionAccumulator
unfolding update_call copy_model_list
apply_update (tool_call u) self = record self {
  tool_calls = update_call u.tool_call_id (apply_start u) self.tool_calls;
}
apply_update (tool_call_update u) self = record self {
  tool_calls = update_call u.tool_call_id (apply_progress u) self.tool_calls;
}
apply_update (plan u) self = record self {
  plan_entries = or_empty (copy_model_list (some u.entries));
}
apply_update (current_mode_update u) self = record self { current_mode_id = some u.current_mode_id }
apply_update (available_commands_update u) self = record self {
  available_commands = or_empty (copy_model_list (some u.available_commands));
}
apply_update (user_message_chunk u) self = record self {
  user_messages = self.user_messages ++ (model_copy u ∷ []);
}
apply_update (agent_message_chunk u) self = record self {
  agent_messages = self.agent_messages ++ (model_copy u ∷ []);
}
apply_update (agent_thought_chunk u) self = record self {
  agent_thoughts = self.agent_thoughts ++ (model_copy u ∷ []);
}
apply_update _ self = self

unfoldable pub snapshot : SessionAccumulator → Result SessionError SessionSnapshot
unfolding call_view map_values
snapshot self = elim self.session_id [
  | none ↦ err session_snapshot_unavailable_error
  | some session_id ↦ ok (record {
    session_id = session_id;
    tool_calls = map_values call_view self.tool_calls;
    plan_entries = map model_copy self.plan_entries;
    current_mode_id = self.current_mode_id;
    available_commands = map model_copy self.available_commands;
    user_messages = map model_copy self.user_messages;
    agent_messages = map model_copy self.agent_messages;
    agent_thoughts = map model_copy self.agent_thoughts;
  })
]

module _ {W : Type 0}
    (call : ℕ
      → SessionSnapshot
      → SessionNotification
      → SessionAccumulator × W
      → Result SessionError (Unit {0}) × (SessionAccumulator × W)) where
  -- The loop over a copy of the subscribers; an exception ends it.
  unfoldable pub notify_all :
      List ℕ
      → SessionSnapshot
      → SessionNotification
      → SessionAccumulator × W
      → Result SessionError SessionSnapshot × (SessionAccumulator × W)
  notify_all [] snap notification st = (ok snap, st)
  notify_all (callback ∷ rest) snap notification st =
      let (result, st') = call callback snap notification st in
      elim result [ ok _ ↦ notify_all rest snap notification st' | err e ↦ (err e, st') ]

  unfoldable pub notify_subscribers :
      SessionSnapshot
      → SessionNotification
      → SessionAccumulator × W
      → Result SessionError SessionSnapshot × (SessionAccumulator × W)
  notify_subscribers snap notification (self, w) =
      notify_all self.subscribers snap notification (self, w)

  unfoldable pub apply :
      SessionNotification
      → SessionAccumulator × W
      → Result SessionError SessionSnapshot × (SessionAccumulator × W)
  apply notification (self, w) = elim (ensure_session notification self) [
    | err e ↦ (err e, (self, w))
    | ok self' ↦
        let updated = apply_update notification.update self' in
        elim (snapshot updated) [
          | err e ↦ (err e, (updated, w))
          | ok snap ↦ notify_subscribers snap notification (updated, w)
        ]
  ]
