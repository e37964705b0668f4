-- ===== src/Tracker/Calls.antt =====
-- `ToolCallTracker`. The id factory is a parameter: its n-th result.
use agent_client_protocol_py.Base.{
  ℕ, ◌+◌, String, string_eq, Option, none, some, List, [], Json, Result, ok, err,
}
use agent_client_protocol_py.Base.Dict.{Dict, lookup, insert, erase}
use agent_client_protocol_py.Schema.{
  ToolKind, ToolCallStatus, ToolCallContent, ToolCallLocation, ToolCallStart, ToolCallProgress,
  ToolCallUpdate,
}
use agent_client_protocol_py.Tracker.Call.{
  Arg, TrackerError, unknown_tool_call_error, TrackedToolCall, TrackedToolCallView, UpdateArgs,
  to_view, to_tool_call_model, to_start_model, update, append_text,
}
use agent_client_protocol_py.Base.Models.{copy_model_list}

pub record ToolCallTracker : Type 0 where
  pub ids_drawn : ℕ
  pub calls : Dict String TrackedToolCall

abbrev pub new_tracker : ToolCallTracker
new_tracker = record { ids_drawn = 0; calls = [] }

-- The keyword arguments of `start`; `status` is `"in_progress"` by default.
pub record StartArgs : Type 0 where
  pub title : String
  pub kind : Option ToolKind
  pub status : Option ToolCallStatus
  pub content : Option (List ToolCallContent)
  pub locations : Option (List ToolCallLocation)
  pub raw_input : Json
  pub raw_output : Json

-- `_TrackedToolCall.__init__`
unfoldable pub new_call : String → StartArgs → TrackedToolCall
unfolding copy_model_list
new_call call_id args = record {
  tool_call_id = call_id;
  title = some args.title;
  kind = args.kind;
  status = args.status;
  content = copy_model_list args.content;
  locations = copy_model_list args.locations;
  raw_input = args.raw_input;
  raw_output = args.raw_output;
  stream_buffer = none;
}

module _ (id_factory : ℕ → String) where
  unfoldable pub start :
      String → StartArgs → ToolCallTracker → Result TrackerError ToolCallStart × ToolCallTracker
  unfolding new_call to_start_model
  start external_id args self =
      let state = new_call (id_factory self.ids_drawn) args in
      (
        to_start_model state,
        record { ids_drawn = self.ids_drawn + 1; calls = insert external_id state self.calls },
      )

unfoldable pub require_call : String → ToolCallTracker → Result TrackerError TrackedToolCall
require_call external_id self = elim (lookup external_id self.calls) [
  | none ↦ err (unknown_tool_call_error external_id)
  | some state ↦ ok state
]

-- A method of the call that is found: its message, and the tracker with the call changed.
abbrev pub on_call :
    String
    → (TrackedToolCall → ToolCallProgress × TrackedToolCall)
    → ToolCallTracker
    → Result TrackerError ToolCallProgress × ToolCallTracker
on_call external_id method self = elim (require_call external_id self) [
  | err e ↦ (err e, self)
  | ok state ↦
      let (message, state') = method state in
      (ok message, record self { calls = insert external_id state' self.calls })
]

unfoldable pub progress :
    String → UpdateArgs → ToolCallTracker → Result TrackerError ToolCallProgress × ToolCallTracker
unfolding require_call update
progress external_id args = on_call external_id (update args)

unfoldable pub append_stream_text :
    String
    → String
    → Arg (Option String)
    → Arg (Option ToolCallStatus)
    → ToolCallTracker
    → Result TrackerError ToolCallProgress × ToolCallTracker
unfolding require_call append_text
append_stream_text external_id text title status =
    on_call external_id (append_text text title status)

unfoldable pub forget : String → ToolCallTracker → ToolCallTracker
forget external_id self = record self { calls = erase external_id self.calls }

unfoldable pub view : String → ToolCallTracker → Result TrackerError TrackedToolCallView
unfolding require_call to_view
view external_id self = elim (require_call external_id self) [
  | err e ↦ err e
  | ok state ↦ ok (to_view state)
]

unfoldable pub tool_call_model : String → ToolCallTracker → Result TrackerError ToolCallUpdate
unfolding require_call to_tool_call_model
tool_call_model external_id self = elim (require_call external_id self) [
  | err e ↦ err e
  | ok state ↦ ok (to_tool_call_model state)
]
