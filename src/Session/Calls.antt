-- ===== src/Session/Calls.antt =====
-- `_MutableToolCallState` and its view.
use agent_client_protocol_py.Base.{
  String, Option, none, some, List, Json, null, is_none, if◌then◌else◌,
}
use agent_client_protocol_py.Schema.{
  ToolKind, ToolCallStatus, ToolCallContent, ToolCallLocation, ToolCallStart, ToolCallProgress,
}
use agent_client_protocol_py.Base.Models.{copy_model_list, non_empty}

pub record MutableToolCallState : Type 0 where
  pub tool_call_id : String
  pub title : Option String
  pub kind : Option ToolKind
  pub status : Option ToolCallStatus
  pub content : Option (List ToolCallContent)
  pub locations : Option (List ToolCallLocation)
  pub raw_input : Json
  pub raw_output : Json

-- `__init__`
abbrev pub new_state : String → MutableToolCallState
new_state tool_call_id = record {
  tool_call_id = tool_call_id;
  title = none;
  kind = none;
  status = none;
  content = none;
  locations = none;
  raw_input = null;
  raw_output = null;
}

unfoldable pub apply_start : ToolCallStart → MutableToolCallState → MutableToolCallState
unfolding copy_model_list
apply_start update self = record self {
  title = some update.title;
  kind = update.kind;
  status = update.status;
  content = copy_model_list update.content;
  locations = copy_model_list update.locations;
  raw_input = update.raw_input;
  raw_output = update.raw_output;
}

-- `if update.f is not None: self.f = update.f`
abbrev pub over {ℓ} : {A : Type ℓ} → Option A → Option A → Option A
over none old = old
over (some a) old = some a

abbrev pub over_any : Json → Json → Json
over_any value old = if is_none value then old else value

unfoldable pub apply_progress : ToolCallProgress → MutableToolCallState → MutableToolCallState
unfolding copy_model_list
apply_progress update self = record self {
  title = over update.title self.title;
  kind = over update.kind self.kind;
  status = over update.status self.status;
  content = over (copy_model_list update.content) self.content;
  locations = over (copy_model_list update.locations) self.locations;
  raw_input = over_any update.raw_input self.raw_input;
  raw_output = over_any update.raw_output self.raw_output;
}

pub record ToolCallView : Type 0 where
  pub tool_call_id : String
  pub title : Option String
  pub kind : Option ToolKind
  pub status : Option ToolCallStatus
  pub content : Option (List ToolCallContent)
  pub locations : Option (List ToolCallLocation)
  pub raw_input : Json
  pub raw_output : Json

unfoldable pub call_view : MutableToolCallState → ToolCallView
call_view self = record {
  tool_call_id = self.tool_call_id;
  title = self.title;
  kind = self.kind;
  status = self.status;
  content = non_empty self.content;
  locations = non_empty self.locations;
  raw_input = self.raw_input;
  raw_output = self.raw_output;
}
