-- ===== src/Schema/Calls.antt =====
-- Tool calls, their content and their locations.
use agent_client_protocol_py.Base.{ℤ, String, Option, List, Fields, Json}
use agent_client_protocol_py.Schema.Content.{ContentBlock}

pub data ToolCallStatus : Type 0 where
  pending in_progress completed failed : ToolCallStatus

pub data ToolKind : Type 0 where
  read edit delete move search_kind execute think fetch switch_mode other : ToolKind

pub record Content : Type 0 where
  pub field_meta : Option Fields
  pub content : ContentBlock

pub record Diff : Type 0 where
  pub field_meta : Option Fields
  pub new_text : String
  pub old_text : Option String
  pub path : String

pub record Terminal : Type 0 where
  pub field_meta : Option Fields
  pub terminal_id : String

-- `ContentToolCallContent | FileEditToolCallContent | TerminalToolCallContent`
pub data ToolCallContent : Type 0 where
  content_tool_call_content : Content → ToolCallContent
  file_edit_tool_call_content : Diff → ToolCallContent
  terminal_tool_call_content : Terminal → ToolCallContent

pub record ToolCallLocation : Type 0 where
  pub field_meta : Option Fields
  pub line : Option ℤ
  pub path : String

-- `raw_input` and `raw_output` are of type `Any`, with `None` for `null`.
pub record ToolCallUpdate : Type 0 where
  pub field_meta : Option Fields
  pub content : Option (List ToolCallContent)
  pub kind : Option ToolKind
  pub locations : Option (List ToolCallLocation)
  pub raw_input : Json
  pub raw_output : Json
  pub status : Option ToolCallStatus
  pub title : Option String
  pub tool_call_id : String

-- `ToolCall` with the tag `tool_call`
pub record ToolCallStart : Type 0 where
  pub field_meta : Option Fields
  pub content : Option (List ToolCallContent)
  pub kind : Option ToolKind
  pub locations : Option (List ToolCallLocation)
  pub raw_input : Json
  pub raw_output : Json
  pub status : Option ToolCallStatus
  pub title : String
  pub tool_call_id : String

-- `ToolCallUpdate` with the tag `tool_call_update`
abbrev pub ToolCallProgress : Type 0
ToolCallProgress = ToolCallUpdate
