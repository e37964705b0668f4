-- ===== src/Schema/Update.antt =====
-- What a `session/update` notification carries.
use agent_client_protocol_py.Base.{String, Option, List, Fields}
use agent_client_protocol_py.Schema.Content.{ContentBlock}
use agent_client_protocol_py.Schema.Calls.{ToolCallStart, ToolCallProgress}

pub record ContentChunk : Type 0 where
  pub field_meta : Option Fields
  pub content : ContentBlock

-- The three chunk classes add their tag to `ContentChunk`.
abbrev pub UserMessageChunk : Type 0
UserMessageChunk = ContentChunk

abbrev pub AgentMessageChunk : Type 0
AgentMessageChunk = ContentChunk

abbrev pub AgentThoughtChunk : Type 0
AgentThoughtChunk = ContentChunk

pub data PlanEntryPriority : Type 0 where
  high medium low : PlanEntryPriority

pub data PlanEntryStatus : Type 0 where
  pending in_progress completed : PlanEntryStatus

pub record PlanEntry : Type 0 where
  pub field_meta : Option Fields
  pub content : String
  pub priority : PlanEntryPriority
  pub status : PlanEntryStatus

-- `Plan` with the tag `plan`
pub record AgentPlanUpdate : Type 0 where
  pub field_meta : Option Fields
  pub entries : List PlanEntry

pub record UnstructuredCommandInput : Type 0 where
  pub field_meta : Option Fields
  pub hint : String

-- `input` is an `AvailableCommandInput`, a root model around the record.
pub record AvailableCommand : Type 0 where
  pub field_meta : Option Fields
  pub description : String
  pub input : Option UnstructuredCommandInput
  pub name : String

pub record AvailableCommandsUpdate : Type 0 where
  pub field_meta : Option Fields
  pub available_commands : List AvailableCommand

pub record CurrentModeUpdate : Type 0 where
  pub field_meta : Option Fields
  pub current_mode_id : String

pub record SessionConfigSelectOption : Type 0 where
  pub field_meta : Option Fields
  pub description : Option String
  pub name : String
  pub value : String

pub record SessionConfigSelectGroup : Type 0 where
  pub field_meta : Option Fields
  pub group : String
  pub name : String
  pub options : List SessionConfigSelectOption

pub data SessionConfigSelectOptions : Type 0 where
  flat : List SessionConfigSelectOption → SessionConfigSelectOptions
  grouped : List SessionConfigSelectGroup → SessionConfigSelectOptions

-- The base class `SessionConfigSelect` first.
pub record SessionConfigOptionSelect : Type 0 where
  pub current_value : String
  pub options : SessionConfigSelectOptions
  pub field_meta : Option Fields
  pub description : Option String
  pub id : String
  pub name : String

pub record ConfigOptionUpdate : Type 0 where
  pub field_meta : Option Fields
  pub config_options : List SessionConfigOptionSelect

pub record SessionInfoUpdate : Type 0 where
  pub field_meta : Option Fields
  pub title : Option String
  pub updated_at : Option String

pub data SessionUpdate : Type 0 where
  user_message_chunk : UserMessageChunk → SessionUpdate
  agent_message_chunk : AgentMessageChunk → SessionUpdate
  agent_thought_chunk : AgentThoughtChunk → SessionUpdate
  tool_call : ToolCallStart → SessionUpdate
  tool_call_update : ToolCallProgress → SessionUpdate
  plan : AgentPlanUpdate → SessionUpdate
  available_commands_update : AvailableCommandsUpdate → SessionUpdate
  current_mode_update : CurrentModeUpdate → SessionUpdate
  config_option_update : ConfigOptionUpdate → SessionUpdate
  session_info_update : SessionInfoUpdate → SessionUpdate

pub record SessionNotification : Type 0 where
  pub field_meta : Option Fields
  pub session_id : String
  pub update : SessionUpdate
