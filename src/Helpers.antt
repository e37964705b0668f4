-- ===== src/Helpers.antt =====
-- src/acp/helpers.py: builders for content blocks, session updates and notifications. An argument
-- that the source gives a default is an argument here; an iterable is a list.
use agent_client_protocol_py.Base.{
  ℤ, String, Option, none, some, List, [], ◌∷◌, Json, null, str, obj, end, field,
}
use agent_client_protocol_py.Schema.{
  TextResourceContents, BlobResourceContents, ResourceContents, ContentBlock, text_content_block,
  image_content_block, audio_content_block, resource_content_block, embedded_resource_content_block,
  ToolCallContent, content_tool_call_content, file_edit_tool_call_content,
  terminal_tool_call_content, ToolCallLocation, ToolKind, ToolCallStatus, ToolCallStart,
  ToolCallProgress, PlanEntry, PlanEntryPriority, PlanEntryStatus, AvailableCommand, SessionUpdate,
  SessionNotification, user_message_chunk, agent_message_chunk, agent_thought_chunk, plan,
  available_commands_update, current_mode_update,
}

unfoldable pub text_block : String → ContentBlock
text_block text = text_content_block (record { field_meta = none; annotations = none; text = text })

unfoldable pub image_block : String → String → Option String → ContentBlock
image_block image mime_type uri = image_content_block (record {
  field_meta = none;
  annotations = none;
  image_data = image;
  mime_type = mime_type;
  uri = uri;
})

unfoldable pub audio_block : String → String → ContentBlock
audio_block audio mime_type =
    audio_content_block
      (record { field_meta = none; annotations = none; audio_data = audio; mime_type = mime_type })

unfoldable pub resource_link_block :
    String → String → Option String → Option ℤ → Option String → Option String → ContentBlock
resource_link_block name uri mime_type size description title = resource_content_block (record {
  field_meta = none;
  annotations = none;
  description = description;
  mime_type = mime_type;
  name = name;
  size = size;
  title = title;
  uri = uri;
})

unfoldable pub embedded_text_resource : String → String → Option String → TextResourceContents
embedded_text_resource uri text mime_type = record {
  field_meta = none;
  mime_type = mime_type;
  text = text;
  uri = uri;
}

unfoldable pub embedded_blob_resource : String → String → Option String → BlobResourceContents
embedded_blob_resource uri blob mime_type = record {
  field_meta = none;
  blob = blob;
  mime_type = mime_type;
  uri = uri;
}

unfoldable pub resource_block : ResourceContents → ContentBlock
resource_block resource =
    embedded_resource_content_block
      (record { field_meta = none; annotations = none; resource = resource })

unfoldable pub tool_content : ContentBlock → ToolCallContent
tool_content block = content_tool_call_content (record { field_meta = none; content = block })

unfoldable pub tool_diff_content : String → String → Option String → ToolCallContent
tool_diff_content path new_text old_text =
    file_edit_tool_call_content
      (record { field_meta = none; new_text = new_text; old_text = old_text; path = path })

unfoldable pub tool_terminal_ref : String → ToolCallContent
tool_terminal_ref terminal_id =
    terminal_tool_call_content (record { field_meta = none; terminal_id = terminal_id })

unfoldable pub plan_entry : String → PlanEntryPriority → PlanEntryStatus → PlanEntry
plan_entry content priority status = record {
  field_meta = none;
  content = content;
  priority = priority;
  status = status;
}

unfoldable pub update_plan : List PlanEntry → SessionUpdate
update_plan entries = plan (record { field_meta = none; entries = entries })

unfoldable pub update_user_message : ContentBlock → SessionUpdate
update_user_message content = user_message_chunk (record { field_meta = none; content = content })

unfoldable pub update_user_message_text : String → SessionUpdate
unfolding update_user_message text_block
update_user_message_text text = update_user_message (text_block text)

unfoldable pub update_agent_message : ContentBlock → SessionUpdate
update_agent_message content = agent_message_chunk (record { field_meta = none; content = content })

unfoldable pub update_agent_message_text : String → SessionUpdate
unfolding update_agent_message text_block
update_agent_message_text text = update_agent_message (text_block text)

unfoldable pub update_agent_thought : ContentBlock → SessionUpdate
update_agent_thought content = agent_thought_chunk (record { field_meta = none; content = content })

unfoldable pub update_agent_thought_text : String → SessionUpdate
unfolding update_agent_thought text_block
update_agent_thought_text text = update_agent_thought (text_block text)

unfoldable pub update_available_commands : List AvailableCommand → SessionUpdate
update_available_commands commands =
    available_commands_update (record { field_meta = none; available_commands = commands })

unfoldable pub update_current_mode : String → SessionUpdate
update_current_mode current_mode_id =
    current_mode_update (record { field_meta = none; current_mode_id = current_mode_id })

unfoldable pub session_notification : String → SessionUpdate → SessionNotification
session_notification session_id update = record {
  field_meta = none;
  session_id = session_id;
  update = update;
}

unfoldable pub start_tool_call :
    String
    → String
    → Option ToolKind
    → Option ToolCallStatus
    → Option (List ToolCallContent)
    → Option (List ToolCallLocation)
    → Json
    → Json
    → ToolCallStart
start_tool_call tool_call_id title kind status content locations raw_input raw_output = record {
  field_meta = none;
  content = content;
  kind = kind;
  locations = locations;
  raw_input = raw_input;
  raw_output = raw_output;
  status = status;
  title = title;
  tool_call_id = tool_call_id;
}

abbrev location : String → ToolCallLocation
location path = record { field_meta = none; line = none; path = path }

unfoldable pub start_read_tool_call :
    String → String → String → Option (List ToolCallContent) → ToolCallStart
unfolding start_tool_call
start_read_tool_call tool_call_id title path extra_options =
    start_tool_call tool_call_id title (some ToolKind.read) (some ToolCallStatus.pending)
      extra_options (some (location path ∷ [])) (obj (field "path" (str path) end)) null

unfoldable pub start_edit_tool_call :
    String → String → String → Json → Option (List ToolCallContent) → ToolCallStart
unfolding start_tool_call
start_edit_tool_call tool_call_id title path content extra_options =
    start_tool_call tool_call_id title (some ToolKind.edit) (some ToolCallStatus.pending)
      extra_options (some (location path ∷ []))
      (obj (field "path" (str path) (field "content" content end))) null

unfoldable pub update_tool_call :
    String
    → Option String
    → Option ToolKind
    → Option ToolCallStatus
    → Option (List ToolCallContent)
    → Option (List ToolCallLocation)
    → Json
    → Json
    → ToolCallProgress
update_tool_call tool_call_id title kind status content locations raw_input raw_output = record {
  field_meta = none;
  content = content;
  kind = kind;
  locations = locations;
  raw_input = raw_input;
  raw_output = raw_output;
  status = status;
  title = title;
  tool_call_id = tool_call_id;
}
