-- ===== src/Schema/Permission.antt =====
-- Permission requests.
use agent_client_protocol_py.Base.{String, Option, List, Fields}
use agent_client_protocol_py.Schema.Calls.{ToolCallUpdate}

pub data PermissionOptionKind : Type 0 where
  allow_once allow_always reject_once reject_always : PermissionOptionKind

pub record PermissionOption : Type 0 where
  pub field_meta : Option Fields
  pub kind : PermissionOptionKind
  pub name : String
  pub option_id : String

pub record RequestPermissionRequest : Type 0 where
  pub field_meta : Option Fields
  pub options : List PermissionOption
  pub session_id : String
  pub tool_call : ToolCallUpdate

pub record SelectedPermissionOutcome : Type 0 where
  pub field_meta : Option Fields
  pub option_id : String

-- `DeniedOutcome | AllowedOutcome`
pub data PermissionOutcome : Type 0 where
  denied_outcome : PermissionOutcome
  allowed_outcome : SelectedPermissionOutcome → PermissionOutcome

pub record RequestPermissionResponse : Type 0 where
  pub field_meta : Option Fields
  pub outcome : PermissionOutcome
