-- ===== src/Broker.antt =====
-- src/acp/contrib/permissions.py: a `PermissionBroker` asks for approval of a tracked tool call.
-- The requester is a parameter over the world `W` that it changes.
pub mod Request
mod Tests
use agent_client_protocol_py.Base.{
  String, string_eq, ◌==◌, Bool, true, false, not, Option, none, some, List, [], ◌∷◌, ◌++◌, map,
  Result, ok, err, if◌then◌else◌,
}
use agent_client_protocol_py.Base.Models.{model_copy, copy_model_list}
use agent_client_protocol_py.Base.Lists.{null?}
use agent_client_protocol_py.Schema.{
  PermissionOption, allow_once, allow_always, reject_once, ToolCallContent, ToolCallUpdate,
  RequestPermissionRequest, RequestPermissionResponse,
}
use agent_client_protocol_py.Helpers.{text_block, tool_content}
use agent_client_protocol_py.Tracker.{ToolCallTracker, TrackerError, tool_call_model}

pub data BrokerError : Type 0 where
  missing_tool_call_error : BrokerError
  missing_permission_options_error : BrokerError
  tracker_error : TrackerError → BrokerError
  requester_error : String → BrokerError

abbrev pub default_permission_options : List PermissionOption
default_permission_options =
    record { field_meta = none; kind = allow_once; name = "Approve"; option_id = "approve" }
    ∷ record {
      field_meta = none;
      kind = allow_always;
      name = "Approve for session";
      option_id = "approve_for_session";
    }
    ∷ record { field_meta = none; kind = reject_once; name = "Reject"; option_id = "reject" }
    ∷ []

pub record PermissionBroker : Type 0 where
  pub session_id : String
  pub tracker : Option ToolCallTracker
  pub default_options : List PermissionOption

-- `given or default`, where `None` and the empty list are false
abbrev pub or_default {ℓ} : {A : Type ℓ} → Option (List A) → List A → List A
or_default none default = default
or_default (some []) default = default
or_default (some (x ∷ xs)) default = x ∷ xs

-- `__init__`
unfoldable pub new_broker :
    String → Option ToolCallTracker → Option (List PermissionOption) → PermissionBroker
new_broker session_id tracker default_options = record {
  session_id = session_id;
  tracker = tracker;
  default_options = map model_copy (or_default default_options default_permission_options);
}

-- The tool call of the request: the one given, or the tracker's model of the external id.
unfoldable pub find_tool_call :
    String → Option ToolCallUpdate → PermissionBroker → Result BrokerError ToolCallUpdate
find_tool_call external_id (some tool_call) self = ok (model_copy tool_call)
find_tool_call external_id none self = elim self.tracker [
  | none ↦ err missing_tool_call_error
  | some tracker ↦ elim (tool_call_model external_id tracker) [
    | err e ↦ err (tracker_error e)
    | ok tool_call ↦ ok tool_call
  ]
]

-- `if content is not None: tool_call.content = _copy_model_list(content)`
unfoldable pub override_content : Option (List ToolCallContent) → ToolCallUpdate → ToolCallUpdate
override_content none tool_call = tool_call
override_content (some content) tool_call = record tool_call {
  content = copy_model_list (some content);
}

-- `if description:` with the item appended to `tool_call.content or []`; the empty text is false
unfoldable pub add_description : Option String → ToolCallUpdate → ToolCallUpdate
add_description none tool_call = tool_call
add_description (some description) tool_call =
    if description == "" then tool_call else record tool_call {
      content =
          some (or_default tool_call.content [] ++ (tool_content (text_block description) ∷ []));
    }

-- The request that `request_for` sends, or what it raises before it sends one.
unfoldable pub build_request :
    String
    → Option String
    → Option (List PermissionOption)
    → Option (List ToolCallContent)
    → Option ToolCallUpdate
    → PermissionBroker
    → Result BrokerError RequestPermissionRequest
build_request external_id description options content tool_call self =
    elim (find_tool_call external_id tool_call self) [
      | err e ↦ err e
      | ok found ↦
          let option_set = map model_copy (or_default options self.default_options) in
          if null? option_set
          then err missing_permission_options_error
          else ok (record {
            field_meta = none;
            options = option_set;
            session_id = self.session_id;
            tool_call = add_description description (override_content content found);
          })
    ]

module _ {W : Type 0}
    (requester : RequestPermissionRequest
      → W
      → Result BrokerError RequestPermissionResponse × W) where
  unfoldable pub request_for :
      String
      → Option String
      → Option (List PermissionOption)
      → Option (List ToolCallContent)
      → Option ToolCallUpdate
      → PermissionBroker
      → W
      → Result BrokerError RequestPermissionResponse × W
  request_for external_id description options content tool_call self w =
      elim (build_request external_id description options content tool_call self) [
        | err e ↦ (err e, w)
        | ok request ↦ requester request w
      ]
