-- ===== src/Broker/Request.antt =====
-- What is asked, and when nothing is.
use agent_client_protocol_py.Base.{
  ◌≡◌, refl, String, string_eq, ◌==◌, false, Option, none, some, List, [], ◌∷◌, ◌++◌, map, Result,
  ok, err, if◌then◌else◌, arith,
}
use agent_client_protocol_py.Base.Dict.{lookup}
use agent_client_protocol_py.Base.Models.{copy_model_list, model_copy, map-model_copy}
use agent_client_protocol_py.Base.Lists.{null?}
use agent_client_protocol_py.Schema.{
  PermissionOption, ToolCallContent, ToolCallUpdate, RequestPermissionRequest,
  RequestPermissionResponse,
}
use agent_client_protocol_py.Helpers.{text_block, tool_content}
use agent_client_protocol_py.Tracker.{
  ToolCallTracker, unknown_tool_call_error, tool_call_model, require_call,
}
use agent_client_protocol_py.Broker.{
  BrokerError, tracker_error, missing_tool_call_error, PermissionBroker, or_default,
  default_permission_options, new_broker, find_tool_call, override_content, add_description,
  build_request, request_for,
}

-- The options that a request carries.
abbrev pub options_of :
    Option (List PermissionOption) → Option (List PermissionOption) → List PermissionOption
options_of given defaults = or_default given (or_default defaults default_permission_options)

-- The content that a request carries: what is given, else the call's, with a description, if
-- there is one that is not empty, as the last item.
abbrev pub described : Option String → Option (List ToolCallContent) → Option (List ToolCallContent)
described none content = content
described (some d) content =
    if d == "" then content else some (or_default content [] ++ (tool_content (text_block d) ∷ []))

abbrev pub chosen :
    Option (List ToolCallContent) → Option (List ToolCallContent) → Option (List ToolCallContent)
chosen none old = old
chosen (some content) old = some content

abbrev pub asked :
    String
    → ToolCallUpdate
    → Option String
    → List PermissionOption
    → Option (List ToolCallContent)
    → RequestPermissionRequest
asked session_id call description options content = record {
  field_meta = none;
  options = options;
  session_id = session_id;
  tool_call = record call { content = described description (chosen content call.content) };
}

or_default-not_null {ℓ} :
    {A : Type ℓ} (o : Option (List A)) (d : List A)
    → null? d ≡ false
    → null? (or_default o d) ≡ false
or_default-not_null none d h = h
or_default-not_null (some []) d h = h
or_default-not_null (some (x ∷ xs)) d h = refl

tool_call_built :
    (description : Option String) (content : Option (List ToolCallContent)) (call : ToolCallUpdate)
    → add_description description (override_content content call)
      ≡ record call { content = described description (chosen content call.content) }
unfolding add_description override_content copy_model_list
tool_call_built none none call = refl
tool_call_built none (some c) call = rw (map-model_copy c)
tool_call_built (some d) none call = ground arith
tool_call_built (some d) (some c) call = rw (map-model_copy c) (ground arith)

-- Why no tool call is found when none is given.
abbrev pub search_error : String → Option ToolCallTracker → Option BrokerError
search_error external_id none = some missing_tool_call_error
search_error external_id (some t) = elim (lookup external_id t.calls) [
  | none ↦ some (tracker_error (unknown_tool_call_error external_id))
  | some call ↦ none
]

find_tool_call_error :
    (external_id : String) (e : BrokerError) (self : PermissionBroker)
    → search_error external_id self.tracker ≡ some e
    → find_tool_call external_id none self ≡ err e
unfolding find_tool_call tool_call_model require_call
find_tool_call_error external_id e self h = ground arith

module _ (session_id : String) (tracker : Option ToolCallTracker)
    (defaults : Option (List PermissionOption)) where
  abbrev pub broker : PermissionBroker
  broker = new_broker session_id tracker defaults

  option_set_not_null :
      (options : Option (List PermissionOption)) → null? (options_of options defaults) ≡ false
  option_set_not_null options =
      or_default-not_null options _ (or_default-not_null defaults default_permission_options refl)

  option_set_lem :
      (options : Option (List PermissionOption))
      → map model_copy (or_default options broker.default_options) ≡ options_of options defaults
  unfolding new_broker
  option_set_lem options = rw (map-model_copy, map-model_copy)

  session_id-new_broker : broker.session_id ≡ session_id
  unfolding new_broker
  session_id-new_broker = refl

  tracker-new_broker : broker.tracker ≡ tracker
  unfolding new_broker
  tracker-new_broker = refl

  -- A broker asks whenever it finds a tool call: for the options given, else those of the
  -- broker, else the standard three, so never for none; with the call's content replaced and
  -- described as asked, and the rest of the call as it was found.
  pub build_request_found :
      (external_id : String) (description : Option String)
      (options : Option (List PermissionOption)) (content : Option (List ToolCallContent))
      (tool_call : Option ToolCallUpdate) (call : ToolCallUpdate)
      → find_tool_call external_id tool_call broker ≡ ok call
      → (build_request external_id description options content tool_call broker
          ≡ ok (asked session_id call description (options_of options defaults) content))
        × (null? (options_of options defaults) ≡ false)
  unfolding build_request
  build_request_found external_id description options content tool_call call found =
      let filled = option_set_not_null options in
      (
        ground (
          arith,
          found,
          filled,
          option_set_lem options,
          session_id-new_broker,
          tool_call_built description content call,
        ),
        filled,
      )

  -- Without a tool call nothing is asked: `request_for` raises what the search for it raises,
  -- a missing tracker or an external id that the tracker does not know, and the requester is
  -- not called, as the world stays.
  pub request_for_not_found :
      {W : Type 0}
      (requester : RequestPermissionRequest → W → Result BrokerError RequestPermissionResponse × W)
      (external_id : String) (description : Option String)
      (options : Option (List PermissionOption)) (content : Option (List ToolCallContent)) (w : W)
      (e : BrokerError)
      → search_error external_id tracker ≡ some e
      → request_for requester external_id description options content none broker w ≡ (err e, w)
  unfolding request_for build_request
  request_for_not_found requester external_id description options content w e h =
      ground (arith, tracker-new_broker, find_tool_call_error external_id e broker)
