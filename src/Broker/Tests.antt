-- ===== src/Broker/Tests.antt =====
-- The theorems on the broker, at a concrete tool call.
use agent_client_protocol_py.Base.{◌≡◌, refl, false, none, some, null, ok}
use agent_client_protocol_py.Base.Lists.{null?}
use agent_client_protocol_py.Schema.{ToolCallUpdate}
use agent_client_protocol_py.Broker.{new_broker, find_tool_call, build_request}
use agent_client_protocol_py.Broker.Request.{asked, options_of, build_request_found}

abbrev edit : ToolCallUpdate
edit = record {
  field_meta = none;
  content = none;
  kind = none;
  locations = none;
  raw_input = null;
  raw_output = null;
  status = none;
  title = some "Edit";
  tool_call_id = "t1";
}

edit_found : find_tool_call "x" (some edit) (new_broker "s1" none none) ≡ ok edit
unfolding find_tool_call
edit_found = refl

build_request_found_example :
    (build_request "x" (some "May I?") none none (some edit) (new_broker "s1" none none)
      ≡ ok (asked "s1" edit (some "May I?") (options_of none none) none))
    × (null? (options_of none none) ≡ false)
build_request_found_example =
    build_request_found "s1" none none "x" (some "May I?") none none (some edit) edit edit_found
