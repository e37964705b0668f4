-- ===== src/Peers/ClientSide.antt =====
-- `ClientSideConnection` of src/acp/client/connection.py: a client that asks its agent. The
-- arguments are in the order of the source, with `kwargs` and the connection last.
use mathlib.Core.Option.{get_or}
use agent_client_protocol_py.Base.{
  ℕ, ℤ, String, ◌<>◌, Option, some, List, obj, Fields, Result, ◌>>=◌, Value,
}
use agent_client_protocol_py.Exceptions.{Exn}
use agent_client_protocol_py.Schema.{
  authenticate_params, cancel_params, fork_session_params, initialize_params, list_sessions_params,
  load_session_params, new_session_params, prompt_params, resume_session_params,
  set_session_mode_params, set_session_model_params, ClientCapabilities, ContentBlock,
  Implementation, McpServer, Params, default_capabilities,
}
use agent_client_protocol_py.Connection.{Connection, send_request, send_notification}
use agent_client_protocol_py.Utils.{
  Awaiting, request_model, request_model_from_dict, notify_model, initialize_response,
  new_session_response, load_session_response, list_sessions_response, set_session_mode_response,
  set_session_model_response, authenticate_response, prompt_response, fork_session_response,
  resume_session_response,
}
use agent_client_protocol_py.Peers.{or_none, construct}

module _ (serialize_params : Params → Fields) (errors : Params → Value) where
  unfoldable pub initialize :
      ℤ
      → Option ClientCapabilities
      → Option Implementation
      → Fields
      → Connection
      → Result Exn (Awaiting × Connection)
  unfolding construct request_model
  initialize protocol_version client_capabilities client_info kwargs self =
      construct errors (
        initialize_params (record {
          field_meta = or_none kwargs;
          protocol_version = protocol_version;
          client_capabilities = some (get_or client_capabilities default_capabilities);
          client_info = client_info;
        }))
      >>= λ params. request_model serialize_params "initialize" params initialize_response self

  unfoldable pub new_session :
      String → List McpServer → Fields → Connection → Result Exn (Awaiting × Connection)
  unfolding construct request_model
  new_session cwd mcp_servers kwargs self =
      construct errors (
        new_session_params
          (record { field_meta = or_none kwargs; cwd = cwd; mcp_servers = mcp_servers }))
      >>= λ params. request_model serialize_params "session/new" params new_session_response self

  unfoldable pub load_session :
      String → List McpServer → String → Fields → Connection → Result Exn (Awaiting × Connection)
  unfolding construct request_model_from_dict
  load_session cwd mcp_servers session_id kwargs self =
      construct errors (
        load_session_params (record {
          field_meta = or_none kwargs;
          cwd = cwd;
          mcp_servers = mcp_servers;
          session_id = session_id;
        }))
      >>= λ params.
          request_model_from_dict serialize_params "session/load" params load_session_response self

  unfoldable pub list_sessions :
      Option String → Option String → Fields → Connection → Result Exn (Awaiting × Connection)
  unfolding construct request_model_from_dict
  list_sessions cursor cwd kwargs self =
      construct errors
        (list_sessions_params (record { field_meta = or_none kwargs; cursor = cursor; cwd = cwd }))
      >>= λ params.
          request_model_from_dict serialize_params "session/list" params list_sessions_response self

  unfoldable pub set_session_mode :
      String → String → Fields → Connection → Result Exn (Awaiting × Connection)
  unfolding construct request_model_from_dict
  set_session_mode mode_id session_id kwargs self =
      construct errors (
        set_session_mode_params
          (record { field_meta = or_none kwargs; mode_id = mode_id; session_id = session_id }))
      >>= λ params.
          request_model_from_dict serialize_params "session/set_mode" params
            set_session_mode_response self

  unfoldable pub set_session_model :
      String → String → Fields → Connection → Result Exn (Awaiting × Connection)
  unfolding construct request_model_from_dict
  set_session_model model_id session_id kwargs self =
      construct errors (
        set_session_model_params
          (record { field_meta = or_none kwargs; model_id = model_id; session_id = session_id }))
      >>= λ params.
          request_model_from_dict serialize_params "session/set_model" params
            set_session_model_response self

  unfoldable pub authenticate : String → Fields → Connection → Result Exn (Awaiting × Connection)
  unfolding construct request_model_from_dict
  authenticate method_id kwargs self =
      construct errors
        (authenticate_params (record { field_meta = or_none kwargs; method_id = method_id }))
      >>= λ params.
          request_model_from_dict serialize_params "authenticate" params authenticate_response self

  unfoldable pub prompt :
      List ContentBlock → String → Fields → Connection → Result Exn (Awaiting × Connection)
  unfolding construct request_model
  prompt blocks session_id kwargs self =
      construct errors (
        prompt_params
          (record { field_meta = or_none kwargs; prompt = blocks; session_id = session_id }))
      >>= λ params. request_model serialize_params "session/prompt" params prompt_response self

  unfoldable pub fork_session :
      String
      → String
      → Option (List McpServer)
      → Fields
      → Connection
      → Result Exn (Awaiting × Connection)
  unfolding construct request_model
  fork_session cwd session_id mcp_servers kwargs self =
      construct errors (
        fork_session_params (record {
          field_meta = or_none kwargs;
          cwd = cwd;
          session_id = session_id;
          mcp_servers = mcp_servers;
        }))
      >>= λ params. request_model serialize_params "session/fork" params fork_session_response self

  unfoldable pub resume_session :
      String
      → String
      → Option (List McpServer)
      → Fields
      → Connection
      → Result Exn (Awaiting × Connection)
  unfolding construct request_model
  resume_session cwd session_id mcp_servers kwargs self =
      construct errors (
        resume_session_params (record {
          field_meta = or_none kwargs;
          cwd = cwd;
          session_id = session_id;
          mcp_servers = mcp_servers;
        }))
      >>= λ params.
          request_model serialize_params "session/resume" params resume_session_response self

  unfoldable pub cancel : String → Fields → Connection → Result Exn Connection
  unfolding construct notify_model
  cancel session_id kwargs self =
      construct errors
        (cancel_params (record { field_meta = or_none kwargs; session_id = session_id }))
      >>= λ params. notify_model serialize_params "session/cancel" params self

-- An extension's parameters are sent as they are, under the name with its mark.
unfoldable pub ext_method : String → Fields → Connection → Result Exn (ℕ × Connection)
unfolding send_request
ext_method method params self = send_request ("_" <> method) (obj params) self

unfoldable pub ext_notification : String → Fields → Connection → Result Exn Connection
unfolding send_notification
ext_notification method params self = send_notification ("_" <> method) (obj params) self
