-- ===== src/Peers/AgentSide.antt =====
-- `AgentSideConnection` of src/acp/agent/connection.py: an agent that asks its client.
use agent_client_protocol_py.Base.{
  ℕ, ℤ, String, ◌<>◌, Option, List, obj, Fields, Result, ◌>>=◌, Value,
}
use agent_client_protocol_py.Exceptions.{Exn}
use agent_client_protocol_py.Schema.{
  create_terminal_params, kill_terminal_params, read_text_file_params, release_terminal_params,
  request_permission_params, session_update_params, terminal_output_params,
  wait_for_terminal_exit_params, write_text_file_params, EnvVariable, PermissionOption,
  SessionUpdate, ToolCallUpdate, Params,
}
use agent_client_protocol_py.Connection.{Connection, send_request, send_notification}
use agent_client_protocol_py.Utils.{
  Awaiting, request_model, request_optional_model, notify_model, request_permission_response,
  read_text_file_response, write_text_file_response, create_terminal_response,
  terminal_output_response, release_terminal_response, wait_for_terminal_exit_response,
  kill_terminal_command_response,
}
use agent_client_protocol_py.Peers.{or_none, construct}

module _ (serialize_params : Params → Fields) (errors : Params → Value) where
  unfoldable pub session_update :
      String → SessionUpdate → Fields → Connection → Result Exn Connection
  unfolding construct notify_model
  session_update session_id update kwargs self =
      construct errors (
        session_update_params
          (record { field_meta = or_none kwargs; session_id = session_id; update = update }))
      >>= λ params. notify_model serialize_params "session/update" params self

  unfoldable pub request_permission :
      List PermissionOption
      → String
      → ToolCallUpdate
      → Fields
      → Connection
      → Result Exn (Awaiting × Connection)
  unfolding construct request_model
  request_permission options session_id tool_call kwargs self =
      construct errors (
        request_permission_params (record {
          field_meta = or_none kwargs;
          options = options;
          session_id = session_id;
          tool_call = tool_call;
        }))
      >>= λ params.
          request_model serialize_params "session/request_permission" params
            request_permission_response self

  unfoldable pub read_text_file :
      String
      → String
      → Option ℤ
      → Option ℤ
      → Fields
      → Connection
      → Result Exn (Awaiting × Connection)
  unfolding construct request_model
  read_text_file path session_id limit line kwargs self =
      construct errors (
        read_text_file_params (record {
          field_meta = or_none kwargs;
          path = path;
          session_id = session_id;
          limit = limit;
          line = line;
        }))
      >>= λ params.
          request_model serialize_params "fs/read_text_file" params read_text_file_response self

  unfoldable pub write_text_file :
      String → String → String → Fields → Connection → Result Exn (Awaiting × Connection)
  unfolding construct request_optional_model
  write_text_file content path session_id kwargs self =
      construct errors (
        write_text_file_params (record {
          field_meta = or_none kwargs;
          content = content;
          path = path;
          session_id = session_id;
        }))
      >>= λ params.
          request_optional_model serialize_params "fs/write_text_file" params
            write_text_file_response self

  unfoldable pub create_terminal :
      String
      → String
      → Option (List String)
      → Option String
      → Option (List EnvVariable)
      → Option ℤ
      → Fields
      → Connection
      → Result Exn (Awaiting × Connection)
  unfolding construct request_model
  create_terminal command session_id args cwd env output_byte_limit kwargs self =
      construct errors (
        create_terminal_params (record {
          field_meta = or_none kwargs;
          command = command;
          session_id = session_id;
          args = args;
          cwd = cwd;
          env = env;
          output_byte_limit = output_byte_limit;
        }))
      >>= λ params.
          request_model serialize_params "terminal/create" params create_terminal_response self

  unfoldable pub terminal_output :
      String → String → Fields → Connection → Result Exn (Awaiting × Connection)
  unfolding construct request_model
  terminal_output session_id terminal_id kwargs self =
      construct errors (
        terminal_output_params (record {
          field_meta = or_none kwargs;
          session_id = session_id;
          terminal_id = terminal_id;
        }))
      >>= λ params.
          request_model serialize_params "terminal/output" params terminal_output_response self

  unfoldable pub release_terminal :
      String → String → Fields → Connection → Result Exn (Awaiting × Connection)
  unfolding construct request_optional_model
  release_terminal session_id terminal_id kwargs self =
      construct errors (
        release_terminal_params (record {
          field_meta = or_none kwargs;
          session_id = session_id;
          terminal_id = terminal_id;
        }))
      >>= λ params.
          request_optional_model serialize_params "terminal/release" params
            release_terminal_response self

  unfoldable pub wait_for_terminal_exit :
      String → String → Fields → Connection → Result Exn (Awaiting × Connection)
  unfolding construct request_model
  wait_for_terminal_exit session_id terminal_id kwargs self =
      construct errors (
        wait_for_terminal_exit_params (record {
          field_meta = or_none kwargs;
          session_id = session_id;
          terminal_id = terminal_id;
        }))
      >>= λ params.
          request_model serialize_params "terminal/wait_for_exit" params
            wait_for_terminal_exit_response self

  unfoldable pub kill_terminal :
      String → String → Fields → Connection → Result Exn (Awaiting × Connection)
  unfolding construct request_optional_model
  kill_terminal session_id terminal_id kwargs self =
      construct errors (
        kill_terminal_params (record {
          field_meta = or_none kwargs;
          session_id = session_id;
          terminal_id = terminal_id;
        }))
      >>= λ params.
          request_optional_model serialize_params "terminal/kill" params
            kill_terminal_command_response self

-- An extension's parameters are sent as they are, under the name with its mark.
unfoldable pub ext_method : String → Fields → Connection → Result Exn (ℕ × Connection)
unfolding send_request
ext_method method params self = send_request ("_" <> method) (obj params) self

unfoldable pub ext_notification : String → Fields → Connection → Result Exn Connection
unfolding send_notification
ext_notification method params self = send_notification ("_" <> method) (obj params) self
