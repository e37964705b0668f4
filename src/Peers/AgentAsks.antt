-- ===== src/Peers/AgentAsks.antt =====
-- The requests of an agent, and the attribute of the client that each reaches.
use agent_client_protocol_py.Base.{
  ◌≡◌, ◌∙◌, ap, refl, ℤ, String, Bool, true, false, Option, some, List, [], ◌∷◌, ◌++◌, Json, obj,
  Fields, Result, ok, Value,
}
use agent_client_protocol_py.Exceptions.{Exn}
use agent_client_protocol_py.Schema.{
  ToolCallUpdate, PermissionOption, EnvVariable, Params, in_bounds, request_permission_params,
  read_text_file_params, write_text_file_params, create_terminal_params, terminal_output_params,
  release_terminal_params, wait_for_terminal_exit_params, kill_terminal_params,
}
use agent_client_protocol_py.Connection.{Connection}
use agent_client_protocol_py.Utils.{
  Awaiting, request_model, request_optional_model, as_model, as_optional_model, Reading,
  ResponseModel, request_permission_response, read_text_file_response, write_text_file_response,
  create_terminal_response, terminal_output_response, release_terminal_response,
  wait_for_terminal_exit_response, kill_terminal_command_response,
}
use agent_client_protocol_py.Router.{request, call}
use agent_client_protocol_py.Router.Agent.{Agent}
use agent_client_protocol_py.Router.Client.{
  ClientRequest, row, client_answer, build_client_router, build_client_router-client_answer,
}
use agent_client_protocol_py.Peers.{or_none, handler_call}
use agent_client_protocol_py.Peers.Asks.{Ask, ask, ask-sends, frame_of, handler_call-request}
use agent_client_protocol_py.Peers.AgentSide

-- A call of one of the request methods of `AgentSideConnection`.
pub data ClientCall : Type 0 where
  request_permission : List PermissionOption → String → ToolCallUpdate → Fields → ClientCall
  read_text_file : String → String → Option ℤ → Option ℤ → Fields → ClientCall
  write_text_file : String → String → String → Fields → ClientCall
  create_terminal :
      String
      → String
      → Option (List String)
      → Option String
      → Option (List EnvVariable)
      → Option ℤ
      → Fields
      → ClientCall
  terminal_output : String → String → Fields → ClientCall
  release_terminal : String → String → Fields → ClientCall
  wait_for_terminal_exit : String → String → Fields → ClientCall
  kill_terminal : String → String → Fields → ClientCall

-- The attribute of the client that has the method's own name, the method that stands for it in the
-- protocol, whether it is optional, and whether its result is normalized.
abbrev pub served_by : ClientCall → ClientRequest
served_by (request_permission _ _ _ _) =
    row "session/request_permission" "request_permission" false false
served_by (read_text_file _ _ _ _ _) = row "fs/read_text_file" "read_text_file" false false
served_by (write_text_file _ _ _ _) = row "fs/write_text_file" "write_text_file" false false
served_by (create_terminal _ _ _ _ _ _ _) = row "terminal/create" "create_terminal" true false
served_by (terminal_output _ _ _) = row "terminal/output" "terminal_output" true false
served_by (release_terminal _ _ _) = row "terminal/release" "release_terminal" true true
served_by (wait_for_terminal_exit _ _ _) =
    row "terminal/wait_for_exit" "wait_for_terminal_exit" true false
served_by (kill_terminal _ _ _) = row "terminal/kill" "kill_terminal" true true

abbrev pub params_of : ClientCall → Params
params_of (request_permission options session_id tool_call kwargs) =
    request_permission_params (record {
      field_meta = or_none kwargs;
      options = options;
      session_id = session_id;
      tool_call = tool_call;
    })
params_of (read_text_file path session_id limit line kwargs) = read_text_file_params (record {
  field_meta = or_none kwargs;
  path = path;
  session_id = session_id;
  limit = limit;
  line = line;
})
params_of (write_text_file content path session_id kwargs) = write_text_file_params (record {
  field_meta = or_none kwargs;
  content = content;
  path = path;
  session_id = session_id;
})
params_of (create_terminal command session_id args cwd env output_byte_limit kwargs) =
    create_terminal_params (record {
      field_meta = or_none kwargs;
      command = command;
      session_id = session_id;
      args = args;
      cwd = cwd;
      env = env;
      output_byte_limit = output_byte_limit;
    })
params_of (terminal_output session_id terminal_id kwargs) =
    terminal_output_params
      (record { field_meta = or_none kwargs; session_id = session_id; terminal_id = terminal_id })
params_of (release_terminal session_id terminal_id kwargs) =
    release_terminal_params
      (record { field_meta = or_none kwargs; session_id = session_id; terminal_id = terminal_id })
params_of (wait_for_terminal_exit session_id terminal_id kwargs) =
    wait_for_terminal_exit_params
      (record { field_meta = or_none kwargs; session_id = session_id; terminal_id = terminal_id })
params_of (kill_terminal session_id terminal_id kwargs) =
    kill_terminal_params
      (record { field_meta = or_none kwargs; session_id = session_id; terminal_id = terminal_id })

abbrev pub model_of : ClientCall → ResponseModel
model_of (request_permission _ _ _ _) = request_permission_response
model_of (read_text_file _ _ _ _ _) = read_text_file_response
model_of (write_text_file _ _ _ _) = write_text_file_response
model_of (create_terminal _ _ _ _ _ _ _) = create_terminal_response
model_of (terminal_output _ _ _) = terminal_output_response
model_of (release_terminal _ _ _) = release_terminal_response
model_of (wait_for_terminal_exit _ _ _) = wait_for_terminal_exit_response
model_of (kill_terminal _ _ _) = kill_terminal_command_response

abbrev pub reading_of : ClientCall → Reading
reading_of (write_text_file _ _ _ _) = as_optional_model
reading_of (release_terminal _ _ _) = as_optional_model
reading_of (kill_terminal _ _ _) = as_optional_model
reading_of _ = as_model

abbrev pub ask_of : ClientCall → Ask
ask_of c = record {
  method = (served_by c).method;
  params = params_of c;
  reading = reading_of c;
  response_model = model_of c;
}

module _ (serialize_params : Params → Fields) (errors : Params → Value) where
  unfoldable pub consult : ClientCall → Connection → Result Exn (Awaiting × Connection)
  consult (request_permission options session_id tool_call kwargs) =
      AgentSide.request_permission serialize_params errors options session_id tool_call kwargs
  consult (read_text_file path session_id limit line kwargs) =
      AgentSide.read_text_file serialize_params errors path session_id limit line kwargs
  consult (write_text_file content path session_id kwargs) =
      AgentSide.write_text_file serialize_params errors content path session_id kwargs
  consult (create_terminal command session_id args cwd env output_byte_limit kwargs) =
      AgentSide.create_terminal serialize_params errors command session_id args cwd env
        output_byte_limit kwargs
  consult (terminal_output session_id terminal_id kwargs) =
      AgentSide.terminal_output serialize_params errors session_id terminal_id kwargs
  consult (release_terminal session_id terminal_id kwargs) =
      AgentSide.release_terminal serialize_params errors session_id terminal_id kwargs
  consult (wait_for_terminal_exit session_id terminal_id kwargs) =
      AgentSide.wait_for_terminal_exit serialize_params errors session_id terminal_id kwargs
  consult (kill_terminal session_id terminal_id kwargs) =
      AgentSide.kill_terminal serialize_params errors session_id terminal_id kwargs

  pub consult-ask :
      (c : ClientCall) (self : Connection)
      → consult c self ≡ ask serialize_params errors (ask_of c) self
  unfolding consult ask AgentSide.request_permission AgentSide.read_text_file
      AgentSide.write_text_file AgentSide.create_terminal AgentSide.terminal_output
      AgentSide.release_terminal AgentSide.wait_for_terminal_exit AgentSide.kill_terminal
      request_model request_optional_model
  consult-ask (request_permission _ _ _ _) self = refl
  consult-ask (read_text_file _ _ _ _ _) self = refl
  consult-ask (write_text_file _ _ _ _) self = refl
  consult-ask (create_terminal _ _ _ _ _ _ _) self = refl
  consult-ask (terminal_output _ _ _) self = refl
  consult-ask (release_terminal _ _ _) self = refl
  consult-ask (wait_for_terminal_exit _ _ _) self = refl
  consult-ask (kill_terminal _ _ _) self = refl

module _ {M W : Type 0} (dump : M → Json) (client : Agent M W) where
  call-served_by :
      (c : ClientCall) (u : Bool) (params : Json) (w : W)
      → call (build_client_router dump client u) (served_by c).method params request w
        ≡ client_answer dump client (served_by c) params w
  call-served_by (request_permission _ _ _ _) u params w =
      (build_client_router-client_answer dump client u params w).1.1.0
  call-served_by (read_text_file _ _ _ _ _) u params w =
      (build_client_router-client_answer dump client u params w).1.0
  call-served_by (write_text_file _ _ _ _) u params w =
      (build_client_router-client_answer dump client u params w).0
  call-served_by (create_terminal _ _ _ _ _ _ _) u params w =
      (build_client_router-client_answer dump client u params w).1.1.1.0
  call-served_by (terminal_output _ _ _) u params w =
      (build_client_router-client_answer dump client u params w).1.1.1.1.0
  call-served_by (release_terminal _ _ _) u params w =
      (build_client_router-client_answer dump client u params w).1.1.1.1.1.0
  call-served_by (wait_for_terminal_exit _ _ _) u params w =
      (build_client_router-client_answer dump client u params w).1.1.1.1.1.1.0
  call-served_by (kill_terminal _ _ _) u params w =
      (build_client_router-client_answer dump client u params w).1.1.1.1.1.1.1.0

  -- A request method of the agent's side, called with numbers in bounds, sends one frame after
  -- those sent before. A client's connection that runs the frame's message answers what the
  -- client's attribute of the method's own name does with the dumped parameters, or, without
  -- the attribute, an optional method's default.
  pub consult-answer :
      (serialize_params : Params → Fields) (errors : Params → Value) (c : ClientCall) (u : Bool)
      (self : Connection) (w : W)
      → in_bounds (params_of c) ≡ true
      → (a : Awaiting) × (t : Connection) × (message : Fields) × (consult serialize_params errors c
            self
          ≡ ok (a, t))
        × (t.sent ≡ self.sent ++ (obj message ∷ []))
        × (handler_call (build_client_router dump client u) message request w
            ≡ some
                (client_answer dump client (served_by c) (obj (serialize_params (params_of c))) w))
  consult-answer serialize_params errors c u self w bounded =
      let (f, t, sends, asks, frames) = ask-sends serialize_params errors (ask_of c) self bounded in
      (
        _,
        t,
        frame_of serialize_params errors (ask_of c) self,
        consult-ask serialize_params errors c self ∙ asks,
        frames,
        handler_call-request _ _ _ _ request w
            ∙ ap some (call-served_by c u (obj (serialize_params (params_of c))) w),
      )
