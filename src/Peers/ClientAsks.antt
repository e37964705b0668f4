-- ===== src/Peers/ClientAsks.antt =====
-- The requests of a client, and the attribute of the agent that each reaches.
use agent_client_protocol_py.Base.{
  ◌≡◌, refl, ℤ, String, string_eq, Bool, true, false, Option, some, List, Fields, Result, Value,
}
use mathlib.Core.Option.{get_or}
use agent_client_protocol_py.Exceptions.{Exn}
use agent_client_protocol_py.Schema.{
  ClientCapabilities, ContentBlock, Implementation, McpServer, Params, default_capabilities,
  initialize_params, new_session_params, load_session_params, list_sessions_params,
  set_session_mode_params, set_session_model_params, authenticate_params, prompt_params,
  fork_session_params, resume_session_params,
}
use agent_client_protocol_py.Connection.{Connection}
use agent_client_protocol_py.Utils.{
  Awaiting, request_model, request_model_from_dict, as_model, as_model_from_dict, Reading,
  ResponseModel, initialize_response, new_session_response, load_session_response,
  list_sessions_response, set_session_mode_response, set_session_model_response,
  authenticate_response, prompt_response, fork_session_response, resume_session_response,
}
use agent_client_protocol_py.Router.Answers.{Served, served}
use agent_client_protocol_py.Peers.{or_none}
use agent_client_protocol_py.Peers.Asks.{Ask, ask}
use agent_client_protocol_py.Peers.ClientSide

-- A call of one of the request methods of `ClientSideConnection`.
pub data AgentCall : Type 0 where
  initialize : ℤ → Option ClientCapabilities → Option Implementation → Fields → AgentCall
  new_session : String → List McpServer → Fields → AgentCall
  load_session : String → List McpServer → String → Fields → AgentCall
  list_sessions : Option String → Option String → Fields → AgentCall
  set_session_mode : String → String → Fields → AgentCall
  set_session_model : String → String → Fields → AgentCall
  authenticate : String → Fields → AgentCall
  prompt : List ContentBlock → String → Fields → AgentCall
  fork_session : String → String → Option (List McpServer) → Fields → AgentCall
  resume_session : String → String → Option (List McpServer) → Fields → AgentCall

-- The attribute of the agent that has the method's own name, the method that stands for it in the
-- protocol, and whether its result is normalized.
abbrev pub served_as : AgentCall → Served
served_as (initialize _ _ _ _) = served "initialize" "initialize" false
served_as (new_session _ _ _) = served "session/new" "new_session" false
served_as (load_session _ _ _ _) = served "session/load" "load_session" true
served_as (list_sessions _ _ _) = served "session/list" "list_sessions" false
served_as (set_session_mode _ _ _) = served "session/set_mode" "set_session_mode" true
served_as (set_session_model _ _ _) = served "session/set_model" "set_session_model" true
served_as (authenticate _ _) = served "authenticate" "authenticate" true
served_as (prompt _ _ _) = served "session/prompt" "prompt" false
served_as (fork_session _ _ _ _) = served "session/fork" "fork_session" false
served_as (resume_session _ _ _ _) = served "session/resume" "resume_session" false

abbrev pub is_unstable : AgentCall → Bool
is_unstable (list_sessions _ _ _) = true
is_unstable (set_session_model _ _ _) = true
is_unstable (fork_session _ _ _ _) = true
is_unstable (resume_session _ _ _ _) = true
is_unstable _ = false

abbrev pub params_of : AgentCall → Params
params_of (initialize version capabilities info kwargs) = initialize_params (record {
  field_meta = or_none kwargs;
  client_capabilities = some (get_or capabilities default_capabilities);
  client_info = info;
  protocol_version = version;
})
params_of (new_session cwd servers kwargs) =
    new_session_params (record { field_meta = or_none kwargs; cwd = cwd; mcp_servers = servers })
params_of (load_session cwd servers session kwargs) =
    load_session_params (record {
      field_meta = or_none kwargs;
      cwd = cwd;
      mcp_servers = servers;
      session_id = session;
    })
params_of (list_sessions cursor cwd kwargs) =
    list_sessions_params (record { field_meta = or_none kwargs; cursor = cursor; cwd = cwd })
params_of (set_session_mode mode session kwargs) =
    set_session_mode_params
      (record { field_meta = or_none kwargs; mode_id = mode; session_id = session })
params_of (set_session_model model session kwargs) =
    set_session_model_params
      (record { field_meta = or_none kwargs; model_id = model; session_id = session })
params_of (authenticate method kwargs) =
    authenticate_params (record { field_meta = or_none kwargs; method_id = method })
params_of (prompt blocks session kwargs) =
    prompt_params (record { field_meta = or_none kwargs; prompt = blocks; session_id = session })
params_of (fork_session cwd session servers kwargs) =
    fork_session_params (record {
      field_meta = or_none kwargs;
      cwd = cwd;
      mcp_servers = servers;
      session_id = session;
    })
params_of (resume_session cwd session servers kwargs) =
    resume_session_params (record {
      field_meta = or_none kwargs;
      cwd = cwd;
      mcp_servers = servers;
      session_id = session;
    })

abbrev pub model_of : AgentCall → ResponseModel
model_of (initialize _ _ _ _) = initialize_response
model_of (new_session _ _ _) = new_session_response
model_of (load_session _ _ _ _) = load_session_response
model_of (list_sessions _ _ _) = list_sessions_response
model_of (set_session_mode _ _ _) = set_session_mode_response
model_of (set_session_model _ _ _) = set_session_model_response
model_of (authenticate _ _) = authenticate_response
model_of (prompt _ _ _) = prompt_response
model_of (fork_session _ _ _ _) = fork_session_response
model_of (resume_session _ _ _ _) = resume_session_response

abbrev pub reading_of : AgentCall → Reading
reading_of (load_session _ _ _ _) = as_model_from_dict
reading_of (list_sessions _ _ _) = as_model_from_dict
reading_of (set_session_mode _ _ _) = as_model_from_dict
reading_of (set_session_model _ _ _) = as_model_from_dict
reading_of (authenticate _ _) = as_model_from_dict
reading_of _ = as_model

abbrev pub ask_of : AgentCall → Ask
ask_of c = record {
  method = (served_as c).method;
  params = params_of c;
  reading = reading_of c;
  response_model = model_of c;
}

module _ (serialize_params : Params → Fields) (errors : Params → Value) where
  unfoldable pub perform : AgentCall → Connection → Result Exn (Awaiting × Connection)
  perform (initialize v c i kw) = ClientSide.initialize serialize_params errors v c i kw
  perform (new_session cwd m kw) = ClientSide.new_session serialize_params errors cwd m kw
  perform (load_session cwd m s kw) = ClientSide.load_session serialize_params errors cwd m s kw
  perform (list_sessions c cwd kw) = ClientSide.list_sessions serialize_params errors c cwd kw
  perform (set_session_mode m s kw) = ClientSide.set_session_mode serialize_params errors m s kw
  perform (set_session_model m s kw) = ClientSide.set_session_model serialize_params errors m s kw
  perform (authenticate m kw) = ClientSide.authenticate serialize_params errors m kw
  perform (prompt b s kw) = ClientSide.prompt serialize_params errors b s kw
  perform (fork_session cwd s m kw) = ClientSide.fork_session serialize_params errors cwd s m kw
  perform (resume_session cwd s m kw) = ClientSide.resume_session serialize_params errors cwd s m kw

  pub perform-ask :
      (c : AgentCall) (self : Connection)
      → perform c self ≡ ask serialize_params errors (ask_of c) self
  unfolding perform ask ClientSide.initialize ClientSide.new_session ClientSide.load_session
      ClientSide.list_sessions ClientSide.set_session_mode ClientSide.set_session_model
      ClientSide.authenticate ClientSide.prompt ClientSide.fork_session ClientSide.resume_session
      request_model request_model_from_dict
  perform-ask (initialize v c i kw) self = refl
  perform-ask (new_session cwd m kw) self = refl
  perform-ask (load_session cwd m s kw) self = refl
  perform-ask (list_sessions c cwd kw) self = refl
  perform-ask (set_session_mode m s kw) self = refl
  perform-ask (set_session_model m s kw) self = refl
  perform-ask (authenticate m kw) self = refl
  perform-ask (prompt b s kw) self = refl
  perform-ask (fork_session cwd s m kw) self = refl
  perform-ask (resume_session cwd s m kw) self = refl
