-- ===== src/Peers/Delivery.antt =====
-- A client's request at its agent: what is sent, and which attribute answers it.
use agent_client_protocol_py.Base.{
  ◌≡◌, ◌∙◌, ap, refl, ℕ, pos, ◌≤◌, ◌<◌, string_eq, Bool, true, false, ◌||◌, not, Option, some, [],
  ◌∷◌, ◌++◌, Json, obj, Fields, ok, err, ◌⊎◌, inl, inr, Bool-cases, ℤ, Value,
}
use agent_client_protocol_py.Base.Dict.{lookup, insert}
use agent_client_protocol_py.Exceptions.{validation_error}
use agent_client_protocol_py.Schema.{
  Params, in_bounds, uint16-bound, uint16-out, ClientCapabilities, Implementation,
}
use agent_client_protocol_py.Connection.{Connection}
use agent_client_protocol_py.Utils.{Awaiting}
use agent_client_protocol_py.Router.{request, call, handle, extension_name}
use agent_client_protocol_py.Router.Agent.{Agent, build_agent_router}
use agent_client_protocol_py.Router.Answers.{
  answer, handle_plain, handle_normalized, build_agent_router-answer,
}
use agent_client_protocol_py.Peers.{handler_call}
use agent_client_protocol_py.Peers.Asks.{ask-sends, ask-refused, frame_of, handler_call-request}
use agent_client_protocol_py.Peers.ClientAsks.{
  AgentCall, initialize, new_session, load_session, list_sessions, set_session_mode,
  set_session_model, authenticate, prompt, fork_session, resume_session, served_as, is_unstable,
  params_of, ask_of, perform, perform-ask,
}
use agent_client_protocol_py.Peers.ClientSide

module _ {M W : Type 0} (dump : M → Json) (agent : Agent M W) where
  -- The unstable requests, where the agent uses the unstable protocol.
  unstable-answer :
      (c : AgentCall) (params : Json) (w : W)
      → is_unstable c ≡ true
      → call (build_agent_router dump agent true) (served_as c).method params request w
        ≡ answer dump agent (served_as c) params w
  unfolding build_agent_router call handle extension_name lookup insert string_eq
  unstable-answer (list_sessions _ _ _) params w h =
      handle_plain dump agent "session/list" "list_sessions" params w
  unstable-answer (set_session_model _ _ _) params w h =
      handle_normalized dump agent "session/set_model" "set_session_model" params w
  unstable-answer (fork_session _ _ _ _) params w h =
      handle_plain dump agent "session/fork" "fork_session" params w
  unstable-answer (resume_session _ _ _ _) params w h =
      handle_plain dump agent "session/resume" "resume_session" params w
  unstable-answer (initialize _ _ _ _) params w h = cc
  unstable-answer (new_session _ _ _) params w h = cc
  unstable-answer (load_session _ _ _ _) params w h = cc
  unstable-answer (set_session_mode _ _ _) params w h = cc
  unstable-answer (authenticate _ _) params w h = cc
  unstable-answer (prompt _ _ _) params w h = cc

  call-answer :
      (c : AgentCall) (u : Bool) (params : Json) (w : W)
      → (not (is_unstable c) || u) ≡ true
      → call (build_agent_router dump agent u) (served_as c).method params request w
        ≡ answer dump agent (served_as c) params w
  call-answer (initialize _ _ _ _) u params w h =
      (build_agent_router-answer dump agent u params w).0
  call-answer (new_session _ _ _) u params w h =
      (build_agent_router-answer dump agent u params w).1.0
  call-answer (load_session _ _ _ _) u params w h =
      (build_agent_router-answer dump agent u params w).1.1.0
  call-answer (set_session_mode _ _ _) u params w h =
      (build_agent_router-answer dump agent u params w).1.1.1.0
  call-answer (prompt _ _ _) u params w h =
      (build_agent_router-answer dump agent u params w).1.1.1.1.0
  call-answer (authenticate _ _) u params w h =
      (build_agent_router-answer dump agent u params w).1.1.1.1.1.0
  call-answer (list_sessions a b kw) true params w h =
      unstable-answer (list_sessions a b kw) params w refl
  call-answer (set_session_model a b kw) true params w h =
      unstable-answer (set_session_model a b kw) params w refl
  call-answer (fork_session a b m kw) true params w h =
      unstable-answer (fork_session a b m kw) params w refl
  call-answer (resume_session a b m kw) true params w h =
      unstable-answer (resume_session a b m kw) params w refl
  call-answer (list_sessions _ _ _) false params w h = cc
  call-answer (set_session_model _ _ _) false params w h = cc
  call-answer (fork_session _ _ _ _) false params w h = cc
  call-answer (resume_session _ _ _ _) false params w h = cc

  -- A request method of the client's side, called with numbers in bounds, sends one frame after
  -- those sent before. An agent's connection that runs the frame's message answers what the
  -- agent's attribute of the method's own name does with the dumped parameters, if the method is
  -- a stable one or the agent uses the unstable protocol.
  pub perform-answer :
      (serialize_params : Params → Fields) (errors : Params → Value) (c : AgentCall) (u : Bool)
      (self : Connection) (w : W)
      → in_bounds (params_of c) ≡ true
      → (not (is_unstable c) || u) ≡ true
      → (a : Awaiting) × (t : Connection) × (message : Fields) × (perform serialize_params errors c
            self
          ≡ ok (a, t))
        × (t.sent ≡ self.sent ++ (obj message ∷ []))
        × (handler_call (build_agent_router dump agent u) message request w
            ≡ some (answer dump agent (served_as c) (obj (serialize_params (params_of c))) w))
  perform-answer serialize_params errors c u self w bounded served =
      let (f, t, sends, asks, frames) = ask-sends serialize_params errors (ask_of c) self bounded in
      (
        _,
        t,
        frame_of serialize_params errors (ask_of c) self,
        perform-ask serialize_params errors c self ∙ asks,
        frames,
        handler_call-request _ _ _ _ request w
            ∙ ap some (call-answer c u (obj (serialize_params (params_of c))) w served),
      )

-- An `initialize` is sent exactly if the version is a number from 0 to 65535; else the call raises
-- a validation error.
pub initialize-bounds :
    (serialize_params : Params → Fields) (errors : Params → Value) (version : ℤ)
    (capabilities : Option ClientCapabilities) (info : Option Implementation) (kwargs : Fields)
    (self : Connection)
    → let r = ClientSide.initialize serialize_params errors version capabilities info kwargs self in
      ((n : ℕ) × (version ≡ pos n)
        × (n ≤ 65535)
        × (a : Awaiting) × (t : Connection) × (r ≡ ok (a, t)))
      ⊎ (((n : ℕ) → version ≡ pos n → 65535 < n) × (e : Value) × (r ≡ err (validation_error e)))
unfolding perform in_bounds
initialize-bounds serialize_params errors version capabilities info kwargs self =
    elim (Bool-cases (in_bounds (params_of c))) [
      | inl bounded ↦
          let (n, is, below) = uint16-bound version bounded in
          let (f, t, sends, asks, frames) =
            ask-sends serialize_params errors (ask_of c) self bounded in
          inl (n, is, below, _, t, perform-ask serialize_params errors c self ∙ asks)
      | inr out ↦ inr (
        (λ n is. uint16-out version out n is),
        _,
        perform-ask serialize_params errors c self
            ∙ ask-refused serialize_params errors (ask_of c) self out,
      )
    ]
  where
    c : AgentCall
    c = initialize version capabilities info kwargs
