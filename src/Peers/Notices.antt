-- ===== src/Peers/Notices.antt =====
-- The notifications and the extensions of both sides, and what each reaches.
use agent_client_protocol_py.Base.{
  ◌≡◌, ◌∙◌, ap, refl, ℕ, String, string_eq, Bool, Option, none, some, [], ◌∷◌, ◌++◌, ◌<>◌, Json,
  obj, Fields, ok, err, arith, false, if◌then◌else◌, Value,
}
use agent_client_protocol_py.Base.Dict.{lookup, insert}
use agent_client_protocol_py.Exceptions.{request_error, method_not_found}
use agent_client_protocol_py.Schema.{
  Params, SessionUpdate, cancel_params, session_update_params, in_bounds,
}
use agent_client_protocol_py.Connection.{
  Connection, send, dumps, notify_observers, send_notification, send_request, notification_fields,
  request_fields,
}
use agent_client_protocol_py.Router.{
  Reply, no_result, AsyncHandler, request, notification, call, handle, extension_name, RouteKind,
  MessageRouter, RequestHandler, is_request,
}
use agent_client_protocol_py.Router.{extension_name-append}
use agent_client_protocol_py.Router.Agent.{
  Agent, build_agent_router, handle_extension_request, handle_extension_notification,
}
use agent_client_protocol_py.Router.Client.{build_client_router}
use agent_client_protocol_py.Utils.{notify_model}
use agent_client_protocol_py.Peers.{or_none, handler_call, construct}
use agent_client_protocol_py.Peers.Asks.{handler_call-request, handler_call-notification}
use agent_client_protocol_py.Peers.ClientSide
use agent_client_protocol_py.Peers.AgentSide

module _ {M W : Type 0} (dump : M → Json) (serialize_params : Params → Fields)
    (errors : Params → Value) where
  -- What the attribute that a notification reaches makes of it.
  abbrev pub noticed : String → Option (AsyncHandler M W) → Json → W → Reply M W
  noticed method none params w = (err (request_error (method_not_found method)), w)
  noticed method (some func) params w = func params w

  handle_notice :
      (method : String) (func : Option (AsyncHandler M W)) (params : Json) (w : W)
      → handle
          (record {
            method = method;
            func = func;
            kind = notification;
            optional = false;
            default_result = no_result;
            adapt_result = none;
            warn_unstable = false;
          })
          params
          w
        ≡ noticed method func params w
  unfolding handle
  handle_notice method none params w = refl
  handle_notice method (some func) params w = ground arith

  -- `cancel` of a client's side reaches the agent's `cancel`, and `session_update` of an agent's
  -- side the client's `session_update`: each sends one frame without an id, and the other side's
  -- router, as it runs the frame's message, gives the dumped parameters to that attribute.
  pub notices-noticed :
      (agent client : Agent M W) (session_id : String) (update : SessionUpdate) (kwargs : Fields)
      (u : Bool) (self : Connection) (w : W)
      → let cancelled =
          cancel_params (record { field_meta = or_none kwargs; session_id = session_id }) in
        let updated =
          session_update_params
            (record { field_meta = or_none kwargs; session_id = session_id; update = update }) in
        ((t : Connection) × (message : Fields) × (ClientSide.cancel serialize_params errors
              session_id kwargs self
            ≡ ok t)
          × (t.sent ≡ self.sent ++ (obj message ∷ []))
          × (handler_call (build_agent_router dump agent u) message notification w
              ≡ some (
                  noticed "session/cancel"
                    (agent.attribute "cancel")
                    (obj (serialize_params cancelled))
                    w)))
        × ((t : Connection) × (message : Fields) × (AgentSide.session_update serialize_params errors
                session_id update kwargs self
              ≡ ok t)
            × (t.sent ≡ self.sent ++ (obj message ∷ []))
            × (handler_call (build_client_router dump client u) message notification w
                ≡ some (
                    noticed "session/update"
                      (client.attribute "session_update")
                      (obj (serialize_params updated))
                      w)))
  unfolding ClientSide.cancel AgentSide.session_update construct in_bounds notify_model
      send_notification send dumps notify_observers build_agent_router build_client_router call
      extension_name lookup insert string_eq
  notices-noticed agent client session_id update kwargs u self w = (
    (
      _,
      _,
      refl,
      refl,
      handler_call-notification _ "session/cancel" _ notification w
          ∙ ap some (handle_notice "session/cancel" (agent.attribute "cancel") _ w),
    ),
    (
      _,
      _,
      refl,
      refl,
      handler_call-notification _ "session/update" _ notification w
          ∙ ap some (handle_notice "session/update" (client.attribute "session_update") _ w),
    ),
  )

module _ {M W : Type 0} (dump : M → Json) where
  call-extension :
      (router : MessageRouter M W) (name : String) (params : Fields) (kind : RouteKind)
      (ext : RequestHandler M W) (w : W)
      → (if is_request kind then router.request_extensions else router.notification_extensions)
        ≡ some ext
      → call router ("_" <> name) (obj params) kind w ≡ ext name params w
  unfolding call
  call-extension router name params kind ext w has = ground (arith, has, extension_name-append name)

  -- The extension methods of both sides reach the other side's own, under the name that the caller
  -- gave and with the parameters as they are: one frame is sent, a request or a notification, and
  -- the other side's router gives it to its handler of extensions.
  pub extensions-handled :
      (other : Agent M W) (name : String) (params : Fields) (u : Bool) (self : Connection) (w : W)
      → ((f : ℕ) × (t : Connection) × (message : Fields) × (ClientSide.ext_method name params self
            ≡ ok (f, t))
          × (AgentSide.ext_method name params self ≡ ok (f, t))
          × (t.sent ≡ self.sent ++ (obj message ∷ []))
          × (handler_call (build_agent_router dump other u) message request w
              ≡ some (handle_extension_request dump other name params w))
          × (handler_call (build_client_router dump other u) message request w
              ≡ some (handle_extension_request dump other name params w)))
        × ((t : Connection) × (message : Fields) × (ClientSide.ext_notification name params self
              ≡ ok t)
            × (AgentSide.ext_notification name params self ≡ ok t)
            × (t.sent ≡ self.sent ++ (obj message ∷ []))
            × (handler_call (build_agent_router dump other u) message notification w
                ≡ some (handle_extension_notification dump other name params w))
            × (handler_call (build_client_router dump other u) message notification w
                ≡ some (handle_extension_notification dump other name params w)))
  unfolding ClientSide.ext_method AgentSide.ext_method ClientSide.ext_notification
      AgentSide.ext_notification send_request send_notification send dumps notify_observers
      build_agent_router build_client_router
  extensions-handled other name params u self w =
      let agent_router = build_agent_router dump other u in
      let client_router = build_client_router dump other u in
      (
        (
          _,
          _,
          request_fields self.next_request_id ("_" <> name) (obj params),
          refl,
          refl,
          refl,
          handler_call-request agent_router _ _ _ request w
              ∙ ap some (call-extension agent_router name params request _ w refl),
          handler_call-request client_router _ _ _ request w
              ∙ ap some (call-extension client_router name params request _ w refl),
        ),
        (
          _,
          notification_fields ("_" <> name) (obj params),
          refl,
          refl,
          refl,
          handler_call-notification agent_router _ _ notification w
              ∙ ap some (call-extension agent_router name params notification _ w refl),
          handler_call-notification client_router _ _ notification w
              ∙ ap some (call-extension client_router name params notification _ w refl),
        ),
      )
