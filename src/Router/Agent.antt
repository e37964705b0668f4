-- ===== src/Router/Agent.antt =====
-- `build_agent_router` of src/acp/agent/router.py, with the method names of src/acp/meta.py.
use agent_client_protocol_py.Base.{
  String, string_eq, Bool, true, false, not, Option, none, some, Json, ok, err, ◌<>◌, ◌&&◌,
}
use agent_client_protocol_py.Exceptions.{request_error, method_not_found}
use agent_client_protocol_py.Router.{
  Returned, no_result, AsyncHandler, RequestHandler, normalize_result, request, notification,
  MessageRouter, new_router, add_route,
}

-- The agent as the router sees it: what `_make_func` makes of each attribute, and the two methods
-- for extensions, if there are any.
pub record Agent (M W : Type 0) : Type 0 where
  pub attribute : String → Option (AsyncHandler M W)
  pub ext_method : Option (RequestHandler M W)
  pub ext_notification : Option (RequestHandler M W)

module _ {M W : Type 0} (serialize_params : M → Json) where
  unfoldable pub route_request :
      String
      → String
      → Bool
      → Returned M
      → Option (Returned M → Returned M)
      → Bool
      → Agent M W
      → MessageRouter M W
      → MessageRouter M W
  unfolding add_route
  route_request method attr optional default_result adapt_result unstable agent self =
      add_route
        (record {
          method = method;
          func = agent.attribute attr;
          kind = request;
          optional = optional;
          default_result = default_result;
          adapt_result = adapt_result;
          warn_unstable = unstable && not self.use_unstable_protocol;
        })
        self

  unfoldable pub route_notification :
      String → String → Bool → Bool → Agent M W → MessageRouter M W → MessageRouter M W
  unfolding add_route
  route_notification method attr optional unstable agent self =
      add_route
        (record {
          method = method;
          func = agent.attribute attr;
          kind = notification;
          optional = optional;
          default_result = no_result;
          adapt_result = none;
          warn_unstable = unstable && not self.use_unstable_protocol;
        })
        self

  -- The two extension handlers.
  unfoldable pub handle_extension_request : Agent M W → RequestHandler M W
  handle_extension_request agent name payload w = elim agent.ext_method [
    | none ↦ (err (request_error (method_not_found ("_" <> name))), w)
    | some ext ↦ ext name payload w
  ]

  unfoldable pub handle_extension_notification : Agent M W → RequestHandler M W
  handle_extension_notification agent name payload w = elim agent.ext_notification [
    | none ↦ (ok no_result, w)
    | some ext ↦
        let (result, w') = ext name payload w in
        elim result [ err e ↦ (err e, w') | ok value ↦ (ok no_result, w') ]
  ]

  abbrev plain : String → String → Agent M W → MessageRouter M W → MessageRouter M W
  plain method attr = route_request method attr false no_result none false

  abbrev normalized : String → String → Agent M W → MessageRouter M W → MessageRouter M W
  normalized method attr =
      route_request method attr false no_result (some (normalize_result serialize_params)) false

  abbrev unstable : String → String → Agent M W → MessageRouter M W → MessageRouter M W
  unstable method attr = route_request method attr false no_result none true

  unfoldable pub build_agent_router : Agent M W → Bool → MessageRouter M W
  unfolding route_request route_notification handle_extension_request handle_extension_notification
      normalize_result
  build_agent_router agent use_unstable_protocol =
      let r0 = new_router use_unstable_protocol in
      let r1 = plain "initialize" "initialize" agent r0 in
      let r2 = plain "session/new" "new_session" agent r1 in
      let r3 = normalized "session/load" "load_session" agent r2 in
      let r4 = unstable "session/list" "list_sessions" agent r3 in
      let r5 = normalized "session/set_mode" "set_session_mode" agent r4 in
      let r6 = plain "session/prompt" "prompt" agent r5 in
      let r7 =
        route_request "session/set_model" "set_session_model" false no_result
          (some (normalize_result serialize_params)) true agent r6 in
      let r8 = normalized "authenticate" "authenticate" agent r7 in
      let r9 = unstable "session/fork" "fork_session" agent r8 in
      let r10 = unstable "session/resume" "resume_session" agent r9 in
      let r11 = route_notification "session/cancel" "cancel" false false agent r10 in
      record r11 {
        request_extensions = some (handle_extension_request agent);
        notification_extensions = some (handle_extension_notification agent);
      }
