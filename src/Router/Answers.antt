-- ===== src/Router/Answers.antt =====
-- What an agent's router answers.
use agent_client_protocol_py.Base.{
  ◌≡◌, ◌≢◌, refl, ◌∙◌, String, string_eq, Bool, true, false, Option, none, some, List, [], ◌∷◌,
  Json, ok, err, if◌then◌else◌, ◌<>◌, arith, ◌⊎◌, inl, inr,
}
use agent_client_protocol_py.Base.Dict.{lookup, insert, Dict}
use agent_client_protocol_py.Base.Lists.{All, pair}
use agent_client_protocol_py.Exceptions.{request_error, method_not_found}
use agent_client_protocol_py.Router.{
  Returned, Reply, request, notification, Route, handle, call, ensure_dict, extension_name,
  normalize_result, no_result,
}
use agent_client_protocol_py.Router.Names.{extension_name-append}
use agent_client_protocol_py.Router.Agent.{
  Agent, build_agent_router, handle_extension_request, handle_extension_notification,
}

-- A request that the agent serves: its method, the attribute that serves it, and whether the
-- result is normalized.
pub record Served : Type 0 where
  pub method : String
  pub attr : String
  pub is_normalized : Bool

abbrev pub served : String → String → Bool → Served
served method attr is_normalized = record {
  method = method;
  attr = attr;
  is_normalized = is_normalized;
}

abbrev pub stable_requests : List Served
stable_requests =
    served "initialize" "initialize" false
    ∷ served "session/new" "new_session" false
    ∷ served "session/load" "load_session" true
    ∷ served "session/set_mode" "set_session_mode" true
    ∷ served "session/prompt" "prompt" false
    ∷ served "authenticate" "authenticate" true
    ∷ []

module _ {M W : Type 0} (serialize_params : M → Json) (agent : Agent M W) where
  -- What the agent's handler answers, if it has one.
  abbrev pub answer : Served → Json → W → Reply M W
  answer row params w = elim (agent.attribute row.attr) [
    | none ↦ (err (request_error (method_not_found row.method)), w)
    | some func ↦ elim (func params w).0 [
      | err e ↦ (err e, (func params w).1)
      | ok value ↦ (
        ok (if row.is_normalized then normalize_result serialize_params value else value),
        (func params w).1,
      )
    ]
  ]

  pub handle_plain :
      (method attr : String) (params : Json) (w : W)
      → handle
          (record {
            method = method;
            func = agent.attribute attr;
            kind = request;
            optional = false;
            default_result = no_result;
            adapt_result = none;
            warn_unstable = false;
          })
          params
          w
        ≡ answer (served method attr false) params w
  unfolding handle
  handle_plain method attr params w = ground arith

  pub handle_normalized :
      (method attr : String) (params : Json) (w : W)
      → handle
          (record {
            method = method;
            func = agent.attribute attr;
            kind = request;
            optional = false;
            default_result = no_result;
            adapt_result = some (normalize_result serialize_params);
            warn_unstable = false;
          })
          params
          w
        ≡ answer (served method attr true) params w
  unfolding handle
  handle_normalized method attr params w = ground arith

  -- Each stable request reaches the attribute that serves it, whether the unstable protocol is
  -- used or not: its result or exception is the answer, normalized where the table says so, and
  -- an agent without the attribute answers that there is no such method.
  pub build_agent_router-answer :
      (use_unstable_protocol : Bool) (params : Json) (w : W)
      → All
          (λ row.
            call
              (build_agent_router serialize_params agent use_unstable_protocol)
              row.method
              params
              request
              w
            ≡ answer row params w)
          stable_requests
  unfolding build_agent_router call handle extension_name lookup insert string_eq
  build_agent_router-answer u params w = pair (handle_plain "initialize" "initialize" params w) (
      pair (handle_plain "session/new" "new_session" params w) (
        pair (handle_normalized "session/load" "load_session" params w) (
          pair (handle_normalized "session/set_mode" "set_session_mode" params w) (
            pair (handle_plain "session/prompt" "prompt" params w)
              (pair (handle_normalized "authenticate" "authenticate" params w) tt)))))

  refused : String → W → Reply M W
  refused method w = (err (request_error (method_not_found method)), w)

  -- The route of the method, if there is one.
  abbrev routed : Dict String (Route M W) → String → Json → W → Reply M W
  routed routes method params w = elim (lookup method routes) [
    | none ↦ refused method w
    | some route ↦ handle route params w
  ]

  abbrev Refuses : String → Json → W → String × Route M W → Type 0
  Refuses method params w (k, route) = (method ≢ k) ⊎ (handle route params w ≡ refused k w)

  routed-Refuses :
      (routes : Dict String (Route M W)) (method : String) (params : Json) (w : W)
      → All (Refuses method params w) routes
      → routed routes method params w ≡ refused method w
  unfolding lookup
  routed-Refuses [] method params w h = refl
  routed-Refuses ((k, route) ∷ routes) method params w (inl off, h) =
      ground (arith, off, routed-Refuses routes method params w h)
  routed-Refuses ((k, route) ∷ routes) method params w (inr gated, h) =
      ground (arith, gated, routed-Refuses routes method params w h)

  handle_unstable :
      (method attr : String) (adapt : Option (Returned M → Returned M)) (params : Json) (w : W)
      → handle
          (record {
            method = method;
            func = agent.attribute attr;
            kind = request;
            optional = false;
            default_result = no_result;
            adapt_result = adapt;
            warn_unstable = true;
          })
          params
          w
        ≡ refused method w
  unfolding handle refused
  handle_unstable method attr adapt params w = ground arith

  call-routed :
      (method : String) (params : Json) (w : W)
      → extension_name method ≡ none
      → call (build_agent_router serialize_params agent false) method params request w
        ≡ routed (build_agent_router serialize_params agent false).requests method params w
  unfolding call refused
  call-routed method params w e = rw (call, e) refl

  -- A text that is the method of no stable request and no extension is refused as a request, if the
  -- unstable protocol is not used: no handler of the agent runs.
  pub build_agent_router_refuses :
      (method : String) (params : Json) (w : W)
      → extension_name method ≡ none
      → All (λ row. method ≢ row.method) stable_requests
      → call (build_agent_router serialize_params agent false) method params request w
        ≡ (err (request_error (method_not_found method)), w)
  unfolding build_agent_router insert string_eq refused
  build_agent_router_refuses method params w e other =
      call-routed method params w e
      ∙ routed-Refuses _ method params w (
          pair (inl other.0) (
            pair (inl other.1.0) (
              pair (inl other.1.1.0) (
                pair (inr (handle_unstable "session/list" "list_sessions" none params w)) (
                  pair (inl other.1.1.1.0) (
                    pair (inl other.1.1.1.1.0) (
                      pair
                        (inr (
                          handle_unstable "session/set_model" "set_session_model"
                            (some (normalize_result serialize_params)) params w))
                        (pair (inl other.1.1.1.1.1.0) (
                          pair (inr (handle_unstable "session/fork" "fork_session" none params w)) (
                            pair
                              (inr
                                (handle_unstable "session/resume" "resume_session" none params w))
                              tt))))))))))

  -- A method `_name` reaches the agent's `ext_method` or `ext_notification` with that name and with
  -- the parameters if they are an object, else with an empty one. Without `ext_method` a request
  -- is refused under the method's full name.
  pub build_agent_router-extension :
      (use_unstable_protocol : Bool) (name : String) (params : Json) (w : W)
      → (call
            (build_agent_router serialize_params agent use_unstable_protocol)
            ("_" <> name)
            params
            request
            w
          ≡ handle_extension_request serialize_params agent name (ensure_dict params) w)
        × (call
              (build_agent_router serialize_params agent use_unstable_protocol)
              ("_" <> name)
              params
              notification
              w
            ≡ handle_extension_notification serialize_params agent name (ensure_dict params) w)
  unfolding build_agent_router call
  build_agent_router-extension u name params w =
      (ground (arith, extension_name-append name), ground (arith, extension_name-append name))
