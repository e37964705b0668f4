-- ===== src/Router/Client.antt =====
-- `build_client_router` of src/acp/client/router.py. The client is seen as the agent is: by its
-- attributes and its two methods for extensions.
use agent_client_protocol_py.Base.{
  ◌≡◌, String, string_eq, Bool, true, false, none, some, List, [], ◌∷◌, Json, obj, end, json_value,
  ok, err, if◌then◌else◌, arith,
}
use agent_client_protocol_py.Base.Dict.{lookup, insert}
use agent_client_protocol_py.Base.Lists.{All, pair}
use agent_client_protocol_py.Exceptions.{request_error, method_not_found}
use agent_client_protocol_py.Router.{
  no_result, other_result, Reply, normalize_result, request, MessageRouter, new_router, handle,
  call, extension_name,
}
use agent_client_protocol_py.Router.Agent.{
  Agent, route_request, route_notification, handle_extension_request, handle_extension_notification,
}

module _ {M W : Type 0} (serialize_params : M → Json) where
  abbrev required : String → String → Agent M W → MessageRouter M W → MessageRouter M W
  required method attr = route_request serialize_params method attr false no_result none false

  abbrev optional_plain : String → String → Agent M W → MessageRouter M W → MessageRouter M W
  optional_plain method attr = route_request serialize_params method attr true no_result none false

  abbrev optional_normalized : String → String → Agent M W → MessageRouter M W → MessageRouter M W
  optional_normalized method attr =
      route_request serialize_params method attr true (other_result (json_value (obj end)))
        (some (normalize_result serialize_params)) false

  unfoldable pub build_client_router : Agent M W → Bool → MessageRouter M W
  unfolding route_request route_notification handle_extension_request handle_extension_notification
      normalize_result
  build_client_router client use_unstable_protocol =
      let r0 = new_router use_unstable_protocol in
      let r1 = required "fs/write_text_file" "write_text_file" client r0 in
      let r2 = required "fs/read_text_file" "read_text_file" client r1 in
      let r3 = required "session/request_permission" "request_permission" client r2 in
      let r4 = optional_plain "terminal/create" "create_terminal" client r3 in
      let r5 = optional_plain "terminal/output" "terminal_output" client r4 in
      let r6 = optional_normalized "terminal/release" "release_terminal" client r5 in
      let r7 = optional_plain "terminal/wait_for_exit" "wait_for_terminal_exit" client r6 in
      let r8 = optional_normalized "terminal/kill" "kill_terminal" client r7 in
      let r9 =
        route_notification serialize_params "session/update" "session_update" false false client
          r8 in
      record r9 {
        request_extensions = some (handle_extension_request serialize_params client);
        notification_extensions = some (handle_extension_notification serialize_params client);
      }

-- A request that the client serves, whether it is optional, and whether its result is normalized.
pub record ClientRequest : Type 0 where
  pub method : String
  pub attr : String
  pub is_optional : Bool
  pub is_normalized : Bool

abbrev pub row : String → String → Bool → Bool → ClientRequest
row method attr is_optional is_normalized = record {
  method = method;
  attr = attr;
  is_optional = is_optional;
  is_normalized = is_normalized;
}

abbrev pub client_requests : List ClientRequest
client_requests =
    row "fs/write_text_file" "write_text_file" false false
    ∷ row "fs/read_text_file" "read_text_file" false false
    ∷ row "session/request_permission" "request_permission" false false
    ∷ row "terminal/create" "create_terminal" true false
    ∷ row "terminal/output" "terminal_output" true false
    ∷ row "terminal/release" "release_terminal" true true
    ∷ row "terminal/wait_for_exit" "wait_for_terminal_exit" true false
    ∷ row "terminal/kill" "kill_terminal" true true
    ∷ []

module _ {M W : Type 0} (serialize_params : M → Json) (client : Agent M W) where
  -- What a client without the attribute answers.
  abbrev pub missing : ClientRequest → W → Reply M W
  missing r w =
      if r.is_optional
      then (ok (if r.is_normalized then other_result (json_value (obj end)) else no_result), w)
      else (err (request_error (method_not_found r.method)), w)

  abbrev pub client_answer : ClientRequest → Json → W → Reply M W
  client_answer r params w = elim (client.attribute r.attr) [
    | none ↦ missing r w
    | some func ↦ elim (func params w).0 [
      | err e ↦ (err e, (func params w).1)
      | ok value ↦ (
        ok (if r.is_normalized then normalize_result serialize_params value else value),
        (func params w).1,
      )
    ]
  ]

  handle_required :
      (method attr : String) (params : Json) (w : W)
      → handle
          (record {
            method = method;
            func = client.attribute attr;
            kind = request;
            optional = false;
            default_result = no_result;
            adapt_result = none;
            warn_unstable = false;
          })
          params
          w
        ≡ client_answer (row method attr false false) params w
  unfolding handle
  handle_required method attr params w = ground arith

  handle_optional :
      (method attr : String) (params : Json) (w : W)
      → handle
          (record {
            method = method;
            func = client.attribute attr;
            kind = request;
            optional = true;
            default_result = no_result;
            adapt_result = none;
            warn_unstable = false;
          })
          params
          w
        ≡ client_answer (row method attr true false) params w
  unfolding handle
  handle_optional method attr params w = ground arith

  handle_optional_normalized :
      (method attr : String) (params : Json) (w : W)
      → handle
          (record {
            method = method;
            func = client.attribute attr;
            kind = request;
            optional = true;
            default_result = other_result (json_value (obj end));
            adapt_result = some (normalize_result serialize_params);
            warn_unstable = false;
          })
          params
          w
        ≡ client_answer (row method attr true true) params w
  unfolding handle
  handle_optional_normalized method attr params w = ground arith

  -- Each request of the client's table reaches the attribute that serves it, with its result
  -- normalized where the table says so; a client without the attribute answers an optional one by
  -- no result, or by an empty object where results are normalized, and refuses another.
  pub build_client_router-client_answer :
      (use_unstable_protocol : Bool) (params : Json) (w : W)
      → All
          (λ r.
            call
              (build_client_router serialize_params client use_unstable_protocol)
              r.method
              params
              request
              w
            ≡ client_answer r params w)
          client_requests
  unfolding build_client_router call handle extension_name lookup insert string_eq
  build_client_router-client_answer u params w =
      pair (handle_required "fs/write_text_file" "write_text_file" params w) (
        pair (handle_required "fs/read_text_file" "read_text_file" params w) (
          pair (handle_required "session/request_permission" "request_permission" params w) (
            pair (handle_optional "terminal/create" "create_terminal" params w) (
              pair (handle_optional "terminal/output" "terminal_output" params w) (
                pair (handle_optional_normalized "terminal/release" "release_terminal" params w) (
                  pair (handle_optional "terminal/wait_for_exit" "wait_for_terminal_exit" params w)
                    (pair (handle_optional_normalized "terminal/kill" "kill_terminal" params w)
                      tt)))))))
