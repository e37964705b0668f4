-- ===== src/Router.antt =====
-- src/acp/router.py, with the agent's and the client's router: which handler a method gets.
-- A handler acts on a world `W`; what `_make_func` finds on an object by reflection is the
-- object's entry under the attribute, and `M` is the type of the pydantic models.
mod Names
unfoldable pub use Names.*
pub mod Dispatch
pub mod Agent
pub mod Answers
pub mod Client
mod Tests
use agent_client_protocol_py.Base.{
  ℕ, String, string_eq, Bool, true, false, not, Option, none, some, List, [], ◌∷◌, Json, null, bool,
  num, str, arr, obj, Fields, end, field, Value, json_value, Result, ok, err, if◌then◌else◌, ◌&&◌,
  ◌<>◌, ◌==◌,
}
use agent_client_protocol_py.Base.Dict.{Dict, lookup, insert}
use agent_client_protocol_py.Router.Names.{extension_name}
use agent_client_protocol_py.Exceptions.{Exn, request_error, method_not_found}

-- What a handler returns: `None`, a model, or another value.
pub data Returned (M : Type 0) : Type 0 where
  no_result : Returned M
  model_result : M → Returned M
  other_result : Value → Returned M

abbrev pub Reply : Type 0 → Type 0 → Type 0
Reply M W = Result Exn (Returned M) × W

abbrev pub AsyncHandler : Type 0 → Type 0 → Type 0
AsyncHandler M W = Json → W → Reply M W

-- An extension's handler: the name without its mark, and the payload.
abbrev pub RequestHandler : Type 0 → Type 0 → Type 0
RequestHandler M W = String → Fields → W → Reply M W

-- `model_dump` of pydantic is a parameter.
unfoldable pub normalize_result : {M : Type 0} → (M → Json) → Returned M → Returned M
normalize_result serialize_params no_result = other_result (json_value (obj end))
normalize_result serialize_params (model_result m) = other_result (json_value (serialize_params m))
normalize_result serialize_params (other_result v) = other_result v

pub data RouteKind : Type 0 where
  request notification : RouteKind

pub record Route (M W : Type 0) : Type 0 where
  pub method : String
  pub func : Option (AsyncHandler M W)
  pub kind : RouteKind
  pub optional : Bool
  pub default_result : Returned M
  pub adapt_result : Option (Returned M → Returned M)
  pub warn_unstable : Bool

-- `self.adapt_result(result)` where there is one and the route is of a request.
abbrev pub adapted :
    {M : Type 0} → RouteKind → Option (Returned M → Returned M) → Returned M → Returned M
adapted request (some adapt) result = adapt result
adapted kind adapt result = result

unfoldable pub handle : {M W : Type 0} → Route M W → Json → W → Reply M W
handle self params w = elim self.func [
  | none ↦
      if self.optional
      then (ok self.default_result, w)
      else (err (request_error (method_not_found self.method)), w)
  | some func ↦
      if self.warn_unstable
      then (err (request_error (method_not_found self.method)), w)
      else (let (result, w') = func params w in
          elim result [
            | err e ↦ (err e, w')
            | ok value ↦ (ok (adapted self.kind self.adapt_result value), w')
          ])
]

pub record MessageRouter (M W : Type 0) : Type 0 where
  pub requests : Dict String (Route M W)
  pub notifications : Dict String (Route M W)
  pub request_extensions : Option (RequestHandler M W)
  pub notification_extensions : Option (RequestHandler M W)
  pub use_unstable_protocol : Bool

abbrev pub new_router : {M W : Type 0} → Bool → MessageRouter M W
new_router use_unstable_protocol = record {
  requests = [];
  notifications = [];
  request_extensions = none;
  notification_extensions = none;
  use_unstable_protocol = use_unstable_protocol;
}

abbrev pub is_request : RouteKind → Bool
is_request request = true
is_request notification = false

unfoldable pub add_route : {M W : Type 0} → Route M W → MessageRouter M W → MessageRouter M W
add_route route self =
    if is_request route.kind
    then record self { requests = insert route.method route self.requests }
    else record self { notifications = insert route.method route self.notifications }

-- `params if isinstance(params, dict) else {}`
abbrev pub ensure_dict : Json → Fields
ensure_dict (obj fs) = fs
ensure_dict _ = end

-- `__call__`, where the method is a text.
unfoldable pub call : {M W : Type 0} → MessageRouter M W → String → Json → RouteKind → W → Reply M W
unfolding handle extension_name
call self method params kind w =
    let ext_handler =
      if is_request kind then self.request_extensions else self.notification_extensions in
    let routes = if is_request kind then self.requests else self.notifications in
    elim (extension_name method) [
      | some name ↦ elim ext_handler [
        | none ↦ (err (request_error (method_not_found method)), w)
        | some ext ↦ ext name (ensure_dict params) w
      ]
      | none ↦ elim (lookup method routes) [
        | none ↦ (err (request_error (method_not_found method)), w)
        | some route ↦ handle route params w
      ]
    ]
