-- ===== src/Peers.antt =====
-- src/acp/client/connection.py and src/acp/agent/connection.py: the two sides of a connection, and
-- what the one sends at the other's router. What the two classes share stands here.
pub mod ClientSide
pub mod AgentSide
pub mod Asks
pub mod Delivery
pub mod ClientAsks
pub mod AgentAsks
pub mod Responses
pub mod Answered
pub mod Notices
mod Tests
use mathlib.Core.Option.{get_or}
use agent_client_protocol_py.Base.{
  String, Option, none, some, Json, null, str, Fields, end, field, get_field, Result, ok, err,
  if◌then◌else◌, Bool, true, false, Value,
}
use agent_client_protocol_py.Exceptions.{Exn, validation_error}
use agent_client_protocol_py.Schema.{Params, in_bounds}
use agent_client_protocol_py.Router.{Reply, RouteKind, MessageRouter, call}

-- `kwargs or None`
abbrev pub or_none : Fields → Option Fields
or_none end = none
or_none (field name value rest) = some (field name value rest)

-- The call of a model's class, which validates it; what pydantic says of an error is a parameter.
unfoldable pub construct : (Params → Value) → Params → Result Exn Params
unfolding in_bounds
construct errors params =
    if in_bounds params then ok params else err (validation_error (errors params))

-- `self._handler(message["method"], message.get("params"), ...)`, where the method is a text.
unfoldable pub handler_call :
    {M W : Type 0} → MessageRouter M W → Fields → RouteKind → W → Option (Reply M W)
unfolding call get_field
handler_call router message kind w = elim (get_field "method" message) [
  | some (str method) ↦ some (call router method (get_or (get_field "params" message) null) kind w)
  | other ↦ none
]
