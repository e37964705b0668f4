-- ===== src/Peers/Asks.antt =====
-- What the requests of both sides have in common: a method, parameters, and a reading of the
-- response.
use agent_client_protocol_py.Base.{
  ◌≡◌, refl, ℕ, String, true, false, some, [], ◌∷◌, ◌++◌, Json, obj, Fields, get_field, Result, ok,
  err, ◌>>=◌, arith, Value,
}
use agent_client_protocol_py.Exceptions.{Exn, validation_error}
use agent_client_protocol_py.Schema.{Params, in_bounds}
use agent_client_protocol_py.Connection.{
  Connection, send_request, send, dumps, notify_observers, request_fields, notification_fields,
}
use agent_client_protocol_py.Utils.{Awaiting, Reading, ResponseModel, asked}
use agent_client_protocol_py.Router.{RouteKind, MessageRouter, call}
use agent_client_protocol_py.Peers.{construct, handler_call}

pub record Ask : Type 0 where
  pub method : String
  pub params : Params
  pub reading : Reading
  pub response_model : ResponseModel

module _ (serialize_params : Params → Fields) (errors : Params → Value) where
  unfoldable pub ask : Ask → Connection → Result Exn (Awaiting × Connection)
  unfolding construct send_request
  ask q self = construct errors q.params >>= λ params.
      asked serialize_params q.reading q.method params q.response_model self

  abbrev pub frame_of : Ask → Connection → Fields
  frame_of q self = request_fields self.next_request_id q.method (obj (serialize_params q.params))

  -- An ask whose numbers are in bounds goes out as one frame.
  pub ask-sends :
      (q : Ask) (self : Connection)
      → in_bounds q.params ≡ true
      → (f : ℕ) × (t : Connection) × (send_request q.method (obj (serialize_params q.params)) self
          ≡ ok (f, t))
        × (ask q self
            ≡ ok (record { future = f; reading = q.reading; response_model = q.response_model }, t))
        × (t.sent ≡ self.sent ++ (obj (frame_of q self) ∷ []))
  unfolding ask construct send_request send dumps notify_observers
  ask-sends q self bounded = (_, _, refl, rw (bounded) refl, refl)

  pub ask-refused :
      (q : Ask) (self : Connection)
      → in_bounds q.params ≡ false
      → ask q self ≡ err (validation_error (errors q.params))
  unfolding ask construct
  ask-refused q self out = ground (arith, out)

pub handler_call-request :
    {M W : Type 0} (router : MessageRouter M W) (id : ℕ) (method : String) (params : Json)
    (kind : RouteKind) (w : W)
    → handler_call router (request_fields id method params) kind w
      ≡ some (call router method params kind w)
unfolding handler_call get_field
handler_call-request router id method params kind w = refl

pub handler_call-notification :
    {M W : Type 0} (router : MessageRouter M W) (method : String) (params : Json) (kind : RouteKind)
    (w : W)
    → handler_call router (notification_fields method params) kind w
      ≡ some (call router method params kind w)
unfolding handler_call get_field
handler_call-notification router method params kind w = refl
