-- ===== src/Conversation/Frames.antt =====
-- What the frames on the wires are, and how each is read.
use agent_client_protocol_py.Base.{
  ◌≡◌, refl, ℕ, nat_eq, pos, String, Bool, false, ◌&&◌, not, Option, none, some, Json, num, obj,
  Fields, get_field, ◌==◌, arith,
}
use agent_client_protocol_py.Exceptions.{Exn}
use agent_client_protocol_py.Store.{Future, Key, key, no_such_key, unhashable, key_of}
use agent_client_protocol_py.Queue.{RpcTask, request, notification}
use agent_client_protocol_py.Connection.{
  HandlerOutcome, request_fields, notification_fields, has_method,
}
use agent_client_protocol_py.Peers.Responses.{arrives, response_to, response_to_lem}

-- Whether a message has the id `k`, as the store reads ids.
abbrev is_key : ℕ → Key → Bool
is_key k (key j) = k == j
is_key k no_such_key = false
is_key k unhashable = false

abbrev pub names : ℕ → Fields → Bool
names k message = elim (get_field "id" message) [ none ↦ false | some id ↦ is_key k (key_of id) ]

-- Whether a frame is a request, or a response, with the id `k`.
abbrev pub asks : ℕ → Json → Bool
asks k (obj message) = names k message && has_method message
asks k _ = false

abbrev pub responds : ℕ → Json → Bool
responds k (obj message) = names k message && not (has_method message)
responds k _ = false

pub data IsRequest : Fields → Type 0 where
  asked : (k : ℕ) (method : String) (params : Json) → IsRequest (request_fields k method params)

pub data IsNotification : Fields → Type 0 where
  noted : (method : String) (params : Json) → IsNotification (notification_fields method params)

-- What the dispatcher finds in the queue of a side that is not closed.
pub data IsTask : Option RpcTask → Type 0 where
  call :
      (message : Fields)
      → IsRequest message
      → IsTask (some (record { kind = request; message = message }))
  note :
      (message : Fields)
      → IsNotification message
      → IsTask (some (record { kind = notification; message = message }))

pub asks-request_fields :
    (k j : ℕ) (method : String) (params : Json)
    → (asks k (obj (request_fields j method params)) ≡ (k == j))
      × (responds k (obj (request_fields j method params)) ≡ false)
unfolding get_field key_of
asks-request_fields k j method params = (ground arith, ground arith)

pub asks-notification_fields :
    (k : ℕ) (method : String) (params : Json)
    → (asks k (obj (notification_fields method params)) ≡ false)
      × (responds k (obj (notification_fields method params)) ≡ false)
unfolding get_field
asks-notification_fields k method params = (refl, refl)

module _ (loads : String → Option Json) (exn_text : Exn → String) (to_str : Json → String) where
  pub data IsFrame : Json → Type 0 where
    a_request : (message : Fields) → IsRequest message → IsFrame (obj message)
    a_notification : (message : Fields) → IsNotification message → IsFrame (obj message)
    a_response :
        (k : ℕ) (outcome : HandlerOutcome) (value : Future)
        → arrives loads exn_text to_str outcome ≡ some value
        → IsFrame (obj (response_to loads exn_text to_str k outcome))

  pub asks-response_to :
      (k j : ℕ) (outcome : HandlerOutcome) (value : Future)
      → arrives loads exn_text to_str outcome ≡ some value
      → (asks k (obj (response_to loads exn_text to_str j outcome)) ≡ false)
        × (responds k (obj (response_to loads exn_text to_str j outcome)) ≡ (k == j))
  unfolding key_of
  asks-response_to k j outcome value says =
      let (named, other, _, _) =
        response_to_lem loads exn_text to_str j "" (num (pos j)) outcome value says in
      (ground (arith, named, other), ground (arith, named, other))
