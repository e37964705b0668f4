-- ===== src/Exceptions.antt =====
-- src/acp/exceptions.py: `RequestError`, with what a call of a JSON-RPC method may raise.
use agent_client_protocol_py.Base.{
  ℕ, zero, suc, ℤ, pos, negsuc, String, Option, none, some, Json, null, num, str, obj, end, field,
  Value, json_value, map_value,
}

-- An `int` that is written with a minus sign.
abbrev pub minus : ℕ → ℤ
minus zero = pos zero
minus (suc n) = negsuc n

-- `code` and `message` are whatever the constructor got: a peer may send any values. `payload` is
-- the attribute `data`: any value, one that `json.dumps` refuses included, and `null` if missing.
pub record RequestError : Type 0 where
  pub code : Json
  pub message : Json
  pub payload : Value

-- The class methods.
unfoldable pub parse_error : Value → RequestError
parse_error value = record {
  code = num (minus 32700);
  message = str "Parse error";
  payload = value;
}

unfoldable pub invalid_request : Value → RequestError
invalid_request value = record {
  code = num (minus 32600);
  message = str "Invalid request";
  payload = value;
}

unfoldable pub method_not_found : String → RequestError
method_not_found method = record {
  code = num (minus 32601);
  message = str "Method not found";
  payload = json_value (obj (field "method" (str method) end));
}

unfoldable pub invalid_params : Value → RequestError
invalid_params value = record {
  code = num (minus 32602);
  message = str "Invalid params";
  payload = value;
}

unfoldable pub internal_error : Value → RequestError
internal_error value = record {
  code = num (minus 32603);
  message = str "Internal error";
  payload = value;
}

unfoldable pub auth_required : Value → RequestError
auth_required value = record {
  code = num (minus 32000);
  message = str "Authentication required";
  payload = value;
}

unfoldable pub resource_not_found : Option String → RequestError
resource_not_found uri = record {
  code = num (minus 32002);
  message = str "Resource not found";
  payload = elim uri [
    | none ↦ json_value null
    | some text ↦ json_value (obj (field "uri" (str text) end))
  ];
}

-- `str(self)` is `str` of the message, which is a parameter but for a text.
unfoldable pub to_error_obj : (Json → String) → RequestError → Value
to_error_obj to_str self =
    map_value
      (λ value. obj (
        field "code" self.code
          (field "message" (str (to_str self.message)) (field "data" value end))))
      self.payload

-- What the library's own code raises, a handler's exception included.
pub data Exn : Type 0 where
  request_error : RequestError → Exn
  validation_error : Value → Exn
  connection_error : String → Exn
  type_error : Exn
  attribute_error : Exn
  runtime_error : String → Exn
  other_error : String → Exn
