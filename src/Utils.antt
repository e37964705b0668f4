-- ===== src/Utils.antt =====
-- src/acp/utils.py: models as the parameters of requests, and as their results. pydantic's
-- `model_dump` and `model_validate` are parameters; what `await` brings is read off the future.
pub mod Names
pub mod Compat
pub mod Reflect
pub mod OldStyle
mod Tests
use agent_client_protocol_py.Base.{
  ℕ, String, Option, none, some, Json, obj, end, Fields, Result, ok, err, ◌>>=◌,
}
use agent_client_protocol_py.Exceptions.{Exn}
use agent_client_protocol_py.Store.{Future, unresolved, resolved, rejected, abandoned}
use agent_client_protocol_py.Router.{ensure_dict}
use agent_client_protocol_py.Connection.{Connection, send_request, send_notification}
use agent_client_protocol_py.Schema.{Params}

-- The class that a response is validated by.
pub data ResponseModel : Type 0 where
  initialize_response new_session_response load_session_response : ResponseModel
  list_sessions_response set_session_mode_response set_session_model_response : ResponseModel
  authenticate_response prompt_response fork_session_response : ResponseModel
  resume_session_response request_permission_response read_text_file_response : ResponseModel
  write_text_file_response create_terminal_response terminal_output_response : ResponseModel
  release_terminal_response wait_for_terminal_exit_response : ResponseModel
  kill_terminal_command_response : ResponseModel

-- `R` is the type of the instances. `none` is Python's.
module _ {R : Type 0} (model_validate : ResponseModel → Json → Result Exn R) where
  unfoldable pub validate_model : Json → ResponseModel → Result Exn R
  validate_model payload model_type = model_validate model_type payload

  unfoldable pub validate_model_from_dict : Json → ResponseModel → Result Exn R
  validate_model_from_dict payload model_type =
      model_validate model_type (obj (ensure_dict payload))

  unfoldable pub validate_optional_model : Json → ResponseModel → Result Exn (Option R)
  validate_optional_model (obj fields) model_type =
      model_validate model_type (obj fields) >>= λ model. ok (some model)
  validate_optional_model payload model_type = ok none

-- The function that sends the request says how its response is read.
pub data Reading : Type 0 where
  as_model as_model_from_dict as_optional_model : Reading

-- A request that waits for its response: the future, and what is made of the result.
pub record Awaiting : Type 0 where
  pub future : ℕ
  pub reading : Reading
  pub response_model : ResponseModel

module _ (serialize_params : Params → Fields) where
  abbrev pub asked :
      Reading → String → Params → ResponseModel → Connection → Result Exn (Awaiting × Connection)
  asked reading method params response_model conn =
      send_request method (obj (serialize_params params)) conn >>= λ (future, conn').
      ok (record { future = future; reading = reading; response_model = response_model }, conn')

  -- The three functions up to `await`.
  unfoldable pub request_model :
      String → Params → ResponseModel → Connection → Result Exn (Awaiting × Connection)
  unfolding send_request
  request_model = asked as_model

  unfoldable pub request_model_from_dict :
      String → Params → ResponseModel → Connection → Result Exn (Awaiting × Connection)
  unfolding send_request
  request_model_from_dict = asked as_model_from_dict

  unfoldable pub request_optional_model :
      String → Params → ResponseModel → Connection → Result Exn (Awaiting × Connection)
  unfolding send_request
  request_optional_model = asked as_optional_model

  unfoldable pub notify_model : String → Params → Connection → Result Exn Connection
  unfolding send_notification
  notify_model method params = send_notification method (obj (serialize_params params))

module _ {R : Type 0} (model_validate : ResponseModel → Json → Result Exn R) where
  abbrev pub read_response : Reading → ResponseModel → Json → Result Exn (Option R)
  read_response as_model model payload =
      validate_model model_validate payload model >>= λ r. ok (some r)
  read_response as_model_from_dict model payload =
      validate_model_from_dict model_validate payload model >>= λ r. ok (some r)
  read_response as_optional_model model payload =
      validate_optional_model model_validate payload model

  -- What the caller gets of a future: nothing while it is pending, or once its wait is cancelled.
  unfoldable pub await_response : Awaiting → Future → Option (Result Exn (Option R))
  unfolding validate_model validate_model_from_dict validate_optional_model
  await_response request unresolved = none
  await_response request (resolved payload) =
      some (read_response request.reading request.response_model payload)
  await_response request (rejected e) = some (err e)
  await_response request abandoned = none
