-- ===== src/Handler/Client.antt =====
-- src/handler/client.rs: the methods of the client's `TcpHandler`.
pub mod Ends
pub mod Safety
pub mod Keeps
pub mod Behaviour
pub mod Causal
pub mod Receiving
pub mod Taking
pub mod Accepting
pub mod Answered
pub mod Session
pub mod Login
pub mod Asking
use fakepostmaster.Prelude.{
  ℕ, zero, suc, Bool, true, false, Option, none, some, List, [], ◌∷◌, codes, length,
}
use fakepostmaster.Int.{pos}
use fakepostmaster.Outcome.{
  Outcome, ok, out_of_fuel, expected_md5_password, expected_authentication_ok,
  expected_backend_key_data, expected_ready_for_query, expected_row_description, expected_data_row,
  expected_command_complete,
}
use fakepostmaster.Outcome
use fakepostmaster.Exec.{Exec, ◌>>=◌, ◌>>◌, pure, lift, map_err}
use fakepostmaster.Buffer.{BytesCrate}
use fakepostmaster.Md5.{Md5Crate}
use fakepostmaster.Kind.Backend.{BackendMessageKind}
use fakepostmaster.Message.Raw.{RawBackendMessage, backend_message_kind}
use fakepostmaster.Message.Get.{value_of}
use fakepostmaster.Message.Authentication.{try_authentication_ok, try_md5_password}
use fakepostmaster.Message.Backend.{
  ParameterStatus, new_parameter_status, try_backend_key_data, try_command_complete,
  try_parameter_status, try_ready_for_query,
}
use fakepostmaster.Message.Row.{try_row_description, try_data_row}
use fakepostmaster.Message.Startup.{StartupMessage, new_startup, startup}
use fakepostmaster.Message.Frontend.{new_from_user_password, new_query, password_body, query_body}
use fakepostmaster.Handler.Connection.{TcpHandler, reading, writing}
use fakepostmaster.Handler.Io.{get_raw_backend_message, put_message_and_flush, put_request}

unfoldable pub is_parameter_status : Option BackendMessageKind → Bool
is_parameter_status (some BackendMessageKind.parameter_status) = true
is_parameter_status other = false

module _ (B : BytesCrate) where
  -- `debug!("rcv: {:?}", ParameterStatus::try_from(&mut raw_message)?);`, whose argument is evaluated
  -- only where DEBUG events are enabled.
  unfoldable pub debug_parameter_status : Bool → RawBackendMessage → Outcome (Unit {0})
  debug_parameter_status true raw_message =
      Outcome.◌>>=◌ (value_of (try_parameter_status B raw_message)) (λ status. ok tt)
  debug_parameter_status false raw_message = ok tt

  -- `while let Some(ParameterStatus) = raw_message.get_message_kind()`, a unit of fuel for each round;
  -- the result is the message that is no `ParameterStatus`.
  unfoldable pub skip_parameters : Bool → ℕ → RawBackendMessage → Exec TcpHandler RawBackendMessage
  unfolding debug_parameter_status
  skip_parameters debug zero raw_message h = (out_of_fuel, h)
  skip_parameters debug (suc f) raw_message h =
      let round : Exec TcpHandler RawBackendMessage = do
        logged ← lift (debug_parameter_status debug raw_message)
        next ← reading (get_raw_backend_message B)
        skip_parameters debug f next
      in (lift (backend_message_kind raw_message) >>= λ kind. elim (is_parameter_status kind) [
        | true ↦ round
        | false ↦ pure raw_message
      ])
        h

  -- `debug` is whether DEBUG events are enabled.
  module _ (D : Md5Crate) (debug : Bool) where
    unfoldable pub md5_authentication_handler : Exec TcpHandler (Unit {0})
    md5_authentication_handler = do
      user ← lift (new_parameter_status (codes "user") (codes "md5user"))
      database ← lift (new_parameter_status (codes "database") (codes "postgres"))
      application ← lift (new_parameter_status (codes "application_name") (codes "pgfake"))
      encoding ← lift (new_parameter_status (codes "client_encoding") (codes "utf8"))
      writing (
          put_request B (startup B) (
            new_startup (record { major = pos 3; minor = pos 0 })
              (user ∷ database ∷ application ∷ encoding ∷ [])))
      raw_message ← reading (get_raw_backend_message B)
      message ← lift (map_err expected_md5_password (value_of (try_md5_password B raw_message)))
      password ← lift (new_from_user_password D (codes "md5user") (codes "md5pass") message.salt)
      writing (put_message_and_flush B (password_body B) password)
      raw_message' ← reading (get_raw_backend_message B)
      done ←
          lift
            (map_err expected_authentication_ok (value_of (try_authentication_ok B raw_message')))
      first ← reading (get_raw_backend_message B)
      rest ← λ h. skip_parameters debug (suc (length h.tcp_reader)) first h
      key ← lift (map_err expected_backend_key_data (value_of (try_backend_key_data B rest)))
      last ← reading (get_raw_backend_message B)
      ready ← lift (map_err expected_ready_for_query (value_of (try_ready_for_query B last)))
      pure tt

  unfoldable pub simple_query_handler : Exec TcpHandler (Unit {0})
  simple_query_handler = do
    query ← lift (new_query (codes "SELECT 1 as a, 2 as a, 3 as a;"))
    writing (put_message_and_flush B (query_body B) query)
    message₁ ← reading (get_raw_backend_message B)
    description ←
        lift (map_err expected_row_description (value_of (try_row_description B message₁)))
    message₂ ← reading (get_raw_backend_message B)
    row ← lift (map_err expected_data_row (value_of (try_data_row B message₂)))
    message₃ ← reading (get_raw_backend_message B)
    complete ← lift (map_err expected_command_complete (value_of (try_command_complete B message₃)))
    message₄ ← reading (get_raw_backend_message B)
    ready ← lift (map_err expected_ready_for_query (value_of (try_ready_for_query B message₄)))
    pure tt
