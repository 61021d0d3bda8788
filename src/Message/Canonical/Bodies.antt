-- ===== src/Message/Canonical/Bodies.antt =====
-- The formats of the messages without a counted vector are canonical.
use fakepostmaster.Prelude.{refl}
use fakepostmaster.Buffer.{BytesCrate}
use fakepostmaster.Wire.Lawful.{IsCanonical}
use fakepostmaster.Derive.Canonical.{serde_libpq_data-IsCanonical}
use fakepostmaster.Types.Canonical.{
  i16-IsCanonical, i32-IsCanonical, byte-IsCanonical, byte4-IsCanonical, cstring-IsCanonical,
}
use fakepostmaster.Types.Terminated.Canonical.{vec_null-IsCanonical}
use fakepostmaster.Message.Startup.{protocol_version, startup, version_fields, startup_fields}
use fakepostmaster.Message.Errors.{
  error_fields, error_message, response_fields, error_response_body,
}
use fakepostmaster.Message.Frontend.{password_body, query_body, try_password, try_query}
use fakepostmaster.Message.Frontend
use fakepostmaster.Message.Backend
use fakepostmaster.Message.Backend.{
  key_fields, status_fields, ready_fields, backend_key_data_body, command_complete_body,
  parameter_status_body, ready_for_query_body, try_backend_key_data, try_command_complete,
  try_parameter_status, try_ready_for_query,
}
use fakepostmaster.Message.Reliable.Backend.{
  IsAuthenticationOk, authentication_ok_formats, authentication_ok_encode,
  IsAuthenticationMd5Password, md5_password_formats, md5_password_encode, IsBackendKeyData,
  backend_key_data_encode, backend_key_data_formats, IsCommandComplete, command_complete_encode,
  command_complete_formats, IsParameterStatus, parameter_status_encode, parameter_status_formats,
  IsReadyForQuery, ready_for_query_encode, ready_for_query_formats,
}
use fakepostmaster.Message.Reliable.Frontend.{
  IsPasswordMessage, password_encode, password_formats, IsQuery, query_encode, query_formats,
}
use fakepostmaster.Message.Reliable.Lists.{
  IsErrorMessage, error_encode, error_formats, error_message-IsSized, IsErrorResponse,
  error_response_encode, response_formats, IsStartup, startup_encode, IsProtocolVersion,
  version_encode, version_formats, parameter-IsSized, startup_formats,
}
use fakepostmaster.Message.Authentication.{
  ok_fields, md5_fields, authentication_ok_body, md5_password_body,
}

module _ (B : BytesCrate) where
  pub authentication_ok_body-IsCanonical :
      IsCanonical
        (authentication_ok_body B).wire
        (IsAuthenticationOk B)
        (authentication_ok_encode B)
  unfolding authentication_ok_body
  authentication_ok_body-IsCanonical =
      serde_libpq_data-IsCanonical (ok_fields B) (authentication_ok_formats B) _ _ (λ v. refl)
        (i32-IsCanonical B, tt)

  pub md5_password_body-IsCanonical :
      IsCanonical (md5_password_body B).wire (IsAuthenticationMd5Password B) (md5_password_encode B)
  unfolding md5_password_body
  md5_password_body-IsCanonical =
      serde_libpq_data-IsCanonical (md5_fields B) (md5_password_formats B) _ _ (λ v. refl)
        (i32-IsCanonical B, (byte4-IsCanonical B, tt))

  pub backend_key_data_body-IsCanonical :
      IsCanonical (backend_key_data_body B).wire (IsBackendKeyData B) (backend_key_data_encode B)
  unfolding backend_key_data_body
  backend_key_data_body-IsCanonical =
      serde_libpq_data-IsCanonical (key_fields B) (backend_key_data_formats B) _ _ (λ v. refl)
        (i32-IsCanonical B, (i32-IsCanonical B, tt))

  pub command_complete_body-IsCanonical :
      IsCanonical (command_complete_body B).wire (IsCommandComplete B) (command_complete_encode B)
  unfolding command_complete_body
  command_complete_body-IsCanonical =
      serde_libpq_data-IsCanonical (Backend.text_fields B) (command_complete_formats B) _ _
        (λ v. refl) (cstring-IsCanonical B, tt)

  pub parameter_status_body-IsCanonical :
      IsCanonical (parameter_status_body B).wire (IsParameterStatus B) (parameter_status_encode B)
  unfolding parameter_status_body
  parameter_status_body-IsCanonical =
      serde_libpq_data-IsCanonical (status_fields B) (parameter_status_formats B) _ _ (λ v. refl)
        (cstring-IsCanonical B, (cstring-IsCanonical B, tt))

  pub ready_for_query_body-IsCanonical :
      IsCanonical (ready_for_query_body B).wire (IsReadyForQuery B) (ready_for_query_encode B)
  unfolding ready_for_query_body
  ready_for_query_body-IsCanonical =
      serde_libpq_data-IsCanonical (ready_fields B) (ready_for_query_formats B) _ _ (λ v. refl)
        (byte-IsCanonical B, tt)

  pub error_message-IsCanonical : IsCanonical (error_message B) (IsErrorMessage B) (error_encode B)
  unfolding error_message
  error_message-IsCanonical =
      serde_libpq_data-IsCanonical (error_fields B) (error_formats B) _ _ (λ v. refl)
        (byte-IsCanonical B, (cstring-IsCanonical B, tt))

  pub error_response_body-IsCanonical :
      IsCanonical (error_response_body B).wire (IsErrorResponse B) (error_response_encode B)
  unfolding error_response_body
  error_response_body-IsCanonical =
      serde_libpq_data-IsCanonical (response_fields B) (response_formats B) _ _ (λ v. refl)
        (
          vec_null-IsCanonical B (error_message B) {least = 1} (error_message-IsSized B)
              error_message-IsCanonical,
          tt,
        )

  pub password_body-IsCanonical :
      IsCanonical (password_body B).wire (IsPasswordMessage B) (password_encode B)
  unfolding password_body
  password_body-IsCanonical =
      serde_libpq_data-IsCanonical (Frontend.text_fields B) (password_formats B) _ _ (λ v. refl)
        (cstring-IsCanonical B, tt)

  pub query_body-IsCanonical : IsCanonical (query_body B).wire (IsQuery B) (query_encode B)
  unfolding query_body
  query_body-IsCanonical =
      serde_libpq_data-IsCanonical (Frontend.text_fields B) (query_formats B) _ _ (λ v. refl)
        (cstring-IsCanonical B, tt)

  pub version-IsCanonical :
      IsCanonical (protocol_version B) (IsProtocolVersion B) (version_encode B)
  unfolding protocol_version
  version-IsCanonical =
      serde_libpq_data-IsCanonical (version_fields B) (version_formats B) _ _ (λ v. refl)
        (i16-IsCanonical B, (i16-IsCanonical B, tt))

  pub startup-IsCanonical : IsCanonical (startup B) (IsStartup B) (startup_encode B)
  unfolding startup
  startup-IsCanonical =
      serde_libpq_data-IsCanonical (startup_fields B) (startup_formats B) _ _ (λ v. refl)
        (
          version-IsCanonical,
          (
            vec_null-IsCanonical B (parameter_status_body B).wire {least = 1} (parameter-IsSized B)
                parameter_status_body-IsCanonical,
            tt,
          ),
        )
