-- ===== src/Message/Canonical.antt =====
-- Messages are read from their own bytes only, and a message that is read is valid.
pub mod Bodies
pub mod Authentication
pub mod Rows
pub mod Sound
use fakepostmaster.Prelude.{ℕ, ◌≡◌, refl, List, ◌++◌, All, ◌==◌, Bool-cases, inl, inr}
use fakepostmaster.Int.{IsByte}
use fakepostmaster.Outcome.{Outcome, Error}
use fakepostmaster.Outcome.Laws.{Returns, failed}
use fakepostmaster.Buffer.{BytesCrate}
use fakepostmaster.Wire.{Wire}
use fakepostmaster.Wire.Lawful.{IsCanonical}
use fakepostmaster.Derive.{try_from_raw_message}
use fakepostmaster.Derive.Canonical.{serde_libpq_data-IsCanonical}
use fakepostmaster.Types.Canonical.{
  i16-IsCanonical, i32-IsCanonical, byte-IsCanonical, cstring-IsCanonical,
}
use fakepostmaster.Types.Terminated.Canonical.{vec_null-IsCanonical}
use fakepostmaster.Kind.Request.{
  RequestMessageKind, startup_message, cancel_request, gssenc_request, ssl_request,
}
use fakepostmaster.Message.Raw.{RawRequest, RawBackendMessage, RawFrontendMessage}
use fakepostmaster.Message.Startup.{
  protocol_version, startup, try_startup, read_startup, version_fields, startup_fields,
}
use fakepostmaster.Message.Errors.{
  error_fields, error_message, response_fields, error_response_body, try_error_response,
}
use fakepostmaster.Message.Frontend.{password_body, query_body, try_password, try_query}
use fakepostmaster.Message.Frontend
use fakepostmaster.Message.Backend
use fakepostmaster.Message.Backend.{
  key_fields, status_fields, ready_fields, backend_key_data_body, command_complete_body,
  parameter_status_body, ready_for_query_body, try_backend_key_data, try_command_complete,
  try_parameter_status, try_ready_for_query,
}
use fakepostmaster.Message.Reliable.Backend.{
  IsBackendKeyData, backend_key_data_encode, backend_key_data_formats, IsCommandComplete,
  command_complete_encode, command_complete_formats, IsParameterStatus, parameter_status_encode,
  parameter_status_formats, IsReadyForQuery, ready_for_query_encode, ready_for_query_formats,
}
use fakepostmaster.Message.Reliable.Frontend.{
  IsPasswordMessage, password_encode, password_formats, IsQuery, query_encode, query_formats,
}
use fakepostmaster.Message.Reliable.Lists.{
  IsErrorMessage, error_encode, error_formats, error_message-IsSized, IsErrorResponse,
  error_response_encode, response_formats, IsStartup, startup_encode, IsProtocolVersion,
  version_encode, version_formats, parameter-IsSized, startup_formats,
}
use fakepostmaster.Message.Authentication.{try_authentication_ok, try_md5_password}
use fakepostmaster.Message.Canonical.Authentication.{
  ReadOrShort, IsOk, IsChallenge, authentication-ReadsOnly,
}
use fakepostmaster.Message.Canonical.Bodies.{
  backend_key_data_body-IsCanonical, command_complete_body-IsCanonical,
  parameter_status_body-IsCanonical, ready_for_query_body-IsCanonical, error_message-IsCanonical,
  error_response_body-IsCanonical, password_body-IsCanonical, query_body-IsCanonical,
  version-IsCanonical, startup-IsCanonical,
}

-- A body is read as a value of the format, which is valid and whose encoding the body starts with; or
-- it is an error.
abbrev pub ReadsOnly :
    {S : Type 0} → (S → Type 0) → (S → List ℕ) → List ℕ → Outcome (S × List ℕ) → Type 0
ReadsOnly IsValid encode raw_body r = Returns (λ t. IsValid t.0 × (raw_body ≡ encode t.0 ++ t.1)) r

-- A message of another kind is an error.
try_from_raw_message-ReadsOnly :
    {S : Type 0} (IsValid : S → Type 0) (encode : S → List ℕ) (e : Error) (kind : ℕ) (w : Wire S)
    (message_type : ℕ) (raw_body : List ℕ)
    → IsCanonical w IsValid encode
    → All IsByte raw_body
    → ReadsOnly IsValid encode raw_body (try_from_raw_message e kind w message_type raw_body)
unfolding try_from_raw_message
try_from_raw_message-ReadsOnly IsValid encode e kind w message_type raw_body c b =
    elim (Bool-cases (kind == message_type)) [
      | inl same ↦ rw same (c raw_body b)
      | inr other ↦ rw other failed
    ]

module _ (B : BytesCrate) where
  read_startup-ReadsOnly :
      (kind : RequestMessageKind) (raw_body : List ℕ)
      → All IsByte raw_body
      → ReadsOnly (IsStartup B) (startup_encode B) raw_body (read_startup B raw_body kind)
  unfolding read_startup
  read_startup-ReadsOnly startup_message raw_body b = startup-IsCanonical B raw_body b
  read_startup-ReadsOnly cancel_request raw_body b = failed
  read_startup-ReadsOnly gssenc_request raw_body b = failed
  read_startup-ReadsOnly ssl_request raw_body b = failed

  pub try_startup-ReadsOnly :
      (request : RawRequest)
      → All IsByte request.raw_body
      → ReadsOnly (IsStartup B) (startup_encode B) request.raw_body (try_startup B request)
  unfolding try_startup
  try_startup-ReadsOnly request b = read_startup-ReadsOnly request.request_kind request.raw_body b

  pub try_password-ReadsOnly :
      (m : RawFrontendMessage)
      → All IsByte m.raw_body
      → ReadsOnly (IsPasswordMessage B) (password_encode B) m.raw_body (try_password B m)
  unfolding try_password
  try_password-ReadsOnly m b =
      try_from_raw_message-ReadsOnly (IsPasswordMessage B) (password_encode B) _ _
        (password_body B).wire _ m.raw_body (password_body-IsCanonical B) b

  pub try_query-ReadsOnly :
      (m : RawFrontendMessage)
      → All IsByte m.raw_body
      → ReadsOnly (IsQuery B) (query_encode B) m.raw_body (try_query B m)
  unfolding try_query
  try_query-ReadsOnly m b =
      try_from_raw_message-ReadsOnly (IsQuery B) (query_encode B) _ _ (query_body B).wire _
        m.raw_body (query_body-IsCanonical B) b

  -- Whatever a server's message is, made of bytes, turning it into a `BackendKeyData`, a
  -- `CommandComplete`, a `ParameterStatus`, a `ReadyForQuery` or an `ErrorResponse` is an error or
  -- gives one whose numbers fit and whose texts have no zero byte, and which may have any byte for an
  -- indicator or a code; turning it into an `AuthenticationOk` or an `AuthenticationMD5Password` is an
  -- error, or panics on a body that is shorter than its code, or gives the acceptance or a challenge
  -- with a salt of four bytes; and what has been taken off its body is the encoding of that value.
  pub backend-ReadsOnly :
      (m : RawBackendMessage)
      → All IsByte m.raw_body
      → ReadsOnly
          (IsBackendKeyData B)
          (backend_key_data_encode B)
          m.raw_body
          (try_backend_key_data B m)
        × ReadsOnly
            (IsCommandComplete B)
            (command_complete_encode B)
            m.raw_body
            (try_command_complete B m)
        × ReadsOnly
            (IsParameterStatus B)
            (parameter_status_encode B)
            m.raw_body
            (try_parameter_status B m)
        × ReadsOnly
            (IsReadyForQuery B)
            (ready_for_query_encode B)
            m.raw_body
            (try_ready_for_query B m)
        × ReadsOnly
            (IsErrorResponse B)
            (error_response_encode B)
            m.raw_body
            (try_error_response B m)
        × ReadOrShort (IsOk B m.raw_body) m.raw_body (try_authentication_ok B m)
        × ReadOrShort (IsChallenge B m.raw_body) m.raw_body (try_md5_password B m)
  unfolding try_backend_key_data try_command_complete try_parameter_status try_ready_for_query
      try_error_response
  backend-ReadsOnly m b = (
    try_from_raw_message-ReadsOnly (IsBackendKeyData B) (backend_key_data_encode B) _ _
        (backend_key_data_body B).wire _ m.raw_body (backend_key_data_body-IsCanonical B) b,
    try_from_raw_message-ReadsOnly (IsCommandComplete B) (command_complete_encode B) _ _
        (command_complete_body B).wire _ m.raw_body (command_complete_body-IsCanonical B) b,
    try_from_raw_message-ReadsOnly (IsParameterStatus B) (parameter_status_encode B) _ _
        (parameter_status_body B).wire _ m.raw_body (parameter_status_body-IsCanonical B) b,
    try_from_raw_message-ReadsOnly (IsReadyForQuery B) (ready_for_query_encode B) _ _
        (ready_for_query_body B).wire _ m.raw_body (ready_for_query_body-IsCanonical B) b,
    try_from_raw_message-ReadsOnly (IsErrorResponse B) (error_response_encode B) _ _
        (error_response_body B).wire _ m.raw_body (error_response_body-IsCanonical B) b,
    (authentication-ReadsOnly B m b).0,
    (authentication-ReadsOnly B m b).1,
  )
