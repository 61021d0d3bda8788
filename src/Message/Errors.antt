-- ===== src/Message/Errors.antt =====
-- src/message.rs: `ErrorResponse` and `ErrorMessage`.
use fakepostmaster.Prelude.{ℕ, ◌%◌, List}
use fakepostmaster.Outcome.{Outcome, ok, ◌>>=◌, impossible_from_backend}
use fakepostmaster.Buffer.{BytesCrate}
use fakepostmaster.Wire.{Wire}
use fakepostmaster.Types.Scalar.{byte}
use fakepostmaster.Types.Text.{cstring, cstring_new}
use fakepostmaster.Types.Vectors.{VecNull, into_vec_null}
use fakepostmaster.Types.Terminated.{vec_null}
use fakepostmaster.Derive.{Fields, no_fields, field, serde_libpq_data, try_from_raw_message}
use fakepostmaster.Message.Header.{MessageBody, message_body}
use fakepostmaster.Message.Raw.{RawBackendMessage}

pub record ErrorMessage : Type 0 where
  pub code : ℕ
  pub message : List ℕ

pub record ErrorResponse : Type 0 where
  pub messages : VecNull ErrorMessage

-- `code as u8` keeps the low byte of a `char`.
unfoldable pub new_error_message : ℕ → List ℕ → Outcome ErrorMessage
new_error_message code message = do
  s ← cstring_new message
  ok (record { code = code % 256; message = s })

abbrev pub new_error_response : List ErrorMessage → ErrorResponse
new_error_response messages = record { messages = into_vec_null messages }

module _ (B : BytesCrate) where
  abbrev pub error_fields : Fields
  error_fields = field ℕ (byte B) (field (List ℕ) (cstring B) no_fields)

  unfoldable pub error_message : Wire ErrorMessage
  unfolding serde_libpq_data
  error_message =
      serde_libpq_data error_fields (λ m. (m.code, (m.message, tt)))
        (λ v. record { code = v.0; message = v.1.0 })

  abbrev pub response_fields : Fields
  response_fields = field (VecNull ErrorMessage) (vec_null B error_message) no_fields

  unfoldable pub error_response_body : MessageBody ErrorResponse
  unfolding message_body serde_libpq_data
  error_response_body =
      message_body b'E'
        (serde_libpq_data response_fields (λ m. (m.messages, tt)) (λ v. record { messages = v.0 }))

  unfoldable pub try_error_response : RawBackendMessage → Outcome (ErrorResponse × List ℕ)
  unfolding try_from_raw_message
  try_error_response m =
      try_from_raw_message impossible_from_backend b'E' (error_response_body).wire
        m.header.message_type m.raw_body
