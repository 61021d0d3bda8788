-- ===== src/Runs/Canonical.antt =====
-- Bytes that the types and the messages read.
use fakepostmaster.Prelude.{◌≡◌, [], ◌∷◌, ◌++◌, codes, arith}
use fakepostmaster.Int.{pos, m16, m32, IsSigned, IsByte, i16_to_be_bytes, i32_to_be_bytes}
use fakepostmaster.Outcome.Laws.{Returns}
use fakepostmaster.Types.Scalar.{byte}
use fakepostmaster.Types.Scalar.Laws.{byte_encode}
use fakepostmaster.Types.Canonical.{byte-IsCanonical}
use fakepostmaster.Types.Counted.{vec16, vec32}
use fakepostmaster.Types.Counted.Reading.{
  Taken, Encodes, CountedBy, IsCanonical-Takes, vec-CountedBy,
}
use fakepostmaster.Kind.Request.{startup_message}
use fakepostmaster.Message.Raw.{RawRequest, RawBackendMessage, RawFrontendMessage}
use fakepostmaster.Message.Backend.{
  try_backend_key_data, try_command_complete, try_parameter_status, try_ready_for_query,
}
use fakepostmaster.Message.Errors.{try_error_response}
use fakepostmaster.Message.Authentication.{try_authentication_ok, try_md5_password}
use fakepostmaster.Message.Canonical.Authentication.{ReadOrShort, IsOk, IsChallenge}
use fakepostmaster.Message.Canonical.{ReadsOnly, backend-ReadsOnly}
use fakepostmaster.Message.Reliable.Backend.{
  IsBackendKeyData, backend_key_data_encode, IsCommandComplete, command_complete_encode,
  IsParameterStatus, parameter_status_encode, IsReadyForQuery, ready_for_query_encode,
}
use fakepostmaster.Message.Reliable.Lists.{IsErrorResponse, error_response_encode}
use fakepostmaster.Outcome.{ok}
use fakepostmaster.Message.Frame.{raw_backend}
use fakepostmaster.Message.Lenient.{one_field, try_lenient}
use fakepostmaster.Runs.Crates.{bytes}

-- A count of -1.
vec-CountedBy_example :
    Returns
      (Taken
        (CountedBy (Encodes IsByte byte_encode) i16_to_be_bytes (IsSigned m16))
        (255 ∷ 255 ∷ 255 ∷ 255 ∷ 7 ∷ []))
      ((vec16 bytes (byte bytes)).deserialize (255 ∷ 255 ∷ 255 ∷ 255 ∷ 7 ∷ []))
    × Returns
        (Taken
          (CountedBy (Encodes IsByte byte_encode) i32_to_be_bytes (IsSigned m32))
          (255 ∷ 255 ∷ 255 ∷ 255 ∷ 7 ∷ []))
        ((vec32 bytes (byte bytes)).deserialize (255 ∷ 255 ∷ 255 ∷ 255 ∷ 7 ∷ []))
vec-CountedBy_example =
    vec-CountedBy (byte bytes) (Encodes IsByte byte_encode)
      (IsCanonical-Takes (byte bytes) IsByte byte_encode (byte-IsCanonical bytes)) bytes
      (255 ∷ 255 ∷ 255 ∷ 255 ∷ 7 ∷ []) (omega arith)

-- Version 3.0 with a parameter.
abbrev a_request : RawRequest
a_request = record {
  header = record { length = pos 20 };
  request_kind = startup_message;
  raw_body = 0 ∷ 3 ∷ 0 ∷ 0 ∷ (codes "user" ++ 0 ∷ codes "me" ++ 0 ∷ 0 ∷ []);
}

-- A query, and a byte that is left over.
abbrev a_query : RawFrontendMessage
a_query = record {
  header = record { message_type = b'Q'; length = pos 15 };
  raw_body = codes "SELECT 1" ++ 0 ∷ 9 ∷ [];
}

-- A challenge.
abbrev a_challenge : RawBackendMessage
a_challenge = record {
  header = record { message_type = b'R'; length = pos 12 };
  raw_body = 0 ∷ 0 ∷ 0 ∷ 5 ∷ 1 ∷ 2 ∷ 3 ∷ 4 ∷ [];
}

backend-ReadsOnly_example :
    ReadsOnly
      (IsBackendKeyData bytes)
      (backend_key_data_encode bytes)
      a_challenge.raw_body
      (try_backend_key_data bytes a_challenge)
    × ReadsOnly
        (IsCommandComplete bytes)
        (command_complete_encode bytes)
        a_challenge.raw_body
        (try_command_complete bytes a_challenge)
    × ReadsOnly
        (IsParameterStatus bytes)
        (parameter_status_encode bytes)
        a_challenge.raw_body
        (try_parameter_status bytes a_challenge)
    × ReadsOnly
        (IsReadyForQuery bytes)
        (ready_for_query_encode bytes)
        a_challenge.raw_body
        (try_ready_for_query bytes a_challenge)
    × ReadsOnly
        (IsErrorResponse bytes)
        (error_response_encode bytes)
        a_challenge.raw_body
        (try_error_response bytes a_challenge)
    × ReadOrShort
        (IsOk bytes a_challenge.raw_body)
        a_challenge.raw_body
        (try_authentication_ok bytes a_challenge)
    × ReadOrShort
        (IsChallenge bytes a_challenge.raw_body)
        a_challenge.raw_body
        (try_md5_password bytes a_challenge)
backend-ReadsOnly_example = backend-ReadsOnly bytes a_challenge (omega arith)

-- A code of zero.
try_lenient_example :
    (try_ready_for_query bytes (raw_backend b'Z' (0 ∷ []))
      ≡ ok (record { transaction_indicator = 0 }, []))
    × (try_error_response bytes (raw_backend b'E' (0 ∷ codes "bad" ++ 0 ∷ 0 ∷ []))
        ≡ ok (one_field 0 (codes "bad"), []))
try_lenient_example = try_lenient bytes 0 (codes "bad") (omega arith) (omega arith)
