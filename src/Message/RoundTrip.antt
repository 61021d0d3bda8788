-- ===== src/Message/RoundTrip.antt =====
-- Messages that carry lists: the body that a message writes is turned back into the message.
use fakepostmaster.Prelude.{ℕ, ◌+◌, ◌≡◌, ap, ◌∙◌, List, [], length, arith}
use fakepostmaster.Int.{pos}
use fakepostmaster.Int.Laws.{add_i32_small}
use fakepostmaster.Outcome.{ok}
use fakepostmaster.Buffer.{BytesCrate}
use fakepostmaster.Kind.Request.{startup_message}
use fakepostmaster.Message.Header.{MessageBody, RequestHeader, new_header_from_body}
use fakepostmaster.Message.Frame.{FitsFrame, raw_backend}
use fakepostmaster.Message.Row.{
  RowDescription, DataRow, row_description_body, data_row_body, try_row_description, try_data_row,
}
use fakepostmaster.Message.Errors.{ErrorResponse, error_response_body, try_error_response}
use fakepostmaster.Message.Startup.{StartupMessage, startup, try_startup}
use fakepostmaster.Message.Reliable.{IsReliable}
use fakepostmaster.Message.Reliable.Rows.{
  IsRowDescription, IsDataRow, row_description_body-IsReliable, data_row_body-IsReliable,
}
use fakepostmaster.Message.Reliable.Lists.{
  IsErrorResponse, error_response_body-IsReliable, IsStartup, startup-IsSized,
  startup-ReadsBackWhole,
}

module _ (B : BytesCrate) where
  -- A `RowDescription` of fewer than 2^15 columns, each valid, is what its raw message is turned into.
  pub row_description_round_trip :
      (m : RowDescription)
      → IsRowDescription B m
      → try_row_description B (raw_backend b'T' ((row_description_body B).wire.serialize m []))
        ≡ ok (m, [])
  unfolding try_row_description
  row_description_round_trip m v =
      let R = row_description_body-IsReliable B in
      ap (row_description_body B).wire.deserialize (R.serialize_appends m []) ∙ R.reads_whole m v

  -- A `DataRow` of fewer than 2^15 columns, each of fewer than 2^31 bytes, is what its raw message is
  -- turned into.
  pub data_row_round_trip :
      (m : DataRow)
      → IsDataRow B m
      → try_data_row B (raw_backend b'D' ((data_row_body B).wire.serialize m [])) ≡ ok (m, [])
  unfolding try_data_row
  data_row_round_trip m v =
      let R = data_row_body-IsReliable B in
      ap (data_row_body B).wire.deserialize (R.serialize_appends m []) ∙ R.reads_whole m v

  -- An `ErrorResponse` of any number of valid fields is what its raw message is turned into.
  pub error_response_round_trip :
      (m : ErrorResponse)
      → IsErrorResponse B m
      → try_error_response B (raw_backend b'E' ((error_response_body B).wire.serialize m []))
        ≡ ok (m, [])
  unfolding try_error_response
  error_response_round_trip m v =
      let R = error_response_body-IsReliable B in
      ap (error_response_body B).wire.deserialize (R.serialize_appends m []) ∙ R.reads_whole m v

  -- A `StartupMessage` with a valid version and any number of valid parameters is what its raw request
  -- is turned into, if that has its kind and its bytes, whatever the header says.
  pub startup_round_trip :
      (header : RequestHeader) (m : StartupMessage)
      → IsStartup B m
      → try_startup B (record {
        header = header;
        request_kind = startup_message;
        raw_body = (startup B).serialize m [];
      })
        ≡ ok (m, [])
  unfolding try_startup
  startup_round_trip header m v =
      ap (startup B).deserialize ((startup-IsSized B).serialize_appends m [])
      ∙ startup-ReadsBackWhole B m v

module _ (B : BytesCrate) {A : Type 0} (m : MessageBody A) {kind : ℕ} {IsValid : A → Type 0}
    {encode : A → List ℕ} (R : IsReliable m kind IsValid encode) where
  -- The header that is made for a valid message that fits a frame has the message's type, and its
  -- length is that of the bytes that the message writes and of itself.
  pub new_header_from_body_lem :
      (a : A)
      → IsValid a
      → FitsFrame (m.wire.serialize a [])
      → new_header_from_body B m a
        ≡ record { message_type = kind; length = pos (length (m.wire.serialize a []) + 4) }
  unfolding new_header_from_body
  new_header_from_body_lem a v h =
      let e = ap length (R.serialize_appends a []) in
      rw (
        R.has_kind a,
        R.size_exact a v (omega (arith, e)),
        add_i32_small (length (encode a)) 4 (omega (arith, e)),
        e,
      )
