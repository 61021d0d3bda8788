-- ===== src/Message/Get.antt =====
-- src/message.rs: `RawRequest::get`, `RawBackendMessage::get` and `RawFrontendMessage::get`.
use fakepostmaster.Prelude.{ℕ, List}
use fakepostmaster.Int.{ℤ, pos, sub_i32, as_usize}
use fakepostmaster.Outcome.{Outcome, ok, err, panicked, out_of_fuel}
use fakepostmaster.Exec.{Exec, ◌>>=◌, ◌>>◌, pure, lift}
use fakepostmaster.Buffer.{BytesCrate}
use fakepostmaster.Stream.Reader.{BufReader, read_exact, allocate}
use fakepostmaster.Kind.Request.{request_kind_of}
use fakepostmaster.Message.Header.{request_header, message_header}
use fakepostmaster.Message.Raw.{RawRequest, RawBackendMessage, RawFrontendMessage, first_i32}

-- `T::deserialize(&mut buffer)`, where what is left of the buffer is dropped.
abbrev pub value_of : {A : Type 0} → Outcome (A × List ℕ) → Outcome A
value_of (ok r) = ok r.0
value_of (err e) = err e
value_of (panicked p) = panicked p
value_of out_of_fuel = out_of_fuel

-- `vec![0_u8; (length - 4) as usize]`, filled by `read_exact`.
unfoldable pub read_body : ℤ → Exec BufReader (List ℕ)
read_body length = do
  let size = as_usize (sub_i32 length (pos 4))
  lift (allocate size)
  read_exact size

module _ (B : BytesCrate) where
  unfoldable pub get_request : Exec BufReader RawRequest
  unfolding read_body first_i32
  get_request = do
    buffer ← read_exact 4
    header ← lift (value_of ((request_header B).deserialize buffer))
    raw_body ← read_body header.length
    code ← lift (first_i32 raw_body)
    request_kind ← lift (request_kind_of code)
    pure (record { header = header; request_kind = request_kind; raw_body = raw_body })

  unfoldable pub get_backend_message : Exec BufReader RawBackendMessage
  unfolding read_body
  get_backend_message = do
    buffer ← read_exact 5
    header ← lift (value_of ((message_header B).deserialize buffer))
    raw_body ← read_body header.length
    pure (record { header = header; raw_body = raw_body })

  unfoldable pub get_frontend_message : Exec BufReader RawFrontendMessage
  unfolding read_body
  get_frontend_message = do
    buffer ← read_exact 5
    header ← lift (value_of ((message_header B).deserialize buffer))
    raw_body ← read_body header.length
    pure (record { header = header; raw_body = raw_body })
