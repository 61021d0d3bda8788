-- ===== src/Message/Frame.antt =====
-- Messages and requests on the wire: a type byte (for messages), the length of what follows with
-- itself, and the body.
pub mod General
pub mod Taken
use fakepostmaster.Prelude.{
  ℕ, ◌+◌, ◌-◌, ◌<◌, ◌≡◌, refl, ap, sym, ◌∙◌, List, [], ◌∷◌, ◌++◌, append_assoc, length,
  length-append, arith, lt→ltb,
}
use fakepostmaster.Int.{ℤ, pos, m32, IsSigned, IsByte, i32_to_be_bytes, sub_i32, as_usize, add_i32}
use fakepostmaster.Int.Laws.{body_size, add_i32_small}
use fakepostmaster.Outcome.{ok}
use fakepostmaster.Buffer.{BytesCrate}
use fakepostmaster.Wire.{Wire}
use fakepostmaster.Wire.Lawful.{IsSized, ReadsBack}
use fakepostmaster.Derive.{Fields, no_fields, field}
use fakepostmaster.Derive.Laws.{serde_libpq_data-ReadsBack}
use fakepostmaster.Types.Scalar.{i32, byte}
use fakepostmaster.Types.Scalar.Laws.{i32-ReadsBack, byte-ReadsBack}
use fakepostmaster.Types.Formats.{i32_format, byte_format}
use fakepostmaster.Stream.Reader.{read_exact-append, allocate_small}
use fakepostmaster.Kind.Request.{RequestMessageKind, request_code}
use fakepostmaster.Kind.Codes.{request_kind_of_iff}
use fakepostmaster.Message.Header.{
  MessageBody, RequestHeader, MessageHeader, request_header, message_header, new_header_from_body,
  new_raw_header_from_body,
}
use fakepostmaster.Message.Raw.{RawBackendMessage, RawFrontendMessage, RawRequest, first_i32}
use fakepostmaster.Message.Get.{
  value_of, read_body, get_request, get_backend_message, get_frontend_message,
}

-- The length field of a body.
abbrev pub frame_length : List ℕ → ℤ
frame_length body = pos (length body + 4)

abbrev pub request_frame : List ℕ → List ℕ
request_frame body = i32_to_be_bytes (frame_length body) ++ body

abbrev pub frame : ℕ → List ℕ → List ℕ
frame kind body = kind ∷ request_frame body

-- An `i32` holds the length.
abbrev pub FitsFrame : List ℕ → Type 0
FitsFrame body = length body + 4 < 2147483648

abbrev pub raw_backend : ℕ → List ℕ → RawBackendMessage
raw_backend kind body = record {
  header = record { message_type = kind; length = frame_length body };
  raw_body = body;
}

abbrev pub raw_frontend : ℕ → List ℕ → RawFrontendMessage
raw_frontend kind body = record {
  header = record { message_type = kind; length = frame_length body };
  raw_body = body;
}

pub read_body-frame :
    (body rest : List ℕ)
    → FitsFrame body
    → read_body (frame_length body) (body ++ rest) ≡ (ok body, rest)
unfolding read_body
read_body-frame body rest h =
    rw (body_size (length body) h, allocate_small (length body) (omega arith))
      (read_exact-append body rest)

module _ (B : BytesCrate) where
  pub request_header-frame :
      (z : ℤ)
      → IsSigned m32 z
      → (request_header B).deserialize (i32_to_be_bytes z) ≡ ok (record { length = z }, [])
  unfolding request_header
  request_header-frame z h =
      serde_libpq_data-ReadsBack (field ℤ (i32 B) no_fields) (i32_format B, tt)
        (λ h. (h.length, tt)) (λ v. record { length = v.0 }) (λ s. refl) (i32-ReadsBack B, tt)
        (record { length = z }) [] (h, tt)

  pub message_header-frame :
      (kind : ℕ) (z : ℤ)
      → IsByte kind
      → IsSigned m32 z
      → (message_header B).deserialize (kind ∷ i32_to_be_bytes z)
        ≡ ok (record { message_type = kind; length = z }, [])
  unfolding message_header
  message_header-frame kind z k h =
      serde_libpq_data-ReadsBack (field ℕ (byte B) (field ℤ (i32 B) no_fields))
        (byte_format B, (i32_format B, tt)) (λ h. (h.message_type, (h.length, tt)))
        (λ v. record { message_type = v.0; length = v.1.0 }) (λ s. refl)
        (byte-ReadsBack B, (i32-ReadsBack B, tt)) (record { message_type = kind; length = z }) []
        (k, (h, tt))

  pub get_backend_message-frame :
      (kind : ℕ) (body rest : List ℕ)
      → IsByte kind
      → FitsFrame body
      → get_backend_message B (frame kind body ++ rest) ≡ (ok (raw_backend kind body), rest)
  unfolding get_backend_message
  get_backend_message-frame kind body rest k h = rw (
    read_exact-append (kind ∷ i32_to_be_bytes (frame_length body)) (body ++ rest),
    message_header-frame kind (frame_length body) k h,
    read_body-frame body rest h,
  )

  pub get_frontend_message-frame :
      (kind : ℕ) (body rest : List ℕ)
      → IsByte kind
      → FitsFrame body
      → get_frontend_message B (frame kind body ++ rest) ≡ (ok (raw_frontend kind body), rest)
  unfolding get_frontend_message
  get_frontend_message-frame kind body rest k h = rw (
    read_exact-append (kind ∷ i32_to_be_bytes (frame_length body)) (body ++ rest),
    message_header-frame kind (frame_length body) k h,
    read_body-frame body rest h,
  )

  -- A request whose body begins with the code of a kind, and whose length an `i32` holds, is taken off
  -- the wire whole by `RawRequest::get`, up to what follows, and gets that kind.
  pub get_request-frame :
      (kind : RequestMessageKind) (body rest : List ℕ)
      → first_i32 body ≡ ok (request_code kind)
      → FitsFrame body
      → get_request B (request_frame body ++ rest) ≡ (
        ok (record {
          header = record { length = frame_length body };
          request_kind = kind;
          raw_body = body;
        }),
        rest,
      )
  unfolding get_request
  get_request-frame kind body rest c h = rw (
    read_exact-append (i32_to_be_bytes (frame_length body)) (body ++ rest),
    request_header-frame (frame_length body) h,
    read_body-frame body rest h,
    c,
    (request_kind_of_iff (request_code kind) kind).1 refl,
  )
