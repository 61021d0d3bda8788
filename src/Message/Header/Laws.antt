-- ===== src/Message/Header/Laws.antt =====
-- src/message.rs: the two ways to make a message's header.
use fakepostmaster.Prelude.{ℕ, ◌<◌, ◌≡◌, refl, List, [], ◌∷◌, arith}
use fakepostmaster.Int.{ℤ, pos, m32, IsSigned, add_i32, i32_to_be_bytes}
use fakepostmaster.Outcome.{ok}
use fakepostmaster.Derive.{serialize_fields}
use fakepostmaster.Buffer.{BytesCrate}
use fakepostmaster.Types.Scalar.{i32, byte}
use fakepostmaster.Message.Header.{
  MessageBody, message_header, new_header_from_body, new_raw_header_from_body,
}
use fakepostmaster.Message.Frame.{message_header-frame}

add_i32-IsSigned : (a b : ℤ) → IsSigned m32 (add_i32 a b)
unfolding add_i32
add_i32-IsSigned a b = ground arith

module _ (B : BytesCrate) {A : Type 0} (m : MessageBody A) where
  raw_header_bytes :
      (a : A)
      → new_raw_header_from_body B m [] a
        ≡ m.message_type a ∷ i32_to_be_bytes (add_i32 (m.wire.byte_size a) (pos 4))
  unfolding new_raw_header_from_body
  raw_header_bytes a = rw (B.put_i32_appends, B.put_u8_appends) refl

  -- For every message whose type is a byte, whatever its size, and even where the size wraps around: the
  -- header that is put into a buffer directly is, byte for byte, what the header's struct writes
  -- there; and its five bytes are read as that struct.
  pub new_raw_header_from_body_lem :
      (a : A) (buffer : List ℕ)
      → m.message_type a < 256
      → ((message_header B).serialize (new_header_from_body B m a) buffer
          ≡ new_raw_header_from_body B m buffer a)
        × ((message_header B).deserialize (new_raw_header_from_body B m [] a)
            ≡ ok (new_header_from_body B m a, []))
  unfolding new_header_from_body
  new_raw_header_from_body_lem a buffer h = (
    unfold message_header new_raw_header_from_body serialize_fields byte i32 in refl,
    rw (raw_header_bytes a) (
        message_header-frame B (m.message_type a) (add_i32 (m.wire.byte_size a) (pos 4)) h
          (add_i32-IsSigned (m.wire.byte_size a) (pos 4))),
  )
