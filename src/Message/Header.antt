-- ===== src/Message/Header.antt =====
-- src/message.rs: the trait `MessageBody`, and the headers of requests and messages.
pub mod Laws
use fakepostmaster.Prelude.{ℕ, List}
use fakepostmaster.Int.{ℤ, pos, add_i32}
use fakepostmaster.Buffer.{BytesCrate}
use fakepostmaster.Wire.{Wire}
use fakepostmaster.Types.Scalar.{i32, byte}
use fakepostmaster.Derive.{no_fields, field, serde_libpq_data}

-- `MessageBody + Serialize + ByteSized`
pub record MessageBody (A : Type 0) : Type 0 where
  pub wire : Wire A
  pub message_type : A → ℕ

-- `#[derive(MessageBody)]` with `#[message_body(kind = '…')]`
unfoldable pub message_body : {A : Type 0} → ℕ → Wire A → MessageBody A
message_body kind w = record { wire = w; message_type = λ a. kind }

pub record RequestHeader : Type 0 where
  pub length : ℤ

pub record MessageHeader : Type 0 where
  pub message_type : ℕ
  pub length : ℤ

module _ (B : BytesCrate) where
  open B use {put_u8, put_i32}

  unfoldable pub request_header : Wire RequestHeader
  unfolding serde_libpq_data
  request_header =
      serde_libpq_data (field ℤ (i32 B) no_fields) (λ h. (h.length, tt))
        (λ v. record { length = v.0 })

  unfoldable pub message_header : Wire MessageHeader
  unfolding serde_libpq_data
  message_header =
      serde_libpq_data (field ℕ (byte B) (field ℤ (i32 B) no_fields))
        (λ h. (h.message_type, (h.length, tt))) (λ v. record { message_type = v.0; length = v.1.0 })

  module _ {A : Type 0} (m : MessageBody A) where
    unfoldable pub new_header_from_body : A → MessageHeader
    new_header_from_body body = record {
      message_type = m.message_type body;
      length = add_i32 (m.wire.byte_size body) (pos 4);
    }

    unfoldable pub new_raw_header_from_body : List ℕ → A → List ℕ
    new_raw_header_from_body buffer body =
        put_i32 (put_u8 buffer (m.message_type body)) (add_i32 (m.wire.byte_size body) (pos 4))
