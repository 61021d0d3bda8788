-- ===== src/Types/Scalar.antt =====
-- libpq-serde-types/src/libpq_types.rs: `i8`, `i16`, `i32`, `Byte` and `Byte4`.
pub mod Laws
use fakepostmaster.Prelude.{ℕ, List}
use fakepostmaster.Int.{ℤ, pos}
use fakepostmaster.Outcome.{ok_or, try_get_error}
use fakepostmaster.Buffer.{BytesCrate}
use fakepostmaster.Wire.{Wire}

module _ (B : BytesCrate) where
  open B use {
    put_u8, put_i8, put_i16, put_i32, put_slice, try_get_u8, try_get_i8, try_get_i16, try_get_i32,
    try_copy_to_slice,
  }

  unfoldable pub i8 : Wire ℤ
  i8 = record {
    serialize = λ z buffer. put_i8 buffer z;
    deserialize = λ buffer. ok_or try_get_error (try_get_i8 buffer);
    byte_size = λ z. pos 1;
  }

  unfoldable pub i16 : Wire ℤ
  i16 = record {
    serialize = λ z buffer. put_i16 buffer z;
    deserialize = λ buffer. ok_or try_get_error (try_get_i16 buffer);
    byte_size = λ z. pos 2;
  }

  unfoldable pub i32 : Wire ℤ
  i32 = record {
    serialize = λ z buffer. put_i32 buffer z;
    deserialize = λ buffer. ok_or try_get_error (try_get_i32 buffer);
    byte_size = λ z. pos 4;
  }

  unfoldable pub byte : Wire ℕ
  byte = record {
    serialize = λ b buffer. put_u8 buffer b;
    deserialize = λ buffer. ok_or try_get_error (try_get_u8 buffer);
    byte_size = λ b. pos 1;
  }

  -- A `[u8; 4]` is a list of four bytes.
  unfoldable pub byte4 : Wire (List ℕ)
  byte4 = record {
    serialize = λ t buffer. put_slice buffer t;
    deserialize = λ buffer. ok_or try_get_error (try_copy_to_slice 4 buffer);
    byte_size = λ t. pos 4;
  }
