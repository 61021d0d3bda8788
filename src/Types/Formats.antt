-- ===== src/Types/Formats.antt =====
-- The formats of the types of libpq_types.rs, for the laws of the structs made of them.
use fakepostmaster.Prelude.{ℕ, suc, List, All}
use fakepostmaster.Int.{m16, m32, IsSigned, IsByte, i16_to_be_bytes, i32_to_be_bytes}
use fakepostmaster.Buffer.{BytesCrate}
use fakepostmaster.Wire.{Wire}
use fakepostmaster.Wire.Lawful.{IsSized}
use fakepostmaster.Derive.Laws.{Format}
use fakepostmaster.Types.Scalar.{i16, i32, byte, byte4}
use fakepostmaster.Types.Scalar.Laws.{
  i16-IsSized, i32-IsSized, byte-IsSized, byte4-IsSized, byte_encode, byte4_encode, IsByte4,
}
use fakepostmaster.Types.Text.{cstring}
use fakepostmaster.Types.Text.Laws.{IsText, cstring_encode, cstring-IsSized}
use fakepostmaster.Types.Counted.{vec16, vec32}
use fakepostmaster.Types.Counted.Laws.{
  IsVec16, IsVec32, vec16_encode, vec32_encode, vec16-IsSized, vec32-IsSized,
}
use fakepostmaster.Types.Terminated.{vec_null}
use fakepostmaster.Types.Terminated.Laws.{vec_null_encode, vec_null-IsSized}

module _ (B : BytesCrate) where
  abbrev pub i16_format : Format (i16 B)
  i16_format = record {
    IsValid = IsSigned m16;
    encode = i16_to_be_bytes;
    least = 2;
    sized = i16-IsSized B;
  }

  abbrev pub i32_format : Format (i32 B)
  i32_format = record {
    IsValid = IsSigned m32;
    encode = i32_to_be_bytes;
    least = 4;
    sized = i32-IsSized B;
  }

  abbrev pub byte_format : Format (byte B)
  byte_format = record { IsValid = IsByte; encode = byte_encode; least = 1; sized = byte-IsSized B }

  abbrev pub byte4_format : Format (byte4 B)
  byte4_format = record {
    IsValid = IsByte4;
    encode = byte4_encode;
    least = 4;
    sized = byte4-IsSized B;
  }

  abbrev pub cstring_format : Format (cstring B)
  cstring_format = record {
    IsValid = IsText;
    encode = cstring_encode;
    least = 1;
    sized = cstring-IsSized B;
  }

  module _ {A : Type 0} {w : Wire A} (F : Format w) where
    abbrev pub vec16_format : Format (vec16 B w)
    vec16_format = record {
      IsValid = IsVec16 F.IsValid;
      encode = vec16_encode F.encode;
      least = 2;
      sized = vec16-IsSized B w F.sized;
    }

    abbrev pub vec32_format : Format (vec32 B w)
    vec32_format = record {
      IsValid = IsVec32 F.IsValid;
      encode = vec32_encode F.encode;
      least = 4;
      sized = vec32-IsSized B w F.sized;
    }

  module _ {A : Type 0} {w : Wire A} {IsValid : A → Type 0} {encode : A → List ℕ} {least : ℕ}
      (sized : IsSized w IsValid encode (suc least)) where
    abbrev pub vec_null_format : Format (vec_null B w)
    vec_null_format = record {
      IsValid = All IsValid;
      encode = vec_null_encode encode;
      least = 1;
      sized = vec_null-IsSized B w sized;
    }
