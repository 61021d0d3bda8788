-- ===== src/Types/Scalar/Laws.antt =====
-- The scalar types keep the promise of the traits.
use fakepostmaster.Prelude.{
  ℕ, ◌+◌, ◌≤◌, ◌≡◌, refl, ap, sym, All, List, [], ◌∷◌, length, length-drop, arith,
}
use fakepostmaster.Int.{
  pos, m8, m16, m32, IsSigned, IsByte, to_bits, i8_to_be_bytes, i16_to_be_bytes, i32_to_be_bytes,
}
use fakepostmaster.Int.Laws.{of_bits-to_bits_8, i16_round_trip, i32_round_trip}
use fakepostmaster.Outcome.Laws.{Returns, holds, failed}
use fakepostmaster.Buffer.{BytesCrate}
use fakepostmaster.Wire.Lawful.{IsSized, ReadsBack}
use fakepostmaster.Types.Scalar.{i8, i16, i32, byte, byte4}
use native.Mathlib.Decide.{dec_le}

abbrev pub byte_encode : ℕ → List ℕ
byte_encode b = b ∷ []

abbrev pub IsByte4 : List ℕ → Type 0
IsByte4 t = (length t ≡ 4) × All IsByte t

abbrev pub byte4_encode : List ℕ → List ℕ
byte4_encode t = t

module _ (B : BytesCrate) where
  open B use {
    put_u8_appends, put_i8_appends, put_i16_appends, put_i32_appends, try_get_u8_some,
    try_get_u8_none, try_get_i8_some, try_get_i8_none, try_get_i16_some, try_get_i16_none,
    try_get_i32_some, try_get_i32_none, put_slice_appends, try_copy_to_slice_some,
    try_copy_to_slice_none,
  }

  i8_takes : (bs : List ℕ) → Returns (λ r. length r.1 + 1 ≤ length bs) ((i8 B).deserialize bs)
  unfolding i8
  i8_takes [] = rw try_get_i8_none failed
  i8_takes (a ∷ bs) = rw (try_get_i8_some a bs) (holds (omega arith))

  i16_takes : (bs : List ℕ) → Returns (λ r. length r.1 + 2 ≤ length bs) ((i16 B).deserialize bs)
  unfolding i16
  i16_takes [] = rw (try_get_i16_none [] (omega arith)) failed
  i16_takes (a ∷ []) = rw (try_get_i16_none (a ∷ []) (omega arith)) failed
  i16_takes (a ∷ b ∷ bs) = rw (try_get_i16_some a b bs) (holds (omega arith))

  i32_takes : (bs : List ℕ) → Returns (λ r. length r.1 + 4 ≤ length bs) ((i32 B).deserialize bs)
  unfolding i32
  i32_takes [] = rw (try_get_i32_none [] (omega arith)) failed
  i32_takes (a ∷ []) = rw (try_get_i32_none (a ∷ []) (omega arith)) failed
  i32_takes (a ∷ b ∷ []) = rw (try_get_i32_none (a ∷ b ∷ []) (omega arith)) failed
  i32_takes (a ∷ b ∷ c ∷ []) = rw (try_get_i32_none (a ∷ b ∷ c ∷ []) (omega arith)) failed
  i32_takes (a ∷ b ∷ c ∷ d ∷ bs) = rw (try_get_i32_some a b c d bs) (holds (omega arith))

  byte_takes : (bs : List ℕ) → Returns (λ r. length r.1 + 1 ≤ length bs) ((byte B).deserialize bs)
  unfolding byte
  byte_takes [] = rw try_get_u8_none failed
  byte_takes (a ∷ bs) = rw (try_get_u8_some a bs) (holds (omega arith))

  pub i8-IsSized : IsSized (i8 B) (IsSigned m8) i8_to_be_bytes 1
  unfolding i8
  i8-IsSized = record {
    serialize_appends = λ z buf. put_i8_appends buf z;
    size_exact = λ z v h. refl;
    takes = i8_takes;
    encode_least = λ z v. omega arith;
  }

  pub i16-IsSized : IsSized (i16 B) (IsSigned m16) i16_to_be_bytes 2
  unfolding i16
  i16-IsSized = record {
    serialize_appends = λ z buf. put_i16_appends buf z;
    size_exact = λ z v h. refl;
    takes = i16_takes;
    encode_least = λ z v. omega arith;
  }

  pub i32-IsSized : IsSized (i32 B) (IsSigned m32) i32_to_be_bytes 4
  unfolding i32
  i32-IsSized = record {
    serialize_appends = λ z buf. put_i32_appends buf z;
    size_exact = λ z v h. refl;
    takes = i32_takes;
    encode_least = λ z v. omega arith;
  }

  pub byte-IsSized : IsSized (byte B) IsByte byte_encode 1
  unfolding byte
  byte-IsSized = record {
    serialize_appends = λ b buf. put_u8_appends buf b;
    size_exact = λ b v h. refl;
    takes = byte_takes;
    encode_least = λ b v. omega arith;
  }

  pub i8-ReadsBack : ReadsBack (i8 B) (IsSigned m8) i8_to_be_bytes
  unfolding i8
  i8-ReadsBack z rest v = rw (try_get_i8_some (to_bits m8 z) rest, of_bits-to_bits_8 z v)

  pub i16-ReadsBack : ReadsBack (i16 B) (IsSigned m16) i16_to_be_bytes
  unfolding i16
  i16-ReadsBack z rest v = rw (try_get_i16_some _ _ rest, i16_round_trip z v)

  pub i32-ReadsBack : ReadsBack (i32 B) (IsSigned m32) i32_to_be_bytes
  unfolding i32
  i32-ReadsBack z rest v = rw (try_get_i32_some _ _ _ _ rest, i32_round_trip z v)

  pub byte-ReadsBack : ReadsBack (byte B) IsByte byte_encode
  unfolding byte
  byte-ReadsBack b rest v = rw (try_get_u8_some b rest)

  byte4_takes : (bs : List ℕ) → Returns (λ r. length r.1 + 4 ≤ length bs) ((byte4 B).deserialize bs)
  unfolding byte4
  byte4_takes bs = elim (dec_le 4 (length bs)) [
    | yes h ↦ rw (try_copy_to_slice_some 4 bs h) (holds (omega (arith, length-drop 4 bs)))
    | no h ↦ rw (try_copy_to_slice_none 4 bs (omega arith)) failed
  ]

  pub byte4-IsSized : IsSized (byte4 B) IsByte4 byte4_encode 4
  unfolding byte4
  byte4-IsSized = record {
    serialize_appends = λ t buf. put_slice_appends buf t;
    size_exact = λ t v h. ap pos (sym v.0);
    takes = byte4_takes;
    encode_least = λ t v. omega (arith, v.0);
  }

  pub byte4-ReadsBack : ReadsBack (byte4 B) IsByte4 byte4_encode
  unfolding byte4
  byte4-ReadsBack (a ∷ b ∷ c ∷ d ∷ []) rest v =
      rw (try_copy_to_slice_some 4 (a ∷ b ∷ c ∷ d ∷ rest) (omega arith))
  byte4-ReadsBack t rest v = absurd (omega (arith, v.0))
