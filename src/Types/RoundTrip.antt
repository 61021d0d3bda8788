-- ===== src/Types/RoundTrip.antt =====
-- What the types of libpq-serde-types write, they read back, and they say its size.
use fakepostmaster.Prelude.{
  ℕ, suc, ◌+◌, ◌≤◌, ◌<◌, ◌≡◌, ap, sym, ◌∙◌, List, [], ◌++◌, length, All, arith,
}
use fakepostmaster.Int.{pos}
use fakepostmaster.Outcome.{ok}
use fakepostmaster.Outcome.Laws.{Returns}
use fakepostmaster.Buffer.{BytesCrate}
use fakepostmaster.Wire.{Wire}
use fakepostmaster.Wire.Lawful.{IsSized, ReadsBack}
use fakepostmaster.Types.Text.{cstring}
use fakepostmaster.Types.Text.Laws.{IsText, cstring-IsSized, cstring-ReadsBack}
use fakepostmaster.Types.Counted.{vec16, vec32}
use fakepostmaster.Types.Counted.Laws.{
  IsVec16, IsVec32, vec16-IsSized, vec16-ReadsBack, vec32-IsSized, vec32-ReadsBack,
}
use fakepostmaster.Types.Terminated.{vec_null}
use fakepostmaster.Types.Terminated.Laws.{vec_null-IsSized, vec_null-ReadsBackWhole}

module _ (B : BytesCrate) where
  -- A `CString` of bytes that are not zero is read back from its own bytes, up to the terminator, and
  -- what follows it stays in the buffer.
  pub cstring_round_trip :
      (s rest : List ℕ)
      → IsText s
      → (cstring B).deserialize ((cstring B).serialize s [] ++ rest) ≡ ok (s, rest)
  cstring_round_trip s rest h =
      ap (λ t. (cstring B).deserialize (t ++ rest)) ((cstring-IsSized B).serialize_appends s [])
      ∙ cstring-ReadsBack B s rest h

  module _ {A : Type 0} (w : Wire A) {IsValid : A → Type 0} {encode : A → List ℕ} {least : ℕ} where
    -- If `T` appends a format and reads it back, a `Vec16<T>` of fewer than 2^15 valid elements is read
    -- back from its own bytes, in the same order, and what follows it stays in the buffer.
    pub vec16_round_trip :
        (sized : IsSized w IsValid encode least) (reads : ReadsBack w IsValid encode) (xs : List A)
        (rest : List ℕ)
        → IsVec16 IsValid xs
        → (vec16 B w).deserialize ((vec16 B w).serialize xs [] ++ rest) ≡ ok (xs, rest)
    vec16_round_trip sized reads xs rest h =
        ap (λ t. (vec16 B w).deserialize (t ++ rest))
          ((vec16-IsSized B w sized).serialize_appends xs [])
        ∙ vec16-ReadsBack B w sized reads xs rest h

    -- If `T` appends a format and reads it back, a `Vec32<T>` of fewer than 2^31 valid elements is read
    -- back from its own bytes, in the same order, and what follows it stays in the buffer.
    pub vec32_round_trip :
        (sized : IsSized w IsValid encode least) (reads : ReadsBack w IsValid encode) (xs : List A)
        (rest : List ℕ)
        → IsVec32 IsValid xs
        → (vec32 B w).deserialize ((vec32 B w).serialize xs [] ++ rest) ≡ ok (xs, rest)
    vec32_round_trip sized reads xs rest h =
        ap (λ t. (vec32 B w).deserialize (t ++ rest))
          ((vec32-IsSized B w sized).serialize_appends xs [])
        ∙ vec32-ReadsBack B w sized reads xs rest h

    -- If `T` appends a format of a byte or more and reads it back, a `VecNull<T>` of valid elements is
    -- read back from a buffer that holds its own bytes and nothing else.
    pub vec_null_round_trip :
        (sized : IsSized w IsValid encode (suc least)) (reads : ReadsBack w IsValid encode)
        (xs : List A)
        → All IsValid xs
        → (vec_null B w).deserialize ((vec_null B w).serialize xs []) ≡ ok (xs, [])
    vec_null_round_trip sized reads xs h =
        ap (vec_null B w).deserialize ((vec_null-IsSized B w sized).serialize_appends xs [])
        ∙ vec_null-ReadsBackWhole B w sized reads xs h

    -- If `T` takes a byte or more and neither panics nor loops, `VecNull<T>` returns a value or an
    -- error on any buffer: the rounds that the buffer's length allows are enough. A value takes a byte
    -- or more.
    pub vec_null-Returns :
        (sized : IsSized w IsValid encode (suc least)) (bs : List ℕ)
        → Returns (λ r. length r.1 + 1 ≤ length bs) ((vec_null B w).deserialize bs)
    vec_null-Returns sized bs = (vec_null-IsSized B w sized).takes bs

    -- If `T` says its size, `byte_size` of a `VecNull<T>` of valid elements is the number of bytes that
    -- it writes, where an `i32` holds it.
    pub vec_null_size :
        (sized : IsSized w IsValid encode (suc least)) (xs : List A)
        → All IsValid xs
        → length ((vec_null B w).serialize xs []) < 2147483648
        → (vec_null B w).byte_size xs ≡ pos (length ((vec_null B w).serialize xs []))
    vec_null_size sized xs v h =
        let s = vec_null-IsSized B w sized in
        let e = s.serialize_appends xs [] in
        s.size_exact xs v (omega (arith, ap length e)) ∙ ap (λ t. pos (length t)) (sym e)
