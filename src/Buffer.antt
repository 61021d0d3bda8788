-- ===== src/Buffer.antt =====
-- The interface of the `bytes` crate, as far as the program calls it. A `BytesMut` and a `Bytes`
-- are given by their contents. `put_*` append; `try_get_*` return what is left beside the value,
-- and nothing where too few bytes remain. All integers are big-endian.
use fakepostmaster.Prelude.{
  ℕ, ◌≤◌, ◌<◌, ◌≡◌, Option, none, some, List, [], ◌∷◌, ◌++◌, length, take, drop,
}
use fakepostmaster.Int.{
  ℤ, i8_to_be_bytes, i16_to_be_bytes, i32_to_be_bytes, i8_from_be_bytes, i16_from_be_bytes,
  i32_from_be_bytes,
}

pub record BytesCrate : Type 0 where
  pub put_u8 : List ℕ → ℕ → List ℕ
  pub put_i8 : List ℕ → ℤ → List ℕ
  pub put_i16 : List ℕ → ℤ → List ℕ
  pub put_i32 : List ℕ → ℤ → List ℕ
  pub put_slice : List ℕ → List ℕ → List ℕ
  pub try_get_u8 : List ℕ → Option (ℕ × List ℕ)
  pub try_get_i8 : List ℕ → Option (ℤ × List ℕ)
  pub try_get_i16 : List ℕ → Option (ℤ × List ℕ)
  pub try_get_i32 : List ℕ → Option (ℤ × List ℕ)
  pub try_copy_to_slice : ℕ → List ℕ → Option (List ℕ × List ℕ)
  pub put_u8_appends : (buf : List ℕ) (b : ℕ) → put_u8 buf b ≡ buf ++ b ∷ []
  pub put_i8_appends : (buf : List ℕ) (z : ℤ) → put_i8 buf z ≡ buf ++ i8_to_be_bytes z
  pub put_i16_appends : (buf : List ℕ) (z : ℤ) → put_i16 buf z ≡ buf ++ i16_to_be_bytes z
  pub put_i32_appends : (buf : List ℕ) (z : ℤ) → put_i32 buf z ≡ buf ++ i32_to_be_bytes z
  pub put_slice_appends : (buf bs : List ℕ) → put_slice buf bs ≡ buf ++ bs
  pub try_get_u8_some : (a : ℕ) (rest : List ℕ) → try_get_u8 (a ∷ rest) ≡ some (a, rest)
  pub try_get_u8_none : try_get_u8 [] ≡ none
  pub try_get_i8_some :
      (a : ℕ) (rest : List ℕ) → try_get_i8 (a ∷ rest) ≡ some (i8_from_be_bytes a, rest)
  pub try_get_i8_none : try_get_i8 [] ≡ none
  pub try_get_i16_some :
      (a b : ℕ) (rest : List ℕ) → try_get_i16 (a ∷ b ∷ rest) ≡ some (i16_from_be_bytes a b, rest)
  pub try_get_i16_none : (bs : List ℕ) → length bs < 2 → try_get_i16 bs ≡ none
  pub try_get_i32_some :
      (a b c d : ℕ) (rest : List ℕ)
      → try_get_i32 (a ∷ b ∷ c ∷ d ∷ rest) ≡ some (i32_from_be_bytes a b c d, rest)
  pub try_get_i32_none : (bs : List ℕ) → length bs < 4 → try_get_i32 bs ≡ none
  pub try_copy_to_slice_some :
      (n : ℕ) (bs : List ℕ) → n ≤ length bs → try_copy_to_slice n bs ≡ some (take n bs, drop n bs)
  pub try_copy_to_slice_none : (n : ℕ) (bs : List ℕ) → length bs < n → try_copy_to_slice n bs ≡ none
