-- ===== src/Types/Counted.antt =====
-- libpq-serde-types/src/libpq_types.rs: `Vec16<T>` and `Vec32<T>`, given by the list of the elements.
pub mod Laws
pub mod Wrapping
pub mod Reading
use fakepostmaster.Prelude.{ℕ, zero, suc, List, [], ◌∷◌, ◌++◌, length}
use fakepostmaster.Int.{ℤ, pos, as_i16, as_i32, add_i32, rounds}
use fakepostmaster.Outcome.{Outcome, ok, ok_or, ◌>>=◌, try_get_error}
use fakepostmaster.Buffer.{BytesCrate}
use fakepostmaster.Wire.{Wire}
use fakepostmaster.Types.Vectors.{Vec16, Vec32, new_vec16, new_vec32}
use fakepostmaster.Types.Scalar.{i16, i32}

module _ {A : Type 0} (w : Wire A) where
  -- `for elt in &self.0 { elt.serialize(buffer); }`
  unfoldable pub serialize_elements : List A → List ℕ → List ℕ
  serialize_elements [] buffer = buffer
  serialize_elements (x ∷ xs) buffer = serialize_elements xs (w.serialize x buffer)

  -- `for elt in &self.0 { size += elt.byte_size(); }`
  unfoldable pub add_sizes : ℤ → List A → ℤ
  add_sizes size [] = size
  add_sizes size (x ∷ xs) = add_sizes (add_i32 size (w.byte_size x)) xs

  -- `for _ in 0..len { v.0.push(T::deserialize(buffer)?); }`, with the rounds that are left.
  unfoldable pub deserialize_elements : ℕ → List A → List ℕ → Outcome (List A × List ℕ)
  deserialize_elements zero v buffer = ok (v, buffer)
  deserialize_elements (suc n) v buffer = do
    (x, rest) ← w.deserialize buffer
    deserialize_elements n (v ++ x ∷ []) rest

module _ (B : BytesCrate) {A : Type 0} (w : Wire A) where
  open B use {try_get_i16, try_get_i32}

  unfoldable pub vec16 : Wire (Vec16 A)
  unfolding i16
  vec16 = record {
    serialize =
        λ xs buffer. serialize_elements w xs ((i16 B).serialize (as_i16 (length xs)) buffer);
    deserialize = λ buffer. do
      (len, rest) ← ok_or try_get_error (try_get_i16 buffer)
      deserialize_elements w (rounds len) new_vec16 rest;
    byte_size = λ xs. add_sizes w (pos 2) xs;
  }

  unfoldable pub vec32 : Wire (Vec32 A)
  unfolding i32
  vec32 = record {
    serialize =
        λ xs buffer. serialize_elements w xs ((i32 B).serialize (as_i32 (length xs)) buffer);
    deserialize = λ buffer. do
      (len, rest) ← ok_or try_get_error (try_get_i32 buffer)
      deserialize_elements w (rounds len) new_vec32 rest;
    byte_size = λ xs. add_sizes w (pos 4) xs;
  }
