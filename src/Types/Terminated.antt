-- ===== src/Types/Terminated.antt =====
-- libpq-serde-types/src/libpq_types.rs: `VecNull<T>`, given by the list of the elements.
pub mod Laws
pub mod Canonical
use fakepostmaster.Prelude.{ℕ, zero, suc, List, [], ◌∷◌, ◌++◌, length, ◌==◌, if◌then◌else◌}
use fakepostmaster.Int.{pos}
use fakepostmaster.Outcome.{
  Outcome, ok, err, out_of_fuel, ok_or, ◌>>=◌, try_get_error, incorrect_terminator,
  missing_terminator,
}
use fakepostmaster.Buffer.{BytesCrate}
use fakepostmaster.Wire.{Wire}
use fakepostmaster.Types.Vectors.{VecNull, new_vec_null}
use fakepostmaster.Types.Counted.{serialize_elements, add_sizes}

module _ (B : BytesCrate) {A : Type 0} (w : Wire A) where
  open B use {put_u8, try_get_u8}

  -- The `loop`, with a unit of fuel for each round. The buffer is all that is left of the message.
  unfoldable pub deserialize_until_last : ℕ → List A → List ℕ → Outcome (List A × List ℕ)
  deserialize_until_last zero v buffer = out_of_fuel
  deserialize_until_last (suc f) v buffer =
      let last = ok_or try_get_error (try_get_u8 buffer) >>= λ (c, rest).
      if c == 0 then ok (v, rest) else err incorrect_terminator in
      let more =
        w.deserialize buffer >>= λ (x, rest). deserialize_until_last f (v ++ x ∷ []) rest in
      if length buffer == 1
      then last
      else if length buffer == 0
      then err missing_terminator
      else more

  unfoldable pub vec_null : Wire (VecNull A)
  unfolding serialize_elements add_sizes
  vec_null = record {
    serialize = λ xs buffer. put_u8 (serialize_elements w xs buffer) 0;
    deserialize = λ buffer. deserialize_until_last (suc (length buffer)) new_vec_null buffer;
    byte_size = λ xs. add_sizes w (pos 1) xs;
  }
