-- ===== src/Types/Text.antt =====
-- libpq-serde-types/src/libpq_types.rs: `CString`, given by its bytes without the terminator.
pub mod Laws
pub mod Reading
use fakepostmaster.Prelude.{
  ℕ, zero, suc, ◌+◌, ◌^◌, Option, none, some, List, [], ◌∷◌, ◌++◌, length, ◌==◌, if◌then◌else◌,
  Bool, true, false,
}
use fakepostmaster.Int.{ℤ, pos, as_i32, add_i32}
use fakepostmaster.Outcome.{Outcome, ok, err, out_of_fuel, ok_or, ◌>>=◌, try_get_error, nul_error}
use fakepostmaster.Buffer.{BytesCrate}
use fakepostmaster.Wire.{Wire}

-- `CString::new`: a zero byte inside the text is an error.
unfoldable pub has_nul : List ℕ → Bool
has_nul [] = false
has_nul (c ∷ s) = if c == 0 then true else has_nul s

unfoldable pub cstring_new : List ℕ → Outcome (List ℕ)
unfolding has_nul
cstring_new s = if has_nul s then err nul_error else ok s

module _ (B : BytesCrate) where
  open B use {put_u8, put_slice, try_get_u8}

  -- `while c != 0 { v.push(c); c = buffer.try_get_u8()?; }`, a unit of fuel for each round.
  unfoldable pub read_until_nul : ℕ → ℕ → List ℕ → List ℕ → Outcome (List ℕ × List ℕ)
  read_until_nul zero c v buffer = out_of_fuel
  read_until_nul (suc f) c v buffer =
      let more = ok_or try_get_error (try_get_u8 buffer) >>= λ (c', buffer').
      read_until_nul f c' (v ++ c ∷ []) buffer' in
      if c == 0 then ok (v, buffer) else more

  unfoldable pub cstring_deserialize : List ℕ → Outcome (List ℕ × List ℕ)
  cstring_deserialize buffer = do
    (c, rest) ← ok_or try_get_error (try_get_u8 buffer)
    read_until_nul (length buffer) c [] rest

  unfoldable pub cstring : Wire (List ℕ)
  unfolding cstring_deserialize
  cstring = record {
    serialize = λ s buffer. put_u8 (put_slice buffer s) 0;
    deserialize = cstring_deserialize;
    byte_size = λ s. add_i32 (as_i32 (length s)) (pos 1);
  }
