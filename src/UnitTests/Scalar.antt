-- ===== src/UnitTests/Scalar.antt =====
-- libpq-serde-types/src/libpq_types.rs: the tests of integers, bytes and C strings.
use fakepostmaster.Prelude.{List, [], ◌∷◌, ◌++◌, codes}
use fakepostmaster.Int.{pos}
use fakepostmaster.Outcome.{Outcome, ◌>>=◌}
use fakepostmaster.Buffer.{BytesCrate}
use fakepostmaster.Message.Get.{value_of}
use fakepostmaster.Types.Scalar.{i8, i16, i32, byte}
use fakepostmaster.Types.Text.{cstring, cstring_new}
use fakepostmaster.UnitTests.{assert_eq, nat_eq, int_eq, list_eq}

module _ (B : BytesCrate) where
  abbrev pub i8_serialize : Outcome (Unit {0})
  i8_serialize = assert_eq (5 ∷ []) ((i8 B).serialize (pos 5) [])

  abbrev pub i8_deserialize : Outcome (Unit {0})
  i8_deserialize = do value ← value_of ((i8 B).deserialize (8 ∷ [])); assert_eq (pos 8) value

  abbrev pub i8_byte_size : Outcome (Unit {0})
  i8_byte_size = assert_eq (pos 1) ((i8 B).byte_size (pos 8))

  abbrev pub i16_serialize : Outcome (Unit {0})
  i16_serialize = assert_eq (0 ∷ 5 ∷ []) ((i16 B).serialize (pos 5) [])

  abbrev pub i16_deserialize : Outcome (Unit {0})
  i16_deserialize = do value ← value_of ((i16 B).deserialize (0 ∷ 8 ∷ [])); assert_eq (pos 8) value

  abbrev pub i16_byte_size : Outcome (Unit {0})
  i16_byte_size = assert_eq (pos 2) ((i16 B).byte_size (pos 8))

  abbrev pub i32_serialize : Outcome (Unit {0})
  i32_serialize = assert_eq (0 ∷ 0 ∷ 0 ∷ 5 ∷ []) ((i32 B).serialize (pos 5) [])

  abbrev pub i32_deserialize : Outcome (Unit {0})
  i32_deserialize = do
    value ← value_of ((i32 B).deserialize (0 ∷ 0 ∷ 0 ∷ 8 ∷ []))
    assert_eq (pos 8) value

  abbrev pub i32_byte_size : Outcome (Unit {0})
  i32_byte_size = assert_eq (pos 4) ((i32 B).byte_size (pos 8))

  abbrev pub byte_serialize : Outcome (Unit {0})
  byte_serialize = assert_eq (b'A' ∷ []) ((byte B).serialize b'A' [])

  abbrev pub byte_deserialize : Outcome (Unit {0})
  byte_deserialize = do value ← value_of ((byte B).deserialize (b'T' ∷ [])); assert_eq b'T' value

  abbrev pub byte_byte_size : Outcome (Unit {0})
  byte_byte_size = assert_eq (pos 1) ((byte B).byte_size 1)

  abbrev pub cstring_serialize : Outcome (Unit {0})
  cstring_serialize = do
    s ← cstring_new (codes "aldabis")
    assert_eq (codes "aldabis" ++ 0 ∷ []) ((cstring B).serialize s [])

  abbrev pub cstring_deserialize : Outcome (Unit {0})
  cstring_deserialize = do
    expected ← cstring_new (codes "aldabis")
    value ← value_of ((cstring B).deserialize (codes "aldabis" ++ 0 ∷ []))
    assert_eq expected value

  abbrev pub cstring_byte_size : Outcome (Unit {0})
  cstring_byte_size = do
    s ← cstring_new (codes "aldabis")
    assert_eq (pos 8) ((cstring B).byte_size s)

  abbrev pub tests : List (Outcome (Unit {0}))
  tests =
      i8_serialize ∷ i8_deserialize ∷ i8_byte_size ∷ i16_serialize ∷ i16_deserialize ∷ i16_byte_size
      ∷ i32_serialize ∷ i32_deserialize ∷ i32_byte_size ∷ byte_serialize ∷ byte_deserialize
      ∷ byte_byte_size ∷ cstring_serialize ∷ cstring_deserialize ∷ cstring_byte_size ∷ []
