-- ===== src/UnitTests/Vec16.antt =====
-- libpq-serde-types/src/libpq_types.rs: the tests of `Vec16`.
use fakepostmaster.Prelude.{List, [], ◌∷◌, ◌++◌, codes}
use fakepostmaster.Int.{pos}
use fakepostmaster.Outcome.{Outcome, ◌>>=◌}
use fakepostmaster.Buffer.{BytesCrate}
use fakepostmaster.Message.Get.{value_of}
use fakepostmaster.Types.Scalar.{i32, byte}
use fakepostmaster.Types.Text.{cstring, cstring_new}
use fakepostmaster.Types.Vectors.{new_vec16, into_vec16}
use fakepostmaster.Types.Counted.{vec16}
use fakepostmaster.UnitTests.{assert_eq, nat_eq, int_eq, list_eq}

module _ (B : BytesCrate) where
  abbrev pub vec16_i32_serialize : Outcome (Unit {0})
  vec16_i32_serialize =
      assert_eq
        (0 ∷ 5 ∷ 0 ∷ 0 ∷ 0 ∷ 1 ∷ 0 ∷ 0 ∷ 0 ∷ 2 ∷ 0 ∷ 0 ∷ 0 ∷ 3 ∷ 0 ∷ 0 ∷ 0 ∷ 4 ∷ 0 ∷ 0 ∷ 0 ∷ 5 ∷ [])
        ((vec16 B (i32 B)).serialize (into_vec16 (pos 1 ∷ pos 2 ∷ pos 3 ∷ pos 4 ∷ pos 5 ∷ [])) [])

  abbrev pub vec16_byte_serialize : Outcome (Unit {0})
  vec16_byte_serialize =
      assert_eq (0 ∷ 5 ∷ 1 ∷ 2 ∷ 3 ∷ 4 ∷ 5 ∷ [])
        ((vec16 B (byte B)).serialize (into_vec16 (1 ∷ 2 ∷ 3 ∷ 4 ∷ 5 ∷ [])) [])

  abbrev pub vec16_cstring_serialize : Outcome (Unit {0})
  vec16_cstring_serialize = do
    a ← cstring_new (codes "aldabis")
    b ← cstring_new (codes "aldabis")
    assert_eq (0 ∷ 2 ∷ (codes "aldabis" ++ 0 ∷ (codes "aldabis" ++ 0 ∷ [])))
        ((vec16 B (cstring B)).serialize (into_vec16 (a ∷ b ∷ [])) [])

  abbrev pub vec16_empty_serialize : Outcome (Unit {0})
  vec16_empty_serialize = assert_eq (0 ∷ 0 ∷ []) ((vec16 B (cstring B)).serialize new_vec16 [])

  abbrev pub vec16_i32_deserialize : Outcome (Unit {0})
  vec16_i32_deserialize = do
    value ← value_of (
        (vec16 B (i32 B)).deserialize (
          0 ∷ 5 ∷ 0 ∷ 0 ∷ 0 ∷ 1 ∷ 0 ∷ 0 ∷ 0 ∷ 2 ∷ 0 ∷ 0 ∷ 0 ∷ 3 ∷ 0 ∷ 0 ∷ 0 ∷ 4 ∷ 0 ∷ 0 ∷ 0 ∷ 5
          ∷ []))
    assert_eq (into_vec16 (pos 1 ∷ pos 2 ∷ pos 3 ∷ pos 4 ∷ pos 5 ∷ [])) value

  abbrev pub vec16_byte_deserialize : Outcome (Unit {0})
  vec16_byte_deserialize = do
    value ← value_of ((vec16 B (byte B)).deserialize (0 ∷ 5 ∷ 1 ∷ 2 ∷ 3 ∷ 4 ∷ 5 ∷ []))
    assert_eq (into_vec16 (1 ∷ 2 ∷ 3 ∷ 4 ∷ 5 ∷ [])) value

  abbrev pub vec16_cstring_deserialize : Outcome (Unit {0})
  vec16_cstring_deserialize = do
    a ← cstring_new (codes "aldabis")
    b ← cstring_new (codes "aldabis")
    value ← value_of (
        (vec16 B (cstring B)).deserialize
          (0 ∷ 2 ∷ (codes "aldabis" ++ 0 ∷ (codes "aldabis" ++ 0 ∷ []))))
    assert_eq (into_vec16 (a ∷ b ∷ [])) value

  abbrev pub vec16_empty_deserialize : Outcome (Unit {0})
  vec16_empty_deserialize = do
    value ← value_of ((vec16 B (cstring B)).deserialize (0 ∷ 0 ∷ []))
    assert_eq new_vec16 value

  abbrev pub vec16_i32_byte_size : Outcome (Unit {0})
  vec16_i32_byte_size =
      assert_eq (pos 22)
        ((vec16 B (i32 B)).byte_size (into_vec16 (pos 1 ∷ pos 2 ∷ pos 3 ∷ pos 4 ∷ pos 5 ∷ [])))

  abbrev pub vec16_byte_byte_size : Outcome (Unit {0})
  vec16_byte_byte_size =
      assert_eq (pos 7) ((vec16 B (byte B)).byte_size (into_vec16 (1 ∷ 2 ∷ 3 ∷ 4 ∷ 5 ∷ [])))

  abbrev pub vec16_cstring_byte_size : Outcome (Unit {0})
  vec16_cstring_byte_size = do
    a ← cstring_new (codes "aldabis")
    b ← cstring_new (codes "aldabis")
    assert_eq (pos 18) ((vec16 B (cstring B)).byte_size (into_vec16 (a ∷ b ∷ [])))

  abbrev pub vec16_empty_byte_size : Outcome (Unit {0})
  vec16_empty_byte_size = assert_eq (pos 2) ((vec16 B (cstring B)).byte_size (into_vec16 []))

  abbrev pub tests : List (Outcome (Unit {0}))
  tests =
      vec16_i32_serialize ∷ vec16_byte_serialize ∷ vec16_cstring_serialize ∷ vec16_empty_serialize
      ∷ vec16_i32_deserialize ∷ vec16_byte_deserialize ∷ vec16_cstring_deserialize
      ∷ vec16_empty_deserialize ∷ vec16_i32_byte_size ∷ vec16_byte_byte_size
      ∷ vec16_cstring_byte_size ∷ vec16_empty_byte_size ∷ []
