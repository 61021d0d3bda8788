-- ===== src/UnitTests/VecNull.antt =====
-- libpq-serde-types/src/libpq_types.rs: the tests of `VecNull`.
use fakepostmaster.Prelude.{List, [], ◌∷◌, ◌++◌, codes}
use fakepostmaster.Int.{pos}
use fakepostmaster.Outcome.{Outcome, ◌>>=◌}
use fakepostmaster.Buffer.{BytesCrate}
use fakepostmaster.Message.Get.{value_of}
use fakepostmaster.Types.Scalar.{i32, byte}
use fakepostmaster.Types.Text.{cstring, cstring_new}
use fakepostmaster.Types.Vectors.{new_vec_null, into_vec_null}
use fakepostmaster.Types.Terminated.{vec_null}
use fakepostmaster.UnitTests.{assert_eq, nat_eq, int_eq, list_eq}

module _ (B : BytesCrate) where
  abbrev pub vecnull_i32_serialize : Outcome (Unit {0})
  vecnull_i32_serialize =
      assert_eq
        (0 ∷ 0 ∷ 0 ∷ 1 ∷ 0 ∷ 0 ∷ 0 ∷ 2 ∷ 0 ∷ 0 ∷ 0 ∷ 3 ∷ 0 ∷ 0 ∷ 0 ∷ 4 ∷ 0 ∷ 0 ∷ 0 ∷ 5 ∷ 0 ∷ [])
        ((vec_null B (i32 B)).serialize (into_vec_null (pos 1 ∷ pos 2 ∷ pos 3 ∷ pos 4 ∷ pos 5 ∷ []))
          [])

  abbrev pub vecnull_byte_serialize : Outcome (Unit {0})
  vecnull_byte_serialize =
      assert_eq (1 ∷ 2 ∷ 3 ∷ 4 ∷ 5 ∷ 0 ∷ [])
        ((vec_null B (byte B)).serialize (into_vec_null (1 ∷ 2 ∷ 3 ∷ 4 ∷ 5 ∷ [])) [])

  abbrev pub vecnull_cstring_serialize : Outcome (Unit {0})
  vecnull_cstring_serialize = do
    a ← cstring_new (codes "aldabis")
    b ← cstring_new (codes "aldabis")
    assert_eq (codes "aldabis" ++ 0 ∷ (codes "aldabis" ++ 0 ∷ 0 ∷ []))
        ((vec_null B (cstring B)).serialize (into_vec_null (a ∷ b ∷ [])) [])

  abbrev pub vecnull_empty_serialize : Outcome (Unit {0})
  vecnull_empty_serialize = assert_eq (0 ∷ []) ((vec_null B (cstring B)).serialize new_vec_null [])

  abbrev pub vecnull_i32_deserialize : Outcome (Unit {0})
  vecnull_i32_deserialize = do
    value ← value_of (
        (vec_null B (i32 B)).deserialize
          (0 ∷ 0 ∷ 0 ∷ 1 ∷ 0 ∷ 0 ∷ 0 ∷ 2 ∷ 0 ∷ 0 ∷ 0 ∷ 3 ∷ 0 ∷ 0 ∷ 0 ∷ 4 ∷ 0 ∷ 0 ∷ 0 ∷ 5 ∷ 0 ∷ []))
    assert_eq (into_vec_null (pos 1 ∷ pos 2 ∷ pos 3 ∷ pos 4 ∷ pos 5 ∷ [])) value

  abbrev pub vecnull_byte_deserialize : Outcome (Unit {0})
  vecnull_byte_deserialize = do
    value ← value_of ((vec_null B (byte B)).deserialize (1 ∷ 2 ∷ 3 ∷ 4 ∷ 5 ∷ 0 ∷ []))
    assert_eq (into_vec_null (1 ∷ 2 ∷ 3 ∷ 4 ∷ 5 ∷ [])) value

  abbrev pub vecnull_cstring_deserialize : Outcome (Unit {0})
  vecnull_cstring_deserialize = do
    a ← cstring_new (codes "aldabis")
    b ← cstring_new (codes "aldabis")
    value ← value_of (
        (vec_null B (cstring B)).deserialize
          (codes "aldabis" ++ 0 ∷ (codes "aldabis" ++ 0 ∷ 0 ∷ [])))
    assert_eq (into_vec_null (a ∷ b ∷ [])) value

  abbrev pub vecnull_empty_deserialize : Outcome (Unit {0})
  vecnull_empty_deserialize = do
    value ← value_of ((vec_null B (cstring B)).deserialize (0 ∷ []))
    assert_eq new_vec_null value

  abbrev pub vecnull_i32_byte_size : Outcome (Unit {0})
  vecnull_i32_byte_size =
      assert_eq (pos 21) (
        (vec_null B (i32 B)).byte_size (into_vec_null (pos 1 ∷ pos 2 ∷ pos 3 ∷ pos 4 ∷ pos 5 ∷ [])))

  abbrev pub vecnull_byte_byte_size : Outcome (Unit {0})
  vecnull_byte_byte_size =
      assert_eq (pos 6) ((vec_null B (byte B)).byte_size (into_vec_null (1 ∷ 2 ∷ 3 ∷ 4 ∷ 5 ∷ [])))

  abbrev pub vecnull_cstring_byte_size : Outcome (Unit {0})
  vecnull_cstring_byte_size = do
    a ← cstring_new (codes "aldabis")
    b ← cstring_new (codes "aldabis")
    assert_eq (pos 17) ((vec_null B (cstring B)).byte_size (into_vec_null (a ∷ b ∷ [])))

  abbrev pub vecnull_empty_byte_size : Outcome (Unit {0})
  vecnull_empty_byte_size =
      assert_eq (pos 1) ((vec_null B (cstring B)).byte_size (into_vec_null []))

  abbrev pub tests : List (Outcome (Unit {0}))
  tests =
      vecnull_i32_serialize ∷ vecnull_byte_serialize ∷ vecnull_cstring_serialize
      ∷ vecnull_empty_serialize ∷ vecnull_i32_deserialize ∷ vecnull_byte_deserialize
      ∷ vecnull_cstring_deserialize ∷ vecnull_empty_deserialize ∷ vecnull_i32_byte_size
      ∷ vecnull_byte_byte_size ∷ vecnull_cstring_byte_size ∷ vecnull_empty_byte_size ∷ []
