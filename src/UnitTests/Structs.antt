-- ===== src/UnitTests/Structs.antt =====
-- libpq-serde-types/src/lib.rs: the struct with a field of every type, and its tests.
use fakepostmaster.Prelude.{ℕ, ◌&&◌, List, [], ◌∷◌, codes, length}
use fakepostmaster.Int.{ℤ, pos, as_i32}
use fakepostmaster.Outcome.{Outcome, ok, ◌>>=◌, expect}
use fakepostmaster.Buffer.{BytesCrate}
use fakepostmaster.Wire.{Wire}
use fakepostmaster.Message.Get.{value_of}
use fakepostmaster.Types.Scalar.{i16, i32, byte, byte4}
use fakepostmaster.Types.Text.{cstring, cstring_new}
use fakepostmaster.Types.Vectors.{Vec16, Vec32, into_vec16, into_vec32}
use fakepostmaster.Types.Counted.{vec16, vec32}
use fakepostmaster.Derive.{Fields, no_fields, field, serde_libpq_data}
use fakepostmaster.UnitTests.{PartialEq, assert_eq, nat_eq, int_eq, list_eq}

pub record AllTypes : Type 0 where
  pub byte : ℕ
  pub byte4 : List ℕ
  pub int_16 : ℤ
  pub int_32 : ℤ
  pub cstring : List ℕ
  pub vec16_cstring : Vec16 (List ℕ)
  pub vec32_bytes : Vec32 ℕ

abbrev list_of_bytes : PartialEq (List ℕ)
list_of_bytes = list_eq

abbrev list_of_strings : PartialEq (List (List ℕ))
list_of_strings = list_eq

-- `#[derive(PartialEq)]`
instance abbrev all_types_eq : PartialEq AllTypes
all_types_eq = record {
  eq = λ a b.
      nat_eq.eq a.byte b.byte
      && list_of_bytes.eq a.byte4 b.byte4
      && int_eq.eq a.int_16 b.int_16
      && int_eq.eq a.int_32 b.int_32
      && list_of_bytes.eq a.cstring b.cstring
      && list_of_strings.eq a.vec16_cstring b.vec16_cstring
      && list_of_bytes.eq a.vec32_bytes b.vec32_bytes;
}

abbrev pub example_struct : Outcome AllTypes
example_struct = do
  text ← expect (cstring_new (codes "aldabis"))
  first ← expect (cstring_new (codes "aldabis"))
  second ← expect (cstring_new (codes "aldabis"))
  ok (record {
    byte = 1;
    byte4 = 0 ∷ 0 ∷ 0 ∷ 0 ∷ [];
    int_16 = pos 125;
    int_32 = pos 521;
    cstring = text;
    vec16_cstring = into_vec16 (first ∷ second ∷ []);
    vec32_bytes = into_vec32 (1 ∷ 2 ∷ []);
  })

module _ (B : BytesCrate) where
  abbrev all_fields : Fields
  all_fields = field ℕ (byte B) (
      field (List ℕ) (byte4 B) (
        field ℤ (i16 B) (
          field ℤ (i32 B) (
            field (List ℕ) (cstring B) (
              field (Vec16 (List ℕ)) (vec16 B (cstring B))
                (field (Vec32 ℕ) (vec32 B (byte B)) no_fields))))))

  -- `#[derive(SerdeLibpqData)]`
  unfoldable pub all_types : Wire AllTypes
  unfolding serde_libpq_data
  all_types =
      serde_libpq_data all_fields
        (λ t. (
          t.byte,
          (t.byte4, (t.int_16, (t.int_32, (t.cstring, (t.vec16_cstring, (t.vec32_bytes, tt)))))),
        ))
        (λ v. record {
          byte = v.0;
          byte4 = v.1.0;
          int_16 = v.1.1.0;
          int_32 = v.1.1.1.0;
          cstring = v.1.1.1.1.0;
          vec16_cstring = v.1.1.1.1.1.0;
          vec32_bytes = v.1.1.1.1.1.1.0;
        })

  abbrev pub example_from_serialize : Outcome (List ℕ)
  example_from_serialize = do
    text ← expect (cstring_new (codes "aldabis"))
    first ← expect (cstring_new (codes "aldabis"))
    second ← expect (cstring_new (codes "aldabis"))
    let m₁ = (byte B).serialize 1 []
    let m₂ = (byte4 B).serialize (0 ∷ 0 ∷ 0 ∷ 0 ∷ []) m₁
    let m₃ = (i16 B).serialize (pos 125) m₂
    let m₄ = (i32 B).serialize (pos 521) m₃
    let m₅ = (cstring B).serialize text m₄
    let m₆ = (vec16 B (cstring B)).serialize (into_vec16 (first ∷ second ∷ [])) m₅
    ok ((vec32 B (byte B)).serialize (into_vec32 (1 ∷ 2 ∷ [])) m₆)

  abbrev pub derive_macro_serialize_struct : Outcome (Unit {0})
  derive_macro_serialize_struct = do
    s ← example_struct
    m ← example_from_serialize
    value ← value_of (all_types.deserialize m)
    assert_eq s value

  abbrev pub derive_macro_deserialize_struct : Outcome (Unit {0})
  derive_macro_deserialize_struct = do
    b ← example_struct
    m ← example_from_serialize
    assert_eq (all_types.byte_size b) (as_i32 (length m))

  abbrev pub derive_macro_bytesize_struct : Outcome (Unit {0})
  derive_macro_bytesize_struct = do
    b ← example_struct
    m ← example_from_serialize
    assert_eq (all_types.byte_size b) (as_i32 (length m))

  abbrev pub tests : List (Outcome (Unit {0}))
  tests =
      derive_macro_serialize_struct ∷ derive_macro_deserialize_struct ∷ derive_macro_bytesize_struct
      ∷ []
