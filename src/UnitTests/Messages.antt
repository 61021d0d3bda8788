-- ===== src/UnitTests/Messages.antt =====
-- src/message.rs: the tests of messages behind their headers.
use fakepostmaster.Prelude.{ℕ, ◌&&◌, List, [], ◌∷◌}
use fakepostmaster.Int.{ℤ, pos, add_i32}
use fakepostmaster.Outcome.{Outcome, ◌>>=◌}
use fakepostmaster.Buffer.{BytesCrate}
use fakepostmaster.Message.Header.{MessageHeader, message_header}
use fakepostmaster.Message.Authentication.{
  AuthenticationOk, new_authentication_ok, authentication_ok_body,
}
use fakepostmaster.Message.Row.{DataRow, new_data_row, data_row_body}
use fakepostmaster.UnitTests.{PartialEq, assert_eq, nat_eq, int_eq, list_eq}

instance abbrev header_eq : PartialEq MessageHeader
header_eq = record {
  eq = λ a b. nat_eq.eq a.message_type b.message_type && int_eq.eq a.length b.length;
}

instance abbrev authentication_ok_eq : PartialEq AuthenticationOk
authentication_ok_eq = record { eq = λ a b. int_eq.eq a.code b.code }

abbrev list_of_columns : PartialEq (List (List ℕ))
list_of_columns = list_eq

instance abbrev data_row_eq : PartialEq DataRow
data_row_eq = record { eq = λ a b. list_of_columns.eq a.columns b.columns }

module _ (B : BytesCrate) where
  abbrev header_of : ℕ → ℤ → MessageHeader
  header_of kind size = record { message_type = kind; length = add_i32 (pos 4) size }

  abbrev pub authentication_ok_serialize : Outcome (Unit {0})
  authentication_ok_serialize =
      let m = new_authentication_ok in
      let body = (authentication_ok_body B).wire in
      let h = header_of b'R' (body.byte_size m) in
      assert_eq (b'R' ∷ 0 ∷ 0 ∷ 0 ∷ 8 ∷ 0 ∷ 0 ∷ 0 ∷ 0 ∷ [])
        (body.serialize m ((message_header B).serialize h []))

  -- A message that is read behind its header.
  abbrev read_both :
      {A : Type 0} ⦃e : PartialEq A⦄
      → A
      → MessageHeader
      → (List ℕ → Outcome (A × List ℕ))
      → List ℕ
      → Outcome (Unit {0})
  read_both m h deserialize bytes = do
    (h2, rest) ← (message_header B).deserialize bytes
    (m2, rest') ← deserialize rest
    same ← assert_eq m m2
    assert_eq h h2

  abbrev pub authentication_ok_deserialize : Outcome (Unit {0})
  authentication_ok_deserialize =
      let m = new_authentication_ok in
      let body = (authentication_ok_body B).wire in
      read_both m (header_of b'R' (body.byte_size m)) body.deserialize
        (b'R' ∷ 0 ∷ 0 ∷ 0 ∷ 8 ∷ 0 ∷ 0 ∷ 0 ∷ 0 ∷ [])

  -- It has no `#[test]`, and is not run in the repository.
  abbrev pub datarow_emptydata_deserialize : Outcome (Unit {0})
  datarow_emptydata_deserialize =
      let m = new_data_row ([] ∷ []) in
      let body = (data_row_body B).wire in
      read_both m (header_of b'D' (body.byte_size m)) body.deserialize
        (b'D' ∷ 0 ∷ 0 ∷ 0 ∷ 10 ∷ 0 ∷ 1 ∷ 0 ∷ 0 ∷ 0 ∷ 0 ∷ [])

  abbrev pub datarow_onebytecol_deserialize : Outcome (Unit {0})
  datarow_onebytecol_deserialize =
      let m = new_data_row ((b'1' ∷ []) ∷ []) in
      let body = (data_row_body B).wire in
      read_both m (header_of b'D' (body.byte_size m)) body.deserialize
        (b'D' ∷ 0 ∷ 0 ∷ 0 ∷ 11 ∷ 0 ∷ 1 ∷ 0 ∷ 0 ∷ 0 ∷ 1 ∷ b'1' ∷ [])

  abbrev pub tests : List (Outcome (Unit {0}))
  tests =
      authentication_ok_serialize ∷ authentication_ok_deserialize ∷ datarow_emptydata_deserialize
      ∷ datarow_onebytecol_deserialize ∷ []
