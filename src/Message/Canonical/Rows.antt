-- ===== src/Message/Canonical/Rows.antt =====
-- What `RowDescription` and `DataRow` read: a count, and the columns.
use fakepostmaster.Prelude.{ℕ, refl, List}
use fakepostmaster.Int.{m16, m32, IsSigned, IsByte, i16_to_be_bytes, i32_to_be_bytes}
use fakepostmaster.Outcome.Laws.{holds, Returns-bind}
use fakepostmaster.Buffer.{BytesCrate}
use fakepostmaster.Wire.Lawful.{IsCanonical}
use fakepostmaster.Derive.{serde_libpq_data, deserialize_fields}
use fakepostmaster.Derive.Canonical.{serde_libpq_data-IsCanonical}
use fakepostmaster.Types.Scalar.{byte}
use fakepostmaster.Types.Scalar.Laws.{byte_encode}
use fakepostmaster.Types.Canonical.{
  i16-IsCanonical, i32-IsCanonical, byte-IsCanonical, cstring-IsCanonical,
}
use fakepostmaster.Types.Counted.{vec32}
use fakepostmaster.Types.Counted.Reading.{
  Taken, Takes, Encodes, CountedBy, IsCanonical-Takes, vec16-Takes, vec32-Takes,
}
use fakepostmaster.Message.Row.{
  RowDescription, DataRow, column_fields, column_description, row_description_body, data_row_body,
}
use fakepostmaster.Message.Reliable.Rows.{column_formats, IsColumnDescription, column_encode}

module _ (B : BytesCrate) where
  column_description-IsCanonical :
      IsCanonical (column_description B) (IsColumnDescription B) (column_encode B)
  unfolding column_description
  column_description-IsCanonical =
      serde_libpq_data-IsCanonical (column_fields B) (column_formats B) _ _ (λ v. refl)
        (
          cstring-IsCanonical B,
          (
            i32-IsCanonical B,
            (
              i16-IsCanonical B,
              (
                i32-IsCanonical B,
                (i16-IsCanonical B, (i32-IsCanonical B, (i16-IsCanonical B, tt))),
              ),
            ),
          ),
        )

  -- A count of 16 bits and valid columns.
  abbrev pub DescriptionReads : List ℕ → RowDescription → Type 0
  DescriptionReads chunk m =
      CountedBy (Encodes (IsColumnDescription B) (column_encode B)) i16_to_be_bytes (IsSigned m16)
        chunk m.columns

  -- A count of 16 bits, and for each column a count of 32 bits and bytes.
  abbrev pub RowReads : List ℕ → DataRow → Type 0
  RowReads chunk m =
      CountedBy (CountedBy (Encodes IsByte byte_encode) i32_to_be_bytes (IsSigned m32))
        i16_to_be_bytes (IsSigned m16) chunk m.columns

  pub row_description_body-Takes : Takes (row_description_body B).wire DescriptionReads
  unfolding row_description_body serde_libpq_data deserialize_fields
  row_description_body-Takes bs b =
      Returns-bind {P = λ r. Taken DescriptionReads bs (record { columns = r.0.0 }, r.1)}
        (Returns-bind
          (vec16-Takes (column_description B) _
            (IsCanonical-Takes (column_description B) _ _ column_description-IsCanonical) B bs b)
          λ columns t. holds t)
        λ v t. holds t

  pub data_row_body-Takes : Takes (data_row_body B).wire RowReads
  unfolding data_row_body serde_libpq_data deserialize_fields
  data_row_body-Takes bs b =
      Returns-bind {P = λ r. Taken RowReads bs (record { columns = r.0.0 }, r.1)}
        (Returns-bind
          (vec16-Takes (vec32 B (byte B)) _
            (vec32-Takes (byte B) _ (IsCanonical-Takes (byte B) _ _ (byte-IsCanonical B)) B) B bs b)
          λ columns t. holds t)
        λ v t. holds t
