-- ===== src/Message/Reliable/Rows.antt =====
-- The messages that describe and carry rows are reliable.
use fakepostmaster.Prelude.{ℕ, refl, List, arith}
use fakepostmaster.Buffer.{BytesCrate}
use fakepostmaster.Wire.Lawful.{ReadsBack}
use fakepostmaster.Derive.{Values}
use fakepostmaster.Derive.Laws.{
  Format, Formats, IsValidStruct, encode_struct, ReadFields-ReadFieldsWhole,
  serde_libpq_data-IsSized, serde_libpq_data-ReadsBack,
}
use fakepostmaster.Types.Formats.{
  i16_format, i32_format, byte_format, cstring_format, vec16_format, vec32_format,
}
use fakepostmaster.Types.Scalar.Laws.{i16-ReadsBack, i32-ReadsBack, byte-ReadsBack, byte-IsSized}
use fakepostmaster.Types.Text.Laws.{cstring-ReadsBack}
use fakepostmaster.Types.Counted.Laws.{vec16-ReadsBack, vec32-ReadsBack, vec32-IsSized}
use fakepostmaster.Wire.Lawful.{IsSized}
use fakepostmaster.Message.Reliable.{IsReliable, derived-IsReliable}
use fakepostmaster.Message.Row.{
  ColumnDescription, RowDescription, DataRow, column_fields, column_description, description_fields,
  data_fields, row_description_body, data_row_body,
}

module _ (B : BytesCrate) where
  abbrev pub column_formats : Formats (column_fields B)
  column_formats = (
    cstring_format B,
    (
      i32_format B,
      (i16_format B, (i32_format B, (i16_format B, (i32_format B, (i16_format B, tt))))),
    ),
  )

  abbrev pub column_values : ColumnDescription → Values (column_fields B)
  column_values c = (
    c.name,
    (
      c.relation_id,
      (c.attribute_id, (c.datatype_id, (c.datatype_len, (c.datatype_mod, (c.format, tt))))),
    ),
  )

  abbrev pub column_from : Values (column_fields B) → ColumnDescription
  column_from v = record {
    name = v.0;
    relation_id = v.1.0;
    attribute_id = v.1.1.0;
    datatype_id = v.1.1.1.0;
    datatype_len = v.1.1.1.1.0;
    datatype_mod = v.1.1.1.1.1.0;
    format = v.1.1.1.1.1.1.0;
  }

  abbrev pub IsColumnDescription : ColumnDescription → Type 0
  IsColumnDescription = IsValidStruct (column_fields B) column_formats column_values

  abbrev pub column_encode : ColumnDescription → List ℕ
  column_encode = encode_struct (column_fields B) column_formats column_values

  pub column_description-IsSized :
      IsSized (column_description B) IsColumnDescription column_encode 19
  unfolding column_description
  column_description-IsSized =
      serde_libpq_data-IsSized (column_fields B) column_formats column_values column_from

  pub column_description-ReadsBack :
      ReadsBack (column_description B) IsColumnDescription column_encode
  unfolding column_description
  column_description-ReadsBack =
      serde_libpq_data-ReadsBack (column_fields B) column_formats column_values column_from
        (λ s. refl)
        (
          cstring-ReadsBack B,
          (
            i32-ReadsBack B,
            (
              i16-ReadsBack B,
              (i32-ReadsBack B, (i16-ReadsBack B, (i32-ReadsBack B, (i16-ReadsBack B, tt)))),
            ),
          ),
        )

  abbrev pub column_format : Format (column_description B)
  column_format = record {
    IsValid = IsColumnDescription;
    encode = column_encode;
    least = 19;
    sized = column_description-IsSized;
  }

  abbrev pub description_formats : Formats (description_fields B)
  description_formats = (vec16_format B column_format, tt)

  abbrev pub description_values : RowDescription → Values (description_fields B)
  description_values m = (m.columns, tt)

  abbrev pub IsRowDescription : RowDescription → Type 0
  IsRowDescription = IsValidStruct (description_fields B) description_formats description_values

  abbrev pub row_description_encode : RowDescription → List ℕ
  row_description_encode =
      encode_struct (description_fields B) description_formats description_values

  pub row_description_body-IsReliable :
      IsReliable (row_description_body B) b'T' IsRowDescription row_description_encode
  unfolding row_description_body
  row_description_body-IsReliable =
      derived-IsReliable b'T' (description_fields B) description_formats description_values
        (λ v. record { columns = v.0 }) (omega arith) (λ s. refl)
        (ReadFields-ReadFieldsWhole (description_fields B) description_formats (
          vec16-ReadsBack B (column_description B) column_description-IsSized
              column_description-ReadsBack,
          tt,
        ))

  abbrev pub data_formats : Formats (data_fields B)
  data_formats = (vec16_format B (vec32_format B (byte_format B)), tt)

  abbrev pub data_values : DataRow → Values (data_fields B)
  data_values m = (m.columns, tt)

  abbrev pub IsDataRow : DataRow → Type 0
  IsDataRow = IsValidStruct (data_fields B) data_formats data_values

  abbrev pub data_row_encode : DataRow → List ℕ
  data_row_encode = encode_struct (data_fields B) data_formats data_values

  pub data_row_body-IsReliable : IsReliable (data_row_body B) b'D' IsDataRow data_row_encode
  unfolding data_row_body
  data_row_body-IsReliable =
      derived-IsReliable b'D' (data_fields B) data_formats data_values
        (λ v. record { columns = v.0 }) (omega arith) (λ s. refl)
        (ReadFields-ReadFieldsWhole (data_fields B) data_formats (
          vec16-ReadsBack B _ (vec32-IsSized B _ (byte-IsSized B))
              (vec32-ReadsBack B _ (byte-IsSized B) (byte-ReadsBack B)),
          tt,
        ))
