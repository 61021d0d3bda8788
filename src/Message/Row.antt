-- ===== src/Message/Row.antt =====
-- src/message.rs: `RowDescription`, `ColumnDescription`, `PgType` and `DataRow`.
use fakepostmaster.Prelude.{ℕ, List}
use fakepostmaster.Int.{ℤ, pos, negsuc}
use fakepostmaster.Outcome.{Outcome, ok, ◌>>=◌, impossible_from_backend}
use fakepostmaster.Buffer.{BytesCrate}
use fakepostmaster.Wire.{Wire}
use fakepostmaster.Types.Scalar.{i16, i32, byte}
use fakepostmaster.Types.Text.{cstring, cstring_new}
use fakepostmaster.Types.Vectors.{Vec16, Vec32, into_vec16}
use fakepostmaster.Types.Counted.{vec16, vec32}
use fakepostmaster.Derive.{Fields, no_fields, field, serde_libpq_data, try_from_raw_message}
use fakepostmaster.Message.Header.{MessageBody, message_body}
use fakepostmaster.Message.Raw.{RawBackendMessage}

pub data PgType : Type 0 where
  bool int4 text oid : PgType

unfoldable pub pg_type_id : PgType → ℤ
pg_type_id bool = pos 16
pg_type_id int4 = pos 23
pg_type_id text = pos 25
pg_type_id oid = pos 26

unfoldable pub typlen : PgType → ℤ
typlen bool = pos 1
typlen int4 = pos 4
typlen text = negsuc 0
typlen oid = pos 4

unfoldable pub typmod : PgType → ℤ
typmod bool = negsuc 0
typmod int4 = negsuc 0
typmod text = negsuc 0
typmod oid = negsuc 0

unfoldable pub format : PgType → ℤ
format bool = pos 0
format int4 = pos 0
format text = pos 1
format oid = pos 0

pub record ColumnDescription : Type 0 where
  pub name : List ℕ
  pub relation_id : ℤ
  pub attribute_id : ℤ
  pub datatype_id : ℤ
  pub datatype_len : ℤ
  pub datatype_mod : ℤ
  pub format : ℤ

unfoldable pub new_column_description : List ℕ → PgType → Outcome ColumnDescription
unfolding pg_type_id typlen typmod format
new_column_description name pgtype = do
  n ← cstring_new name
  ok (record {
    name = n;
    relation_id = pos 0;
    attribute_id = pos 0;
    datatype_id = pg_type_id pgtype;
    datatype_len = typlen pgtype;
    datatype_mod = typmod pgtype;
    format = format pgtype;
  })

pub record RowDescription : Type 0 where
  pub columns : Vec16 ColumnDescription

abbrev pub ColumnData : Type 0
ColumnData = Vec32 ℕ

pub record DataRow : Type 0 where
  pub columns : Vec16 ColumnData

abbrev pub new_row_description : List ColumnDescription → RowDescription
new_row_description columns = record { columns = into_vec16 columns }

abbrev pub new_data_row : List ColumnData → DataRow
new_data_row columns = record { columns = into_vec16 columns }

module _ (B : BytesCrate) where
  abbrev pub column_fields : Fields
  column_fields = field (List ℕ) (cstring B) (
      field ℤ (i32 B) (
        field ℤ (i16 B)
          (field ℤ (i32 B) (field ℤ (i16 B) (field ℤ (i32 B) (field ℤ (i16 B) no_fields))))))

  unfoldable pub column_description : Wire ColumnDescription
  unfolding serde_libpq_data
  column_description =
      serde_libpq_data column_fields
        (λ c. (
          c.name,
          (
            c.relation_id,
            (c.attribute_id, (c.datatype_id, (c.datatype_len, (c.datatype_mod, (c.format, tt))))),
          ),
        ))
        (λ v. record {
          name = v.0;
          relation_id = v.1.0;
          attribute_id = v.1.1.0;
          datatype_id = v.1.1.1.0;
          datatype_len = v.1.1.1.1.0;
          datatype_mod = v.1.1.1.1.1.0;
          format = v.1.1.1.1.1.1.0;
        })

  abbrev pub description_fields : Fields
  description_fields = field (Vec16 ColumnDescription) (vec16 B column_description) no_fields

  abbrev pub data_fields : Fields
  data_fields = field (Vec16 ColumnData) (vec16 B (vec32 B (byte B))) no_fields

  unfoldable pub row_description_body : MessageBody RowDescription
  unfolding message_body serde_libpq_data
  row_description_body =
      message_body b'T'
        (serde_libpq_data description_fields (λ m. (m.columns, tt)) (λ v. record { columns = v.0 }))

  unfoldable pub data_row_body : MessageBody DataRow
  unfolding message_body serde_libpq_data
  data_row_body =
      message_body b'D'
        (serde_libpq_data data_fields (λ m. (m.columns, tt)) (λ v. record { columns = v.0 }))

  unfoldable pub try_row_description : RawBackendMessage → Outcome (RowDescription × List ℕ)
  unfolding try_from_raw_message
  try_row_description m =
      try_from_raw_message impossible_from_backend b'T' (row_description_body).wire
        m.header.message_type m.raw_body

  unfoldable pub try_data_row : RawBackendMessage → Outcome (DataRow × List ℕ)
  unfolding try_from_raw_message
  try_data_row m =
      try_from_raw_message impossible_from_backend b'D' (data_row_body).wire m.header.message_type
        m.raw_body
