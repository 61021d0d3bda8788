-- ===== src/Message/Column.antt =====
-- The columns that `ColumnDescription::new` makes.
use fakepostmaster.Prelude.{ℕ, ◌≡◌, refl, List, arith}
use fakepostmaster.Int.{pos}
use fakepostmaster.Outcome.{ok}
use fakepostmaster.Buffer.{BytesCrate}
use fakepostmaster.Types.Text.Laws.{IsText, cstring_new-IsText}
use fakepostmaster.Message.Row.{
  PgType, bool, int4, text, oid, ColumnDescription, pg_type_id, typlen, typmod, format,
  new_column_description,
}
use fakepostmaster.Message.Reliable.Rows.{IsColumnDescription}

abbrev column_of : List ℕ → PgType → ColumnDescription
column_of name t = record {
  name = name;
  relation_id = pos 0;
  attribute_id = pos 0;
  datatype_id = pg_type_id t;
  datatype_len = typlen t;
  datatype_mod = typmod t;
  format = format t;
}

module _ (B : BytesCrate) where
  column_of-IsColumnDescription :
      (name : List ℕ) (t : PgType) → IsText name → IsColumnDescription B (column_of name t)
  unfolding pg_type_id typlen typmod format
  column_of-IsColumnDescription name bool h = (h, omega arith)
  column_of-IsColumnDescription name int4 h = (h, omega arith)
  column_of-IsColumnDescription name text h = (h, omega arith)
  column_of-IsColumnDescription name oid h = (h, omega arith)

  -- For a name without a zero byte and any type, `ColumnDescription::new` makes a column of that name
  -- and of the type's identifier, and the column is valid: all its numbers fit their fields.
  new_column_description_lem :
      (name : List ℕ) (t : PgType)
      → IsText name
      → (c : ColumnDescription) × (new_column_description name t ≡ ok c)
        × (c.name ≡ name)
        × (c.datatype_id ≡ pg_type_id t)
        × IsColumnDescription B c
  unfolding new_column_description
  new_column_description_lem name t h = (
    column_of name t,
    rw (cstring_new-IsText name h),
    refl,
    refl,
    column_of-IsColumnDescription name t h,
  )
