-- ===== src/Runs/Data.antt =====
-- What the runs have in common.
use fakepostmaster.Prelude.{List, [], ◌∷◌, ℕ, codes}
use fakepostmaster.Int.{pos, negsuc}
use fakepostmaster.Message.Row.{ColumnDescription}

abbrev pub a_column : ColumnDescription
a_column = record {
  name = codes "a";
  relation_id = pos 0;
  attribute_id = pos 0;
  datatype_id = pos 23;
  datatype_len = pos 4;
  datatype_mod = negsuc 0;
  format = pos 0;
}

-- A column, a row and a tag, for every query.
abbrev pub one_row : List ColumnDescription × List (List ℕ) × List ℕ
one_row = (a_column ∷ [], codes "1" ∷ [], codes "SELECT 1")
