-- ===== src/Examples/Executor/Laws.antt =====
-- What the executor of examples/server.rs returns can be sent.
use fakepostmaster.Prelude.{ℕ, ◌≡◌, refl, List, [], ◌∷◌, ◌++◌, codes, arith}
use fakepostmaster.Int.{pos, negsuc}
use fakepostmaster.Outcome.{ok}
use fakepostmaster.Buffer.{BytesCrate}
use fakepostmaster.Types.Text.{cstring_new}
use fakepostmaster.Types.Text.Laws.{cstring-IsSized}
use fakepostmaster.Message.Row.{ColumnDescription, new_column_description}
use fakepostmaster.Handler.Server.{Executed}
use fakepostmaster.Handler.Server.Serving.{IsServing}
use fakepostmaster.Examples.Executor.{executor}

abbrev custom_field : ColumnDescription
custom_field = record {
  name = codes "Custom Field";
  relation_id = pos 0;
  attribute_id = pos 0;
  datatype_id = pos 25;
  datatype_len = negsuc 0;
  datatype_mod = negsuc 0;
  format = pos 1;
}

-- One text column, and one row of it: the text and the zero byte that `CString` writes behind it.
abbrev pub my_data : Executed
my_data = (custom_field ∷ [], (codes "my data" ++ 0 ∷ []) ∷ [], codes "SELECT 0")

module _ (B : BytesCrate) where
  pub executor-my_data : (query : List ℕ) → executor B query ≡ ok my_data
  unfolding executor new_column_description cstring_new
  executor-my_data query = rw ((cstring-IsSized B).serialize_appends (codes "my data") []) refl

  pub executor-IsServing : IsServing B (executor B)
  executor-IsServing query = (my_data, executor-my_data query, omega arith)
