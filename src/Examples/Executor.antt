-- ===== src/Examples/Executor.antt =====
-- examples/server.rs: the functions that `main` gives to the handlers.
pub mod Laws
use fakepostmaster.Prelude.{ℕ, Bool, true, List, [], ◌∷◌, codes}
use fakepostmaster.Outcome.{Outcome, ok, expect, ◌>>=◌}
use fakepostmaster.Buffer.{BytesCrate}
use fakepostmaster.Types.Vectors.{into_vec32}
use fakepostmaster.Types.Text.{cstring, cstring_new}
use fakepostmaster.Message.Row.{text, new_column_description}
use fakepostmaster.Handler.Server.{Executed}

unfoldable pub auth_func : Unit {0} → Bool
auth_func _ = true

module _ (B : BytesCrate) where
  -- The query is not looked at.
  unfoldable pub executor : List ℕ → Outcome Executed
  unfolding new_column_description cstring cstring_new
  executor query = do
    column ← expect (new_column_description (codes "Custom Field") text)
    let row_description = column ∷ []
    col_data ← expect (cstring_new (codes "my data"))
    let buffer = (cstring B).serialize col_data []
    let col_data = into_vec32 buffer
    let row_data = col_data ∷ []
    ok (row_description, row_data, codes "SELECT 0")
