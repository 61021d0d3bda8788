-- ===== src/Handler/Server/Keeps.antt =====
-- What sending a row keeps of the connection.
use fakepostmaster.Prelude.{List, ℕ}
use fakepostmaster.Exec.Keeps.{Keeps}
use fakepostmaster.Buffer.{BytesCrate}
use fakepostmaster.Handler.Io.Progress.{Progress, Progress-IsPreorder, handler_rules}
use fakepostmaster.Handler.Server.{put_row}

module _ (B : BytesCrate) where
  pub put_row-Keeps : (row : List (List ℕ)) → Keeps Progress (put_row B row)
  unfolding put_row
  put_row-Keeps row = search handler_rules depth 20
