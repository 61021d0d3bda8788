-- ===== src/Examples/Client.antt =====
-- examples/client.rs: `main`.
pub mod Session
use fakepostmaster.Prelude.{true, List, [], ℕ}
use fakepostmaster.Outcome.{Outcome, ok, err, panicked, out_of_fuel}
use fakepostmaster.Exec.{Exec, ◌>>=◌, ◌>>◌}
use fakepostmaster.Buffer.{BytesCrate}
use fakepostmaster.Md5.{Md5Crate}
use fakepostmaster.Handler.Connection.{TcpStream, TcpHandler, new_handler, drop_handler}
use fakepostmaster.Handler.Client.{md5_authentication_handler, simple_query_handler}

module _ (B : BytesCrate) (D : Md5Crate) where
  -- `main` has DEBUG events enabled.
  unfoldable pub session : Exec TcpHandler (Unit {0})
  session = do md5_authentication_handler B D true; simple_query_handler B

  -- With what the server has been sent; `stream` is what `TcpStream::connect` returns.
  unfoldable pub main : Outcome TcpStream → Outcome (Unit {0}) × List ℕ
  unfolding session
  main (ok stream) = elim (new_handler stream) [
    | ok handler ↦ let (r, h) = session handler in (r, (drop_handler h).tcp_writer.sent)
    | err e ↦ (err e, [])
    | panicked p ↦ (panicked p, [])
    | out_of_fuel ↦ (out_of_fuel, [])
  ]
  main (err e) = (ok tt, [])
  main (panicked p) = (panicked p, [])
  main out_of_fuel = (out_of_fuel, [])
