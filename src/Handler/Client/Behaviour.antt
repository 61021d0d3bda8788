-- ===== src/Handler/Client/Behaviour.antt =====
-- The client's handlers at any socket.
use fakepostmaster.Prelude.{Bool, ℕ, suc, ◌<◌, ◌≡◌, length, arith}
use fakepostmaster.Message.Raw.{RawBackendMessage}
use fakepostmaster.Exec.Ends.{Ends}
use fakepostmaster.Buffer.{BytesCrate}
use fakepostmaster.Md5.{Md5Crate}
use fakepostmaster.Handler.Connection.{TcpHandler}
use fakepostmaster.Handler.Io.Progress.{Progress}
use fakepostmaster.Handler.Client.{
  skip_parameters, md5_authentication_handler, simple_query_handler,
}
use fakepostmaster.Handler.Client.Ends.{
  client_authentication-Ends, simple_query_handler-Ends, skip_parameters-Ends, skip_parameters-fuel,
}
use fakepostmaster.Handler.Client.Keeps.{
  md5_authentication_handler-Keeps, simple_query_handler-Keeps,
}

module _ (B : BytesCrate) (D : Md5Crate) (debug : Bool) where
  -- Whatever the server sends and the socket answers, both handlers end, and keep their connection in
  -- order, however they end: what is left to read is an end of what there was, the server has been sent
  -- what it had been sent and more, and the writer's buffer is within its capacity if it was before.
  -- The loop over the parameters ends for any first message, with or without DEBUG events, with any
  -- fuel above the number of bytes that are left, and does the same with all of it.
  pub client_handlers-Progress :
      (h : TcpHandler) (f : ℕ) (m : RawBackendMessage)
      → length h.tcp_reader < f
      → (Ends (md5_authentication_handler B D debug h).0
          × Progress h (md5_authentication_handler B D debug h).1)
        × (Ends (simple_query_handler B h).0 × Progress h (simple_query_handler B h).1)
        × (Ends (skip_parameters B debug f m h).0
            × (skip_parameters B debug f m h
                ≡ skip_parameters B debug (suc (length h.tcp_reader)) m h))
  client_handlers-Progress h f m l = (
    (client_authentication-Ends B D debug h, (md5_authentication_handler-Keeps B D debug).at h),
    (simple_query_handler-Ends B h, (simple_query_handler-Keeps B).at h),
    (
      skip_parameters-Ends B debug f m h l,
      skip_parameters-fuel B debug f (suc (length h.tcp_reader)) m h l (omega arith),
    ),
  )
