-- ===== src/Examples/Conversation.antt =====
-- The two example programs with each other.
use fakepostmaster.Prelude.{true, ◌≡◌, refl, Option, some, List, [], ◌∷◌, ◌++◌, append-nil}
use fakepostmaster.Outcome.{ok, err, unexpected_eof, expected_backend_key_data}
use fakepostmaster.Buffer.{BytesCrate}
use fakepostmaster.Md5.{Md5Crate}
use fakepostmaster.Handler.Connection.{TcpStream, new_handler}
use fakepostmaster.Handler.Server.{salt}
use fakepostmaster.Handler.Server.Transcript.{connection, challenge, welcome, server_version, ready}
use fakepostmaster.Handler.Client.Session.{client_frames}
use fakepostmaster.Handler.Client.Login.{md5_authentication_handler_mismatch}
use fakepostmaster.Examples.Executor.{auth_func, executor}
use fakepostmaster.Examples.Server
use fakepostmaster.Examples.Server.{answer_queries}
use fakepostmaster.Examples.Server.Answers.{eof}
use fakepostmaster.Examples.Client
use fakepostmaster.Examples.Client.Session.{open_stream, drop-settled}

module _ (B : BytesCrate) (D : Md5Crate) where
  server_takes :
      Server.session B auth_func (executor B) (connection (client_frames B D salt) [])
      ≡ (err unexpected_eof, connection [] (challenge ++ welcome ++ server_version ++ ready))
  unfolding Server.session answer_queries auth_func
  server_takes =
      rw
        (← append-nil (client_frames B D salt), (md5_authentication_handler_mismatch B D true []).0)
        (rw (eof B (executor B) (challenge ++ welcome ++ server_version ++ ready)) refl)

  -- Over sockets that take what they are given, the two programs do not get on. The client sends its
  -- startup message and its password, and fails for want of the key data, before its query. The
  -- server accepts it, and ends with an error when the client closes; whoever connects next is not
  -- served. Each side is given what the other one sends.
  pub main-main :
      (incoming : List (Option TcpStream))
      → (Server.main B (ok (some (open_stream (client_frames B D salt)) ∷ incoming)) []
          ≡ (err unexpected_eof, (challenge ++ welcome ++ server_version ++ ready) ∷ []))
        × (Client.main B D (ok (open_stream (challenge ++ welcome ++ server_version ++ ready)))
            ≡ (err expected_backend_key_data, client_frames B D salt))
  unfolding Server.main Server.accept_streams Server.serve Client.main Client.session new_handler
  main-main incoming = (
    rw (server_takes, drop-settled [] (challenge ++ welcome ++ server_version ++ ready)) refl,
    rw
        (
          (md5_authentication_handler_mismatch B D true []).1,
          drop-settled [] (client_frames B D salt),
        )
        refl,
  )
