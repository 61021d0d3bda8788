-- ===== src/Handler/Connection.antt =====
-- src/handler/server.rs and src/handler/client.rs: `TcpHandler`, the same struct in both.

use fakepostmaster.Prelude.{Bool, List, [], ℕ, if◌then◌else◌}
use fakepostmaster.Outcome.{Outcome, ok, err, expect, clone_error, ◌>>=◌}
use fakepostmaster.Exec.{Exec}
use fakepostmaster.Stream.Reader.{BufReader}
use fakepostmaster.Stream.Writer.{BufWriter, Answer, flush}

-- A `TcpStream`: what will arrive, what the socket answers to what is written, and whether its handle
-- can be cloned.
pub record TcpStream : Type 0 where
  pub arriving : List ℕ
  pub answers : List Answer
  pub can_clone : Bool

pub record TcpHandler : Type 0 where
  pub tcp_reader : BufReader
  pub tcp_writer : BufWriter

-- `stream.try_clone()`: both handles are of one socket.
abbrev try_clone : TcpStream → Outcome TcpStream
try_clone stream = if stream.can_clone then ok stream else err clone_error

-- `TcpHandler::new`.
unfoldable pub new_handler : TcpStream → Outcome TcpHandler
new_handler stream = do
  clone ← expect (try_clone stream)
  ok (record {
    tcp_reader = clone.arriving;
    tcp_writer = record { buf = []; sent = []; answers = stream.answers };
  })

-- An action of `self.tcp_reader`, and one of `self.tcp_writer`.
abbrev pub reading {ℓ} : {A : Type ℓ} → Exec BufReader A → Exec TcpHandler A
reading r h = ((r h.tcp_reader).0, record h { tcp_reader = (r h.tcp_reader).1 })

abbrev pub writing {ℓ} : {A : Type ℓ} → Exec BufWriter A → Exec TcpHandler A
writing w h = ((w h.tcp_writer).0, record h { tcp_writer = (w h.tcp_writer).1 })

-- Dropping a `BufWriter` flushes it, and an error is lost.
unfoldable pub drop_handler : TcpHandler → TcpHandler
drop_handler h = (writing flush h).1
