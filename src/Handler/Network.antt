-- ===== src/Handler/Network.antt =====
-- Two ends of a connection and the bytes between them, which arrive in order, and in pieces of any
-- size at any time. An end that has read all that has arrived waits for more; in the model it fails at
-- the end of its input there, and what it has sent by then is the same.
pub mod Laws
pub mod Query
use fakepostmaster.Prelude.{ℕ, ◌≡◌, List, [], ◌++◌}
use fakepostmaster.Exec.{Exec}
use fakepostmaster.Stream.Writer.Keeps.{Grows}
use fakepostmaster.Handler.Connection.{TcpHandler}
use fakepostmaster.Handler.Server.Transcript.{connection}

-- What an end has sent once `input` has arrived.
abbrev pub sends : {A : Type 0} → Exec TcpHandler A → List ℕ → List ℕ
sends side input = (side (connection input [])).1.tcp_writer.sent

-- What has arrived at each end.
pub record Arrived : Type 0 where
  pub at_server : List ℕ
  pub at_client : List ℕ

module _ {A C : Type 0} (server : Exec TcpHandler A) (client : Exec TcpHandler C) where
  -- Some of the bytes that have been sent to an end, and are still on their way, arrive.
  pub data Step : Arrived → Arrived → Type 0 where
    to_server :
        (a : Arrived) (more : List ℕ)
        → Grows (a.at_server ++ more) (sends client a.at_client)
        → Step a (record a { at_server = a.at_server ++ more })
    to_client :
        (a : Arrived) (more : List ℕ)
        → Grows (a.at_client ++ more) (sends server a.at_server)
        → Step a (record a { at_client = a.at_client ++ more })

  pub data Steps (a : Arrived) : Arrived → Type 0 where
    stay : Steps a a
    go : {b c : Arrived} → Steps a b → Step b c → Steps a c

  abbrev pub Reached : Arrived → Type 0
  Reached = Steps (record { at_server = []; at_client = [] })

  -- Nothing is on its way.
  abbrev pub IsQuiet : Arrived → Type 0
  IsQuiet a = (a.at_server ≡ sends client a.at_client) × (a.at_client ≡ sends server a.at_server)
