-- ===== src/Examples/Server.antt =====
-- examples/server.rs: `main`, and what it does with a connection.
pub mod Protocol
pub mod Refinement
pub mod Asked
pub mod Answers
pub mod Process
use fakepostmaster.Prelude.{ℕ, zero, suc, Bool, Option, none, some, List, [], ◌∷◌, ◌++◌, length}
use fakepostmaster.Outcome.{Outcome, ok, err, panicked, out_of_fuel, expect}
use fakepostmaster.Exec.{Exec, ◌>>=◌, ◌>>◌, pure, lift}
use fakepostmaster.Buffer.{BytesCrate}
use fakepostmaster.Handler.Connection.{TcpStream, TcpHandler, new_handler, drop_handler}
use fakepostmaster.Handler.Server.{Executor, md5_authentication_handler, simple_query_handler}
use fakepostmaster.Examples.Executor.{auth_func, executor}

module _ (B : BytesCrate) where
  -- `loop { handler.simple_query_handler(&executor)?; }`, a unit of fuel for each round. The loop is
  -- left by `?` only.
  unfoldable pub answer_queries : Executor → ℕ → Exec TcpHandler (Unit {0})
  answer_queries execute zero h = (out_of_fuel, h)
  answer_queries execute (suc f) h = (simple_query_handler B execute >> answer_queries execute f) h

  module _ (auth : Unit {0} → Bool) (execute : Executor) where
    -- What is done with a connection.
    unfoldable pub session : Exec TcpHandler (Unit {0})
    unfolding answer_queries
    session = do
      connection_parameters ← md5_authentication_handler B auth
      λ h. answer_queries execute (suc (length h.tcp_reader)) h

    -- The state is what each client that was accepted has been sent.
    unfoldable pub serve : TcpStream → Exec (List (List ℕ)) (Unit {0})
    unfolding session
    serve stream served = elim (new_handler stream) [
      | ok handler ↦
          let (r, h) = session handler in (r, served ++ (drop_handler h).tcp_writer.sent ∷ [])
      | err e ↦ (err e, served)
      | panicked p ↦ (panicked p, served)
      | out_of_fuel ↦ (out_of_fuel, served)
    ]

    -- `for stream in listener.incoming()`: `none` is a connection that could not be accepted.
    unfoldable pub accept_streams : List (Option TcpStream) → Exec (List (List ℕ)) (Unit {0})
    accept_streams [] = pure tt
    accept_streams (some stream ∷ incoming) = serve stream >> accept_streams incoming
    accept_streams (none ∷ incoming) = accept_streams incoming

  -- `listener` is what `TcpListener::bind` returns.
  unfoldable pub main : Outcome (List (Option TcpStream)) → Exec (List (List ℕ)) (Unit {0})
  unfolding accept_streams
  main listener = lift (expect listener) >>= accept_streams auth_func (executor B)
