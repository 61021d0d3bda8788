-- ===== src/Examples/Server/Process.antt =====
-- The process of examples/server.rs, at any sockets.
use fakepostmaster.Prelude.{
  ℕ, zero, suc, ◌+◌, ◌≤◌, ◌<◌, ◌≡◌, refl, Bool, Option, none, some, List, [], ◌∷◌, length,
  length-append, arith, Bool-cases, inl, inr,
}
use fakepostmaster.Outcome.{Outcome, ok, err, panicked, out_of_fuel}
use fakepostmaster.Exec.{Exec, continue}
use fakepostmaster.Exec.Ends.{Ends, Consumes}
use fakepostmaster.Exec.Laws.{IsFailure}
use fakepostmaster.Buffer.{BytesCrate}
use fakepostmaster.Handler.Connection.{TcpStream, TcpHandler, new_handler}
use fakepostmaster.Handler.Server.{Executor}
use fakepostmaster.Handler.Server.Ends.{server_authentication-Ends}
use fakepostmaster.Handler.Server.Behaviour.{simple_query_handler-Consumes}
use fakepostmaster.Examples.Executor.{auth_func, executor}
use fakepostmaster.Examples.Executor.Laws.{executor-my_data}
use fakepostmaster.Examples.Server.{answer_queries, session, serve, accept_streams, main}

-- A round that has taken bytes, and a rest that fails when there is less to read.
failing_rest :
    {A C : Type 0} (k : ℕ) (input : List ℕ) (r : Outcome A) (f : A → Exec TcpHandler C)
    (h : TcpHandler)
    → Consumes k input r h.tcp_reader
    → (length h.tcp_reader + k ≤ length input → (a : A) → IsFailure (f a h).0)
    → IsFailure (continue r f h).0
failing_rest k input (ok a) f h c g = g c a
failing_rest k input (err e) f h c g = tt
failing_rest k input (panicked p) f h c g = tt
failing_rest k input out_of_fuel f h c g = c

ending_rest :
    {A C : Type 0} (r : Outcome A) (f : A → Exec TcpHandler C) (h : TcpHandler)
    → Ends r
    → ((a : A) → IsFailure (f a h).0)
    → IsFailure (continue r f h).0
ending_rest (ok a) f h e g = g a
ending_rest (err x) f h e g = tt
ending_rest (panicked p) f h e g = tt
ending_rest out_of_fuel f h e g = e

-- Nothing comes after a failure.
failure_ends :
    {S A : Type 0} (r : Outcome A) (f : A → Exec S A) (s : S)
    → IsFailure r
    → continue r f s ≡ (r, s)
failure_ends (ok a) f s h = absurd h
failure_ends (err e) f s h = refl
failure_ends (panicked p) f s h = refl
failure_ends out_of_fuel f s h = absurd h

-- Connections that could not be accepted, in front of others.
abbrev pub not_accepted : ℕ → List (Option TcpStream) → List (Option TcpStream)
not_accepted zero incoming = incoming
not_accepted (suc n) incoming = none ∷ not_accepted n incoming

module _ (B : BytesCrate) where
  executor-Ends : (query : List ℕ) → Ends (executor B query)
  executor-Ends query = rw (executor-my_data B query) tt

  module _ (execute : Executor) (returns : (query : List ℕ) → Ends (execute query)) where
    answer_queries-IsFailure :
        (f : ℕ) (h : TcpHandler)
        → length h.tcp_reader < f
        → IsFailure (answer_queries B execute f h).0
    unfolding answer_queries
    answer_queries-IsFailure zero h l = absurd (omega arith)
    answer_queries-IsFailure (suc f) h l =
        failing_rest 5 h.tcp_reader _ _ _ (simple_query_handler-Consumes B execute h returns)
          (λ taken u. answer_queries-IsFailure f _ (omega arith))

    all_queries-IsFailure :
        (h : TcpHandler) → IsFailure (answer_queries B execute (suc (length h.tcp_reader)) h).0
    all_queries-IsFailure h = answer_queries-IsFailure (suc (length h.tcp_reader)) h (omega arith)

    session-IsFailure :
        (auth : Unit {0} → Bool) (h : TcpHandler) → IsFailure (session B auth execute h).0
    unfolding session
    session-IsFailure auth h =
        ending_rest _ _ _ (server_authentication-Ends B auth h)
          (λ parameters. all_queries-IsFailure _)

    serve-IsFailure :
        (auth : Unit {0} → Bool) (stream : TcpStream) (served : List (List ℕ))
        → IsFailure (serve B auth execute stream served).0
    unfolding serve new_handler
    serve-IsFailure auth stream served = elim (Bool-cases stream.can_clone) [
      | inl yes' ↦ rw yes' (session-IsFailure auth _)
      | inr no' ↦ rw no' tt
    ]

    length-serve :
        (auth : Unit {0} → Bool) (stream : TcpStream) (served : List (List ℕ))
        → length (serve B auth execute stream served).1 ≤ length served + 1
    unfolding serve new_handler
    length-serve auth stream served = elim (Bool-cases stream.can_clone) [
      | inl yes' ↦ rw yes' (omega (arith, length-append served (_ ∷ [])))
      | inr no' ↦ rw no' (omega arith)
    ]

    -- The first connection that is accepted is the last.
    accept_streams-one :
        (auth : Unit {0} → Bool) (failed : ℕ) (stream : TcpStream)
        (incoming : List (Option TcpStream)) (served : List (List ℕ))
        → accept_streams B auth execute (not_accepted failed (some stream ∷ incoming)) served
          ≡ serve B auth execute stream served
    unfolding accept_streams
    accept_streams-one auth zero stream incoming served =
        failure_ends (serve B auth execute stream served).0 _ _ (serve-IsFailure auth stream served)
    accept_streams-one auth (suc failed) stream incoming served =
        accept_streams-one auth failed stream incoming served

  -- Whatever the sockets of the process do, `main` ends with an error or a panic at the end of the
  -- first connection that is accepted: what has been sent is what `serve` does for this connection
  -- alone, and the connections behind it are not served.
  pub main-one :
      (failed : ℕ) (stream : TcpStream) (incoming : List (Option TcpStream))
      → (main B (ok (not_accepted failed (some stream ∷ incoming))) []
          ≡ serve B auth_func (executor B) stream [])
        × IsFailure (serve B auth_func (executor B) stream []).0
        × (length (serve B auth_func (executor B) stream []).1 ≤ 1)
  unfolding main
  main-one failed stream incoming = (
    accept_streams-one (executor B) executor-Ends auth_func failed stream incoming [],
    serve-IsFailure (executor B) executor-Ends auth_func stream [],
    length-serve (executor B) executor-Ends auth_func stream [],
  )
