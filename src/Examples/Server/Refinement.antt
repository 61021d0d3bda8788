-- ===== src/Examples/Server/Refinement.antt =====
-- A connection of examples/server.rs follows the protocol.
use fakepostmaster.Prelude.{
  ℕ, zero, suc, ◌<◌, ◌≡◌, Bool, List, [], ◌∷◌, ◌++◌, append_assoc, append-nil, length, arith,
}
use fakepostmaster.Outcome.{Outcome, err, auth_failed}
use fakepostmaster.Exec.{continue}
use fakepostmaster.Exec.Laws.{IsFailure, failure_cases}
use fakepostmaster.Buffer.{BytesCrate}
use fakepostmaster.Message.Backend.{ParameterStatus}
use fakepostmaster.Handler.Connection.{TcpHandler}
use fakepostmaster.Handler.Server.{Executor}
use fakepostmaster.Handler.Server.Transcript.{connection, challenge, welcome, server_version, ready}
use fakepostmaster.Handler.Server.Safety.{
  Ending, no_startup, no_password, welcomed, turned_away, md5_authentication_handler-Ending,
}
use fakepostmaster.Handler.Server.Serving.{
  IsServing, Served, not_served, served, simple_query_handler-Served,
}
use fakepostmaster.Examples.Server.{answer_queries, session}
use fakepostmaster.Examples.Server.Protocol.{
  Phase, opened, closed, serving, Event, event_bytes, Step, challenged, transcript, Run, stop, step,
  History, Run-History, challenge_client, welcome_client, refuse_client, answer_query,
}

append_three : (t a b c : List ℕ) → t ++ a ++ b ++ c ≡ t ++ (a ++ b ++ c)
append_three t a b c = rw (← append_assoc t (a ++ b) c, ← append_assoc t a b)

module _ (B : BytesCrate) (auth : Unit {0} → Bool) (execute : Executor) where
  -- A part of a connection that begins in a phase, when `s` has been sent, and does not return: it
  -- has sent what a run of the protocol sends, and nothing else.
  pub data Follows (from : Phase) (s : List ℕ) : Outcome (Unit {0}) × TcpHandler → Type 0 where
    follows :
        (events : List Event) (to : Phase) (r : Outcome (Unit {0})) (input : List ℕ)
        → Run (auth tt) execute from events to
        → IsFailure r
        → Follows from s (r, connection input (s ++ transcript B events))

  follow :
      (from : Phase) (s : List ℕ) (events : List Event) (to : Phase) (r : Outcome (Unit {0}))
      (input : List ℕ)
      → Run (auth tt) execute from events to
      → IsFailure r
      → Follows from s (r, connection input (s ++ transcript B events))
  follow from s = follows

  stops :
      (p : Phase) (s : List ℕ) (r : Outcome (Unit {0})) (input : List ℕ)
      → IsFailure r
      → Follows p s (r, connection input s)
  stops p s r input f = rw append-nil at (follow p s [] p r input (stop p) f)

  -- A step of the protocol, and what follows it.
  goes_on :
      {p q : Phase} {e : Event} {s : List ℕ} {r : Outcome (Unit {0}) × TcpHandler}
      → Step (auth tt) execute p e q
      → Follows q (s ++ event_bytes B e) r
      → Follows p s r
  goes_on {p} {q} {e} {s} m (follows events to r input run f) =
      rw (append_assoc s (event_bytes B e) (transcript B events))
        (follow p s (e ∷ events) to r input (step m run) f)

  next_query :
      (f : ℕ) {input s : List ℕ} {r : Outcome (Unit {0}) × TcpHandler}
      → ((input' s' : List ℕ)
          → length input' < length input
          → Follows serving s' (answer_queries B execute f (connection input' s')))
      → Served B execute input s r
      → Follows serving s (continue r.0 (λ _. answer_queries B execute f) r.1)
  next_query f {s = s} h (not_served r input' fails) =
      failure_cases (Follows serving s) r _ (connection input' s) fails
        (λ r' f'. stops serving s r' input' f')
  next_query f h (served query result input' e taken) =
      goes_on (answer_query query result e) (h input' _ (omega arith))

  answer_queries-Follows :
      IsServing B execute
      → (f : ℕ) (input s : List ℕ) → length input < f
      → Follows serving s (answer_queries B execute f (connection input s))
  unfolding answer_queries
  answer_queries-Follows serve zero input s l = absurd (omega arith)
  answer_queries-Follows serve (suc f) input s l =
      next_query f (λ input' s' l'. answer_queries-Follows serve f input' s' (omega arith))
        (simple_query_handler-Served B execute serve input s)

  -- The rest of a connection, after the authentication.
  after_login :
      IsServing B execute
      → {s : List ℕ} {r : Outcome (List ParameterStatus) × TcpHandler} → Ending (auth tt) s r
      → Follows opened s
          (continue r.0 (λ _ h. answer_queries B execute (suc (length h.tcp_reader)) h) r.1)
  after_login serve {s} (no_startup r input fails) =
      failure_cases (Follows opened s) r _ (connection input s) fails
        (λ r' f'. stops opened s r' input f')
  after_login serve {s} (no_password r input fails) = goes_on challenge_client (
      failure_cases (Follows challenged (s ++ challenge)) r _ (connection input (s ++ challenge))
        fails (λ r' f'. stops challenged (s ++ challenge) r' input f'))
  after_login serve {s} (welcomed parameters input a) =
      rw (append_three (s ++ challenge) welcome server_version ready) (
        goes_on challenge_client (
          goes_on (welcome_client a)
            (answer_queries-Follows serve (suc (length input)) input _ (omega arith))))
  after_login serve {s} (turned_away input a) =
      goes_on challenge_client
        (goes_on (refuse_client a) (stops closed _ (err auth_failed) input tt))

  -- Whatever the client sends, over a socket that takes what it is given, and if what the executor
  -- returns can be sent: a connection ends, with an error or a panic, and what the server has sent on
  -- it is what a run of the protocol from its start sends, and nothing else.
  pub session-Follows :
      IsServing B execute
      → (input s : List ℕ) → Follows opened s (session B auth execute (connection input s))
  unfolding session
  session-Follows serve input s =
      after_login serve (md5_authentication_handler-Ending B auth input s)

  -- What a connection has sent is what the events of its history are.
  pub data Recorded (s : List ℕ) : Outcome (Unit {0}) × TcpHandler → Type 0 where
    recorded :
        (events : List Event) (p : Phase) (r : Outcome (Unit {0})) (input : List ℕ)
        → History (auth tt) execute p events
        → IsFailure r
        → Recorded s (r, connection input (s ++ transcript B events))

  Follows-Recorded :
      {s : List ℕ} {r : Outcome (Unit {0}) × TcpHandler} → Follows opened s r → Recorded s r
  Follows-Recorded (follows events to r input run f) =
      recorded events to r input (Run-History (auth tt) execute run) f

  -- Under the same conditions, what a connection has sent is one of these: nothing; the challenge; the
  -- challenge and the error, and the authentication function does not accept; or the challenge, the
  -- acceptance and whole answers to some queries, each the executor's result for its query, and the
  -- authentication function accepts. So no query is answered before the client is accepted.
  pub session-Recorded :
      IsServing B execute
      → (input s : List ℕ) → Recorded s (session B auth execute (connection input s))
  session-Recorded serve input s = Follows-Recorded (session-Follows serve input s)
