-- ===== src/Runs/Network.antt =====
-- Conversations whose bytes arrive in pieces.
use fakepostmaster.Prelude.{◌≡◌, ◌↔◌, refl, [], ◌∷◌, length, ltb, if◌then◌else◌, arith}
use fakepostmaster.Outcome.{ok, err, expected_data_row}
use fakepostmaster.Stream.Writer.Keeps.{Grows-trans}
use fakepostmaster.Handler.Network.{Arrived, sends, Steps, stay, go, to_server, Reached, IsQuiet}
use fakepostmaster.Handler.Network.Laws.{Behind}
use fakepostmaster.Handler.Network.Query
use fakepostmaster.Handler.Network.Query.{client_asks, simple_query_handler-converges}
use fakepostmaster.Handler.Server
use fakepostmaster.Handler.Server.Answering.{answer}
use fakepostmaster.Handler.Server.Transcript.{connection, ready}
use fakepostmaster.Handler.Client
use fakepostmaster.Handler.Client.Asking.{query_frame}
use fakepostmaster.Examples.Executor.{auth_func, executor}
use fakepostmaster.Examples.Server as ServerExample
use fakepostmaster.Examples.Client as ClientExample
use fakepostmaster.Examples.Network
use fakepostmaster.Examples.Network.{session-converges}
use fakepostmaster.Examples.Network.Ends.{startup_frame, session_starts}
use fakepostmaster.Runs.Data.{one_row}
use fakepostmaster.Runs.Crates.{bytes, md5}

-- Three bytes of the client's first message have arrived.
abbrev begun : Arrived
begun = record { at_server = 0 ∷ 0 ∷ 0 ∷ []; at_client = [] }

begun-Reached :
    Reached
      (ServerExample.session bytes auth_func (executor bytes))
      (ClientExample.session bytes md5)
      begun
begun-Reached = go stay (
    to_server (record { at_server = []; at_client = [] }) (0 ∷ 0 ∷ 0 ∷ [])
      (Grows-trans (0 ∷ 0 ∷ 0 ∷ []) (startup_frame bytes md5)
        (sends (ClientExample.session bytes md5) []) (_, refl) (session_starts bytes md5)))

session-converges_example :
    Behind begun (Network.last_arrived bytes md5 (auth_func tt))
    × Steps
        (ServerExample.session bytes auth_func (executor bytes))
        (ClientExample.session bytes md5)
        begun
        (Network.last_arrived bytes md5 (auth_func tt))
    × (IsQuiet
          (ServerExample.session bytes auth_func (executor bytes))
          (ClientExample.session bytes md5)
          begun
        ↔ (begun ≡ Network.last_arrived bytes md5 (auth_func tt)))
session-converges_example =
    session-converges bytes md5 auth_func (executor bytes) begun begun-Reached

-- The type of the client's query has arrived.
abbrev asked : Arrived
asked = record { at_server = b'Q' ∷ []; at_client = [] }

asked-Reached :
    Reached
      (Server.simple_query_handler bytes (λ _. ok one_row))
      (Client.simple_query_handler bytes)
      asked
asked-Reached = go stay (
    to_server (record { at_server = []; at_client = [] }) (b'Q' ∷ [])
      (rw (client_asks bytes) (_, refl)))

simple_query_handler-converges_example :
    Behind asked (Query.last_arrived bytes (λ _. ok one_row) one_row refl (omega arith))
    × Steps
        (Server.simple_query_handler bytes (λ _. ok one_row))
        (Client.simple_query_handler bytes)
        asked
        (Query.last_arrived bytes (λ _. ok one_row) one_row refl (omega arith))
    × (IsQuiet
          (Server.simple_query_handler bytes (λ _. ok one_row))
          (Client.simple_query_handler bytes)
          asked
        → (Server.simple_query_handler bytes (λ _. ok one_row) (connection asked.at_server [])
            ≡ (ok tt, connection [] (answer bytes one_row)))
          × (Client.simple_query_handler bytes (connection asked.at_client []) ≡ (
              if ltb 0 (length one_row.1)
              then (ok tt, connection [] (query_frame bytes))
              else (err expected_data_row, connection ready (query_frame bytes)))))
simple_query_handler-converges_example =
    simple_query_handler-converges bytes (λ _. ok one_row) one_row refl (omega arith) asked
      asked-Reached
