-- ===== src/Runs/Examples.antt =====
-- Runs of the example programs, and of the handlers in them.
use fakepostmaster.Prelude.{
  false, All, ◌≡◌, refl, ◌≤◌, true, none, some, List, [], ◌∷◌, ◌++◌, length, ltb, if◌then◌else◌,
  codes, ℕ, arith,
}
use fakepostmaster.Int.{pos, negsuc}
use fakepostmaster.Outcome.{ok, err, unexpected_eof, expected_backend_key_data, expected_data_row}
use fakepostmaster.Exec.Laws.{IsFailure}
use fakepostmaster.Stream.Writer.{accept, refuse}
use fakepostmaster.Message.Backend.{ParameterStatus, BackendKeyData}
use fakepostmaster.Message.Frame.{frame, request_frame}
use fakepostmaster.Message.Frontend.{PasswordMessage}
use fakepostmaster.Message.Reliable.Frontend.{password_encode}
use fakepostmaster.Message.Reliable.Lists.{startup_encode}
use fakepostmaster.Types.Utf8.{is_utf8-ascii}
use fakepostmaster.Handler.Connection.{TcpStream}
use fakepostmaster.Handler.Server
use fakepostmaster.Handler.Server.{salt}
use fakepostmaster.Handler.Server.Serving.{Served, simple_query_handler-Served}
use fakepostmaster.Handler.Server.Session.{startup_v3}
use fakepostmaster.Handler.Server.Transcript.{connection, challenge, welcome, server_version, ready}
use fakepostmaster.Handler.Client
use fakepostmaster.Handler.Client.Asking.{query_frame}
use fakepostmaster.Handler.Client.Session.{client_frames, md5_frame}
use fakepostmaster.Handler.Client.Safety.{Disclosed, md5_authentication_handler-Disclosed}
use fakepostmaster.Examples.Executor.{auth_func, executor}
use fakepostmaster.Examples.Executor.Laws.{executor-IsServing}
use fakepostmaster.Examples.Server as ServerExample
use fakepostmaster.Examples.Server.Protocol.{opened}
use fakepostmaster.Examples.Server.Refinement.{Follows, session-Follows}
use fakepostmaster.Examples.Server.Answers.{IsAsked, ask, answered, session-answers}
use fakepostmaster.Examples.Server.Process.{not_accepted, main-one}
use fakepostmaster.Examples.Client as ClientExample
use fakepostmaster.Examples.Client.Session.{open_stream, server_says, main_lem}
use fakepostmaster.Examples.Conversation.{main-main}
use fakepostmaster.Runs.Data.{one_row}
use fakepostmaster.Runs.Crates.{bytes, md5}

abbrev a_parameter : ParameterStatus
a_parameter = record { name = codes "user"; value = codes "me" }

abbrev a_password : PasswordMessage
a_password = record { password = codes "secret" }

abbrev a_key : BackendKeyData
a_key = record { process_id = pos 7; secret_key = negsuc 0 }

-- A client that logs in, asks once, and sends two bytes more.
abbrev a_client : List ℕ
a_client =
    request_frame (startup_encode bytes (startup_v3 (a_parameter ∷ [])))
    ++ (frame b'p' (password_encode bytes a_password)
        ++ ask bytes (codes "SELECT 1" ∷ [])
        ++ 1 ∷ 2 ∷ [])

session-Follows_example :
    Follows bytes auth_func
      (executor bytes)
      opened
      (9 ∷ [])
      (ServerExample.session bytes auth_func (executor bytes) (connection a_client (9 ∷ [])))
session-Follows_example =
    session-Follows bytes auth_func (executor bytes) (executor-IsServing bytes) a_client (9 ∷ [])

-- A client that logs in, before its query.
abbrev a_login : List ℕ
a_login =
    request_frame (startup_encode bytes (startup_v3 (a_parameter ∷ [])))
    ++ frame b'p' (password_encode bytes a_password)

abbrev a_query : List ℕ
a_query = ask bytes (codes "SELECT 1" ∷ [])

abbrev two_queries : List (List ℕ)
two_queries = codes "SELECT 1" ∷ codes "" ∷ []

two_queries-IsAsked : All (IsAsked bytes) two_queries
two_queries-IsAsked = (
  (omega arith, omega arith, is_utf8-ascii (codes "SELECT 1") (omega arith)),
  ((omega arith, omega arith, is_utf8-ascii (codes "") tt), tt),
)

session-answers_example :
    ServerExample.session bytes auth_func (executor bytes) (
      connection
        (request_frame (startup_encode bytes (startup_v3 (a_parameter ∷ [])))
          ++ (frame b'p' (password_encode bytes a_password) ++ ask bytes two_queries))
        (9 ∷ []))
    ≡ (
      err unexpected_eof,
      connection [] (
          9 ∷ []
          ++ challenge
          ++ welcome
          ++ server_version
          ++ ready
          ++ answered bytes (executor bytes) (executor-IsServing bytes) two_queries),
    )
session-answers_example =
    session-answers bytes (executor bytes) auth_func (executor-IsServing bytes) (a_parameter ∷ [])
      a_password two_queries (9 ∷ []) (unfold auth_func in refl) (omega arith) (omega arith)
      (omega arith) (omega arith) two_queries-IsAsked

-- A socket that takes a byte, then nothing, under a client that sends two bytes.
abbrev slow_stream : TcpStream
slow_stream = record { arriving = 1 ∷ 2 ∷ []; answers = accept 1 ∷ refuse ∷ []; can_clone = true }

main-one_example :
    (ServerExample.main bytes
        (ok (not_accepted 1 (some slow_stream ∷ some (open_stream a_client) ∷ [])))
        []
      ≡ ServerExample.serve bytes auth_func (executor bytes) slow_stream [])
    × IsFailure (ServerExample.serve bytes auth_func (executor bytes) slow_stream []).0
    × (length (ServerExample.serve bytes auth_func (executor bytes) slow_stream []).1 ≤ 1)
main-one_example = main-one bytes 1 slow_stream (some (open_stream a_client) ∷ [])

main_lem_example :
    ClientExample.main bytes md5 (
      ok
        (open_stream (server_says bytes md5 (5 ∷ 6 ∷ 7 ∷ 8 ∷ []) (a_parameter ∷ []) a_key one_row)))
    ≡ (
      (if ltb 0 (length one_row.1) then ok tt else err expected_data_row),
      client_frames bytes md5 (5 ∷ 6 ∷ 7 ∷ 8 ∷ []) ++ query_frame bytes,
    )
main_lem_example =
    main_lem bytes md5 (5 ∷ 6 ∷ 7 ∷ 8 ∷ []) (a_parameter ∷ []) a_key one_row (refl, omega arith)
      (omega arith) (omega arith) (omega arith)

main-main_example :
    (ServerExample.main bytes
        (ok (some (open_stream (client_frames bytes md5 salt)) ∷ none ∷ []))
        []
      ≡ (err unexpected_eof, (challenge ++ welcome ++ server_version ++ ready) ∷ []))
    × (ClientExample.main bytes md5
          (ok (open_stream (challenge ++ welcome ++ server_version ++ ready)))
        ≡ (err expected_backend_key_data, client_frames bytes md5 salt))
main-main_example = main-main bytes md5 (none ∷ [])

simple_query_handler-Served_example :
    Served bytes (executor bytes) (ask bytes two_queries) (9 ∷ []) (
      Server.simple_query_handler bytes
        (executor bytes)
        (connection (ask bytes two_queries) (9 ∷ [])))
simple_query_handler-Served_example =
    simple_query_handler-Served bytes (executor bytes) (executor-IsServing bytes)
      (ask bytes two_queries) (9 ∷ [])

-- A server that sends a challenge and closes.
md5_authentication_handler-Disclosed_example :
    Disclosed bytes md5 (md5_frame bytes (5 ∷ 6 ∷ 7 ∷ 8 ∷ [])) (9 ∷ []) (
      Client.md5_authentication_handler bytes md5 false
        (connection (md5_frame bytes (5 ∷ 6 ∷ 7 ∷ 8 ∷ [])) (9 ∷ [])))
md5_authentication_handler-Disclosed_example =
    md5_authentication_handler-Disclosed bytes md5 false (md5_frame bytes (5 ∷ 6 ∷ 7 ∷ 8 ∷ []))
      (9 ∷ [])
