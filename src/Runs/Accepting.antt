-- ===== src/Runs/Accepting.antt =====
-- What the handlers take for a login or a query.
use fakepostmaster.Prelude.{◌≡◌, refl, true, List, [], ◌∷◌, ◌++◌, ℕ, codes, arith}
use mathlib.Core.Path.{subst}
use fakepostmaster.Outcome.{ok}
use fakepostmaster.Types.Utf8.{is_utf8-ascii}
use fakepostmaster.Message.Backend.{ParameterStatus, BackendKeyData}
use fakepostmaster.Message.Reliable.Backend.{backend_key_data_encode}
use fakepostmaster.Int.{pos, negsuc, as_i16, as_i32}
use fakepostmaster.Handler.Client.Receiving.{status_frames}
use fakepostmaster.Handler.Client.Session.{md5_frame, ok_frame, client_frames}
use fakepostmaster.Handler.Client.Login.{md5_authentication_handler_ok}
use fakepostmaster.Handler.Client.Asking.{query_frame, simple_query_handler_answered}
use fakepostmaster.Handler.Client.Answered.{Answered, simple_query_handler-Answered}
use fakepostmaster.Handler.Client.Accepting.{Welcomed, md5_authentication_handler-Welcomed}
use fakepostmaster.Message.Frame.{frame, request_frame}
use fakepostmaster.Message.Frontend.{PasswordMessage, Query}
use fakepostmaster.Message.Reliable.Frontend.{password_encode, query_encode}
use fakepostmaster.Message.Reliable.Lists.{startup_encode}
use fakepostmaster.Handler.Server.{Executed, simple_query_handler}
use fakepostmaster.Handler.Server.Accepting.{LoggedIn, md5_authentication_handler-LoggedIn}
use fakepostmaster.Handler.Server.Answering.{answer, IsAnswer, simple_query_handler_lem}
use fakepostmaster.Handler.Server.Querying.{Replied, simple_query_handler-Replied}
use fakepostmaster.Handler.Server.Session.{startup_v3, md5_authentication_handler_lem}
use fakepostmaster.Handler.Server.Transcript.{connection, challenge, welcome, server_version, ready}
use fakepostmaster.Examples.Executor.{auth_func, executor}
use fakepostmaster.Examples.Executor.Laws.{executor-IsServing}
use fakepostmaster.Examples.Server.{session}
use fakepostmaster.Examples.Server.Asked.{HasAsked, session-Asked}
use fakepostmaster.Runs.Data.{one_row}
use fakepostmaster.Runs.Crates.{bytes, md5}

abbrev a_parameter : ParameterStatus
a_parameter = record { name = codes "user"; value = codes "me" }

abbrev a_password : PasswordMessage
a_password = record { password = codes "secret" }

abbrev a_query : Query
a_query = record { query = codes "SELECT 1" }

abbrev a_login : List ℕ
a_login =
    request_frame (startup_encode bytes (startup_v3 (a_parameter ∷ [])))
    ++ (frame b'p' (password_encode bytes a_password) ++ 9 ∷ [])

md5_authentication_handler-LoggedIn_example :
    (true ≡ true) × LoggedIn bytes a_login (a_parameter ∷ []) (9 ∷ [])
md5_authentication_handler-LoggedIn_example =
    md5_authentication_handler-LoggedIn bytes (λ _. true) a_login [] (a_parameter ∷ [])
      (connection (9 ∷ []) ([] ++ challenge ++ welcome ++ server_version ++ ready)) (omega arith)
      (md5_authentication_handler_lem bytes (λ _. true) (a_parameter ∷ []) a_password (9 ∷ []) []
        (omega arith) (omega arith) (omega arith) (omega arith))

abbrev a_question : List ℕ
a_question = frame b'Q' (query_encode bytes a_query) ++ 9 ∷ []

one_row_fits : IsAnswer bytes one_row
one_row_fits = omega arith

-- What this executor returns can be sent.
one_row-IsAnswer :
    (query : List ℕ) (result : Executed) → ok one_row ≡ ok result → IsAnswer bytes result
one_row-IsAnswer query result e =
    let same : one_row ≡ result = cc in subst (IsAnswer bytes) same one_row_fits

answered :
    simple_query_handler bytes (λ _. ok one_row) (connection a_question [])
    ≡ (ok tt, connection (9 ∷ []) ([] ++ answer bytes one_row))
answered = rw (is_utf8-ascii a_query.query (omega arith)) at (
    simple_query_handler_lem bytes (λ _. ok one_row) a_query one_row (9 ∷ []) [] (omega arith)
      (omega arith) refl (omega arith))

simple_query_handler-Replied_example :
    Replied bytes (λ _. ok one_row) a_question [] (connection (9 ∷ []) ([] ++ answer bytes one_row))
simple_query_handler-Replied_example =
    simple_query_handler-Replied bytes (λ _. ok one_row) a_question []
      (connection (9 ∷ []) ([] ++ answer bytes one_row)) one_row-IsAnswer (omega arith) answered

session-Asked_example :
    HasAsked bytes
      (executor bytes)
      (executor-IsServing bytes)
      auth_func
      a_login
      (7 ∷ [])
      (session bytes auth_func (executor bytes) (connection a_login (7 ∷ [])))
session-Asked_example =
    session-Asked bytes (executor bytes) (executor-IsServing bytes) auth_func a_login (7 ∷ [])
      (omega arith)

abbrev a_key : BackendKeyData
a_key = record { process_id = pos 7; secret_key = negsuc 0 }

-- A server with a salt of its own.
abbrev a_salt : List ℕ
a_salt = 5 ∷ 6 ∷ 7 ∷ 8 ∷ []

abbrev a_server : List ℕ
a_server =
    md5_frame bytes a_salt
    ++ (ok_frame bytes
        ++ (status_frames bytes (a_parameter ∷ [])
            ++ (frame b'K' (backend_key_data_encode bytes a_key) ++ (ready ++ 9 ∷ []))))

md5_authentication_handler-Welcomed_example : Welcomed bytes md5 true a_server (9 ∷ [])
md5_authentication_handler-Welcomed_example =
    md5_authentication_handler-Welcomed bytes md5 true (connection a_server [])
      (connection (9 ∷ []) ([] ++ client_frames bytes md5 a_salt)) (omega arith)
      (md5_authentication_handler_ok bytes md5 true a_salt (a_parameter ∷ []) a_key (9 ∷ []) []
        (refl, omega arith) (omega arith) (omega arith))

simple_query_handler-Answered_example : Answered bytes (answer bytes one_row ++ 9 ∷ []) (9 ∷ [])
unfolding as_i16 as_i32
simple_query_handler-Answered_example =
    simple_query_handler-Answered bytes (connection (answer bytes one_row ++ 9 ∷ []) [])
      (connection (9 ∷ []) ([] ++ query_frame bytes)) (omega arith)
      (simple_query_handler_answered bytes one_row.0 one_row.1 one_row.2 (9 ∷ []) [] (omega arith))
