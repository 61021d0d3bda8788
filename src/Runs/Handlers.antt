-- ===== src/Runs/Handlers.antt =====
-- Both ends of a connection.
use fakepostmaster.Prelude.{
  ℕ, List, ◌≢◌, ◌≡◌, refl, true, false, [], ◌∷◌, ◌++◌, codes, if◌then◌else◌, arith,
}
use fakepostmaster.Int.{pos, negsuc}
use fakepostmaster.Outcome.{
  ok, err, auth_failed, into_string_error, expected_backend_key_data, impossible_from_request,
}
use fakepostmaster.Kind.Request.{ssl_request, startup_message, request_code}
use fakepostmaster.Message.Raw.{first_i32}
use fakepostmaster.Types.Utf8.{is_utf8}
use fakepostmaster.Message.Backend.{BackendKeyData, ParameterStatus, CommandComplete}
use fakepostmaster.Message.Frontend.{PasswordMessage, Query}
use fakepostmaster.Message.Frame.{frame, request_frame}
use fakepostmaster.Message.Reliable.Backend.{backend_key_data_encode}
use fakepostmaster.Message.Reliable.Frontend.{password_encode, query_encode}
use fakepostmaster.Message.Reliable.Lists.{startup_encode}
use fakepostmaster.Handler.RoundTrip.{
  ArrivesAtClient, ArrivesAtServer, query, get_message-put_message_and_flush,
}
use fakepostmaster.Handler.Server
use fakepostmaster.Handler.Server.{salt}
use fakepostmaster.Handler.Server.Safety.{Ending, md5_authentication_handler-Ending}
use fakepostmaster.Handler.Server.Session.{
  startup_v3, md5_authentication_handler_lem, md5_authentication_handler_refuses,
}
use fakepostmaster.Handler.Server.Answering.{answer, simple_query_handler_lem}
use fakepostmaster.Handler.Server.Transcript.{
  connection, challenge, welcome, server_version, refusal, ready,
}
use fakepostmaster.Handler.Client
use fakepostmaster.Handler.Client.{skip_parameters}
use fakepostmaster.Handler.Client.Receiving.{status_frames}
use fakepostmaster.Handler.Client.Session.{md5_frame, ok_frame, client_frames, client_startup}
use fakepostmaster.Handler.Client.Login.{
  md5_authentication_handler_ok, md5_authentication_handler_mismatch,
}
use fakepostmaster.Handler.Client.Asking.{query_frame, simple_query_handler_answered}
use fakepostmaster.Handler.RoundTrip
use fakepostmaster.Message.Authentication.{new_md5_password}
use fakepostmaster.Runs.Data.{one_row}
use fakepostmaster.Runs.Crates.{bytes, md5}

abbrev a_parameter : ParameterStatus
a_parameter = record { name = codes "user"; value = codes "me" }

abbrev a_password : PasswordMessage
a_password = record { password = codes "secret" }

abbrev a_key : BackendKeyData
a_key = record { process_id = pos 7; secret_key = negsuc 0 }

abbrev a_query : Query
a_query = record { query = codes "SELECT 1" }

abbrev a_tag : CommandComplete
a_tag = record { command_tag = codes "SELECT 1" }

md5_authentication_handler-Ending_example :
    Ending true
      (1 ∷ [])
      (Server.md5_authentication_handler bytes (λ _. true) (connection (0 ∷ 0 ∷ []) (1 ∷ [])))
md5_authentication_handler-Ending_example =
    md5_authentication_handler-Ending bytes (λ _. true) (0 ∷ 0 ∷ []) (1 ∷ [])

md5_authentication_handler_lem_example :
    Server.md5_authentication_handler bytes
      (λ _. false)
      (connection
        (request_frame (startup_encode bytes (startup_v3 (a_parameter ∷ [])))
          ++ (frame b'p' (password_encode bytes a_password) ++ 9 ∷ []))
        [])
    ≡ (err auth_failed, connection (9 ∷ []) ([] ++ challenge ++ refusal))
md5_authentication_handler_lem_example =
    md5_authentication_handler_lem bytes (λ _. false) (a_parameter ∷ []) a_password (9 ∷ []) []
      (omega arith) (omega arith) (omega arith) (omega arith)

md5_authentication_handler_ok_example :
    Client.md5_authentication_handler bytes md5 false (
      connection
        (md5_frame bytes (5 ∷ 6 ∷ 7 ∷ 8 ∷ [])
          ++ (ok_frame bytes
              ++ (status_frames bytes (a_parameter ∷ [])
                  ++ (frame b'K' (backend_key_data_encode bytes a_key) ++ (ready ++ 9 ∷ [])))))
        [])
    ≡ (ok tt, connection (9 ∷ []) ([] ++ client_frames bytes md5 (5 ∷ 6 ∷ 7 ∷ 8 ∷ [])))
md5_authentication_handler_ok_example =
    md5_authentication_handler_ok bytes md5 false (5 ∷ 6 ∷ 7 ∷ 8 ∷ []) (a_parameter ∷ []) a_key
      (9 ∷ []) [] (refl, omega arith) (omega arith) (omega arith)

md5_authentication_handler_mismatch_example :
    (Server.md5_authentication_handler bytes
        (λ _. true)
        (connection (client_frames bytes md5 salt ++ 9 ∷ []) [])
      ≡ (
        ok client_startup.parameters,
        connection (9 ∷ []) (challenge ++ welcome ++ server_version ++ ready),
      ))
    × (Client.md5_authentication_handler bytes md5 false
          (connection (challenge ++ welcome ++ server_version ++ ready) [])
        ≡ (err expected_backend_key_data, connection [] (client_frames bytes md5 salt)))
md5_authentication_handler_mismatch_example =
    md5_authentication_handler_mismatch bytes md5 false (9 ∷ [])

-- The second byte of the query is no UTF-8.
abbrev a_bad_query : Query
a_bad_query = record { query = b'S' ∷ 200 ∷ [] }

simple_query_handler_lem_example :
    Server.simple_query_handler bytes
      (λ _. ok one_row)
      (connection (frame b'Q' (query_encode bytes a_bad_query) ++ 9 ∷ []) [])
    ≡ (if is_utf8 a_bad_query.query
        then (ok tt, connection (9 ∷ []) ([] ++ answer bytes one_row))
        else (err into_string_error, connection (9 ∷ []) []))
simple_query_handler_lem_example =
    simple_query_handler_lem bytes (λ _. ok one_row) a_bad_query one_row (9 ∷ []) [] (omega arith)
      (omega arith) refl (omega arith)

simple_query_handler_answered_example :
    Client.simple_query_handler bytes (connection (answer bytes one_row ++ 9 ∷ []) [])
    ≡ (ok tt, connection (9 ∷ []) ([] ++ query_frame bytes))
simple_query_handler_answered_example =
    simple_query_handler_answered bytes one_row.0 one_row.1 one_row.2 (9 ∷ []) [] (omega arith)

get_message-put_message_and_flush_example :
    ArrivesAtClient bytes RoundTrip.challenge (new_md5_password salt) (9 ∷ [])
    × ArrivesAtServer bytes query a_query (9 ∷ [])
get_message-put_message_and_flush_example =
    get_message-put_message_and_flush bytes RoundTrip.challenge (new_md5_password salt) query
      a_query (9 ∷ []) (salt, (refl, omega arith), refl) (unfold new_md5_password in omega arith)
      (omega arith) (omega arith)

-- SSLRequest.
abbrev ssl_body : List ℕ
ssl_body = 4 ∷ 210 ∷ 22 ∷ 47 ∷ []

ssl_code : first_i32 ssl_body ≡ ok (request_code ssl_request)
unfolding first_i32 request_code
ssl_code = refl

no_startup : ssl_request ≢ startup_message
no_startup e = cc

md5_authentication_handler_refuses_example :
    Server.md5_authentication_handler bytes
      (λ _. true)
      (connection (request_frame ssl_body ++ 9 ∷ []) (1 ∷ []))
    ≡ (err impossible_from_request, connection (9 ∷ []) (1 ∷ []))
md5_authentication_handler_refuses_example =
    md5_authentication_handler_refuses bytes (λ _. true) ssl_request ssl_body (9 ∷ []) (1 ∷ [])
      no_startup ssl_code (omega arith)
