-- ===== src/Handler/Server.antt =====
-- src/handler/server.rs: the methods of the server's `TcpHandler`.
pub mod Safety
pub mod Accepting
pub mod Querying
pub mod Session
pub mod Answering
pub mod Serving
pub mod Keeps
pub mod Behaviour
pub mod Causal
pub mod Ends
pub mod Transcript
use fakepostmaster.Prelude.{ℕ, Bool, List, [], ◌∷◌, codes, ltb, length, if◌then◌else◌}
use fakepostmaster.Outcome.{Outcome, ok, expected_password, expected_query, auth_failed}
use fakepostmaster.Exec.{Exec, ◌>>=◌, ◌>>◌, pure, lift, throw, map_err}
use fakepostmaster.Buffer.{BytesCrate}
use fakepostmaster.Types.Vectors.{VecNull, into_vec}
use fakepostmaster.Types.Utf8.{into_string}
use fakepostmaster.Message.Get.{value_of, get_request}
use fakepostmaster.Message.Authentication.{
  new_authentication_ok, new_md5_password, authentication_ok_body, md5_password_body,
}
use fakepostmaster.Message.Backend.{
  ParameterStatus, new_parameter_status, new_command_complete, new_ready_for_query, idle,
  parameter_status_body, command_complete_body, ready_for_query_body,
}
use fakepostmaster.Message.Errors.{new_error_message, new_error_response, error_response_body}
use fakepostmaster.Message.Row.{
  ColumnDescription, ColumnData, new_row_description, new_data_row, row_description_body,
  data_row_body,
}
use fakepostmaster.Message.Startup.{StartupMessage, try_startup}
use fakepostmaster.Message.Frontend.{Query, try_password, try_query}
use fakepostmaster.Handler.Connection.{TcpHandler, reading, writing}
use fakepostmaster.Handler.Io.{get_raw_frontend_message, put_message, put_message_and_flush}

-- FIXME in the source: the salt is not random.
abbrev pub salt : List ℕ
salt = 1 ∷ 2 ∷ 3 ∷ 4 ∷ []

-- What an executor returns: the columns, the row and the command tag.
abbrev pub Executed : Type 0
Executed = List ColumnDescription × List ColumnData × List ℕ

-- A closure may panic.
abbrev pub Executor : Type 0
Executor = List ℕ → Outcome Executed

module _ (B : BytesCrate) where
  unfoldable pub accept_client : VecNull ParameterStatus → Exec TcpHandler (List ParameterStatus)
  accept_client parameters = do
    writing (put_message B (authentication_ok_body B) new_authentication_ok)
    status ← lift (new_parameter_status (codes "server_version") (codes "0.1 (fakepostmaster)"))
    writing (put_message B (parameter_status_body B) status)
    writing (put_message_and_flush B (ready_for_query_body B) (new_ready_for_query idle))
    pure (into_vec parameters)

  unfoldable pub reject_client : Exec TcpHandler (List ParameterStatus)
  reject_client = do
    error ← lift (new_error_message b'M' (codes "Incorrect password or user"))
    writing (put_message_and_flush B (error_response_body B) (new_error_response (error ∷ [])))
    throw auth_failed

  unfoldable pub md5_authentication_handler :
      (Unit {0} → Bool) → Exec TcpHandler (List ParameterStatus)
  unfolding accept_client reject_client
  md5_authentication_handler auth_function = do
    request ← reading (get_request B)
    sm ← lift (value_of (try_startup B request))
    writing (put_message_and_flush B (md5_password_body B) (new_md5_password salt))
    raw_message ← reading (get_raw_frontend_message B)
    password_message ← lift (map_err expected_password (value_of (try_password B raw_message)))
    if auth_function tt then accept_client sm.parameters else reject_client

  unfoldable pub put_row : List ColumnData → Exec TcpHandler (Unit {0})
  put_row column_data =
      if ltb 0 (length column_data)
      then writing (put_message B (data_row_body B) (new_data_row column_data))
      else pure tt

  unfoldable pub simple_query_handler : Executor → Exec TcpHandler (Unit {0})
  unfolding put_row
  simple_query_handler executor = do
    raw_message ← reading (get_raw_frontend_message B)
    query_message ← lift (map_err expected_query (value_of (try_query B raw_message)))
    query ← lift (into_string query_message.query)
    (column_desc, column_data, command_tag) ← lift (executor query)
    writing (put_message B (row_description_body B) (new_row_description column_desc))
    put_row column_data
    complete ← lift (new_command_complete command_tag)
    writing (put_message B (command_complete_body B) complete)
    writing (put_message_and_flush B (ready_for_query_body B) (new_ready_for_query idle))
