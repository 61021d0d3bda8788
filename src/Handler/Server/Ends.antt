-- ===== src/Handler/Server/Ends.antt =====
-- The server's handlers end, whatever the client sends and the socket answers.
use fakepostmaster.Prelude.{
  ℕ, Bool, true, false, List, length, ltb, if◌then◌else◌, Bool-cases, inl, inr,
}
use fakepostmaster.Exec.Ends.{Ends, value_of-Ends, map_err-Ends, continue-Ends}
use fakepostmaster.Buffer.{BytesCrate}
use fakepostmaster.Types.Text.{has_nul, cstring_new}
use fakepostmaster.Types.Utf8.{is_utf8, into_string}
use fakepostmaster.Message.Authentication.{authentication_ok_body, md5_password_body}
use fakepostmaster.Message.Backend.{
  ParameterStatus, new_parameter_status, new_command_complete, parameter_status_body,
  command_complete_body, ready_for_query_body,
}
use fakepostmaster.Message.Errors.{new_error_message, error_response_body}
use fakepostmaster.Message.Row.{new_data_row, row_description_body, data_row_body}
use fakepostmaster.Message.Ends.{try_startup-Ends, try_password-Ends, try_query-Ends}
use fakepostmaster.Handler.Connection.{TcpHandler}
use fakepostmaster.Handler.Io.Ends.{
  get_request-Ends, get_raw_frontend_message-Ends, put_message-Ends, put_message_and_flush-Ends,
}
use fakepostmaster.Handler.Server.{
  Executor, accept_client, reject_client, md5_authentication_handler, put_row, simple_query_handler,
}

cstring_new-Ends : (s : List ℕ) → Ends (cstring_new s)
unfolding cstring_new
cstring_new-Ends s = elim (Bool-cases (has_nul s)) [ inl n ↦ rw n tt | inr n ↦ rw n tt ]

pub into_string-Ends : (s : List ℕ) → Ends (into_string s)
unfolding into_string
into_string-Ends s = elim (Bool-cases (is_utf8 s)) [ inl n ↦ rw n tt | inr n ↦ rw n tt ]

new_command_complete-Ends : (tag : List ℕ) → Ends (new_command_complete tag)
unfolding new_command_complete cstring_new
new_command_complete-Ends tag = elim (Bool-cases (has_nul tag)) [
  | inl n ↦ rw n tt
  | inr n ↦ rw n tt
]

module _ (B : BytesCrate) where
  accept_client-Ends : (ps : List ParameterStatus) (h : TcpHandler) → Ends (accept_client B ps h).0
  unfolding accept_client new_parameter_status cstring_new
  accept_client-Ends ps h =
      continue-Ends _ _ _ (put_message-Ends B (authentication_ok_body B) _ h.tcp_writer) (λ u.
        continue-Ends _ _ _ (put_message-Ends B (parameter_status_body B) _ _) (λ u'.
          continue-Ends _ _ _ (put_message_and_flush-Ends B (ready_for_query_body B) _ _)
            (λ u''. tt)))

  reject_client-Ends : (h : TcpHandler) → Ends (reject_client B h).0
  unfolding reject_client new_error_message cstring_new
  reject_client-Ends h =
      continue-Ends _ _ _ (put_message_and_flush-Ends B (error_response_body B) _ h.tcp_writer)
        (λ u. tt)

  choose-Ends :
      (a : Bool) (ps : List ParameterStatus) (h : TcpHandler)
      → Ends ((if a then accept_client B ps else reject_client B) h).0
  choose-Ends true ps h = accept_client-Ends ps h
  choose-Ends false ps h = reject_client-Ends h

  -- Whatever the client sends and however the socket takes what is written, the server's
  -- authentication ends: it returns, fails or panics.
  pub server_authentication-Ends :
      (auth : Unit {0} → Bool) (h : TcpHandler) → Ends (md5_authentication_handler B auth h).0
  unfolding md5_authentication_handler
  server_authentication-Ends auth h =
      continue-Ends _ _ _ (get_request-Ends B h.tcp_reader) (λ request.
        continue-Ends _ _ _ (value_of-Ends _ (try_startup-Ends B request)) (λ sm.
          continue-Ends _ _ _ (put_message_and_flush-Ends B (md5_password_body B) _ h.tcp_writer)
            (λ u. continue-Ends _ _ _ (get_raw_frontend_message-Ends B _) (λ raw.
              continue-Ends _ _ _ (map_err-Ends _ _ (value_of-Ends _ (try_password-Ends B raw)))
                (λ password. choose-Ends (auth tt) sm.parameters _)))))

  put_row-Ends : (row : List (List ℕ)) (h : TcpHandler) → Ends (put_row B row h).0
  unfolding put_row
  put_row-Ends row h = elim (Bool-cases (ltb 0 (length row))) [
    | inl n ↦ rw n (put_message-Ends B (data_row_body B) (new_data_row row) h.tcp_writer)
    | inr n ↦ rw n tt
  ]

  -- Whatever the client sends, whatever the executor returns and however the socket takes what is
  -- written, the server's query handler ends: it returns, fails or panics.
  pub server_query-Ends :
      (executor : Executor) (h : TcpHandler)
      → ((query : List ℕ) → Ends (executor query))
      → Ends (simple_query_handler B executor h).0
  unfolding simple_query_handler
  server_query-Ends executor h returns =
      continue-Ends _ _ _ (get_raw_frontend_message-Ends B h.tcp_reader) (λ raw.
        continue-Ends _ _ _ (map_err-Ends _ _ (value_of-Ends _ (try_query-Ends B raw))) (λ q.
          continue-Ends _ _ _ (into_string-Ends q.query) (λ text.
            continue-Ends _ _ _ (returns text) (λ executed.
              continue-Ends _ _ _ (put_message-Ends B (row_description_body B) _ h.tcp_writer) (λ u.
                continue-Ends _ _ _ (put_row-Ends executed.1 _) (λ u'.
                  continue-Ends _ _ _ (new_command_complete-Ends executed.2) (λ complete.
                    continue-Ends _ _ _ (put_message-Ends B (command_complete_body B) complete _)
                      (λ u''. put_message_and_flush-Ends B (ready_for_query_body B) _ _))))))))
