-- ===== src/Handler/Server/Transcript.antt =====
-- What the server writes to a client that follows the protocol.
use fakepostmaster.Prelude.{ℕ, ◌≡◌, refl, List, [], ◌∷◌, ◌++◌, append-nil, codes, arith}
use fakepostmaster.Outcome.{ok, err, auth_failed}
use fakepostmaster.Exec.{Exec, ◌>>◌}
use fakepostmaster.Buffer.{BytesCrate}
use fakepostmaster.Types.Text.{cstring_new}
use fakepostmaster.Stream.Writer.Laws.{settled}
use fakepostmaster.Message.Authentication.{
  new_authentication_ok, new_md5_password, md5_password_body, authentication_ok_body,
}
use fakepostmaster.Message.Backend.{
  ParameterStatus, new_parameter_status, new_ready_for_query, idle, parameter_status_body,
  ready_for_query_body,
}
use fakepostmaster.Message.Errors.{
  ErrorMessage, new_error_message, new_error_response, error_response_body,
}
use fakepostmaster.Message.Reliable.Backend.{
  authentication_ok_body-IsReliable, md5_password_body-IsReliable, parameter_status_body-IsReliable,
  ready_for_query_body-IsReliable,
}
use fakepostmaster.Message.Reliable.Lists.{error_response_body-IsReliable}
use fakepostmaster.Handler.Connection.{TcpHandler, writing}
use fakepostmaster.Handler.Io.{put_message_and_flush}
use fakepostmaster.Handler.Io.Laws.{then_put, then_flush}
use fakepostmaster.Handler.Server.{salt, accept_client, reject_client}

-- `AuthenticationMD5Password` with the salt 1, 2, 3, 4.
abbrev pub challenge : List ℕ
challenge = b'R' ∷ 0 ∷ 0 ∷ 0 ∷ 12 ∷ 0 ∷ 0 ∷ 0 ∷ 5 ∷ 1 ∷ 2 ∷ 3 ∷ 4 ∷ []

-- `AuthenticationOk`.
abbrev pub welcome : List ℕ
welcome = b'R' ∷ 0 ∷ 0 ∷ 0 ∷ 8 ∷ 0 ∷ 0 ∷ 0 ∷ 0 ∷ []

-- `ParameterStatus` of the server's version.
abbrev pub server_version : List ℕ
server_version =
    b'S' ∷ 0 ∷ 0 ∷ 0 ∷ 40 ∷ (codes "server_version" ++ 0 ∷ codes "0.1 (fakepostmaster)" ++ 0 ∷ [])

-- `ReadyForQuery` outside a transaction.
abbrev pub ready : List ℕ
ready = b'Z' ∷ 0 ∷ 0 ∷ 0 ∷ 5 ∷ b'I' ∷ []

-- `ErrorResponse` with one field.
abbrev pub refusal : List ℕ
refusal = b'E' ∷ 0 ∷ 0 ∷ 0 ∷ 33 ∷ b'M' ∷ (codes "Incorrect password or user" ++ 0 ∷ 0 ∷ [])

abbrev pub connection : List ℕ → List ℕ → TcpHandler
connection input sent = record { tcp_reader = input; tcp_writer = settled sent }

abbrev pub version_status : ParameterStatus
version_status = record { name = codes "server_version"; value = codes "0.1 (fakepostmaster)" }

new_version_status :
    new_parameter_status (codes "server_version") (codes "0.1 (fakepostmaster)") ≡ ok version_status
unfolding new_parameter_status cstring_new
new_version_status = refl

abbrev refusal_message : ErrorMessage
refusal_message = record { code = b'M'; message = codes "Incorrect password or user" }

new_refusal : new_error_message b'M' (codes "Incorrect password or user") ≡ ok refusal_message
unfolding new_error_message cstring_new
new_refusal = refl

module _ (B : BytesCrate) where
  pub accept_client-writes :
      (parameters : List ParameterStatus) (input s : List ℕ)
      → accept_client B parameters (connection input s)
        ≡ (ok parameters, connection input (s ++ welcome ++ server_version ++ ready))
  unfolding accept_client new_ready_for_query
  accept_client-writes parameters input s =
      then_put B (authentication_ok_body B) (authentication_ok_body-IsReliable B)
        new_authentication_ok (connection input s) _ _ (omega arith) (omega arith) refl
        λ w₁ s₁ o₁. rw new_version_status (
          then_put B (parameter_status_body B) (parameter_status_body-IsReliable B) version_status
            (record { tcp_reader = input; tcp_writer = w₁ }) _ _ (omega arith) (omega arith) o₁
            λ w₂ s₂ o₂.
              then_flush B (ready_for_query_body B) (ready_for_query_body-IsReliable B)
                (new_ready_for_query idle) (record { tcp_reader = input; tcp_writer = w₂ }) _ _
                (omega arith) (omega arith) o₂ (rw (s₂, s₁, append-nil)))

  pub reject_client-writes :
      (input s : List ℕ)
      → reject_client B (connection input s) ≡ (err auth_failed, connection input (s ++ refusal))
  unfolding reject_client
  reject_client-writes input s = rw new_refusal (
      then_flush B (error_response_body B) (error_response_body-IsReliable B)
        (new_error_response (refusal_message ∷ [])) (connection input s) _ _ (omega arith)
        (omega arith) refl (rw append-nil))

  -- The challenge is the first thing that the server writes.
  pub challenge-writes :
      {C : Type 0} (input s : List ℕ) (next : Exec TcpHandler C)
      → (writing (put_message_and_flush B (md5_password_body B) (new_md5_password salt)) >> next)
          (connection input s)
        ≡ next (connection input (s ++ challenge))
  unfolding new_md5_password
  challenge-writes input s next =
      then_flush B (md5_password_body B) (md5_password_body-IsReliable B) (new_md5_password salt)
        (connection input s) next _ (omega arith) (omega arith) refl (rw append-nil)
