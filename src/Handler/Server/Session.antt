-- ===== src/Handler/Server/Session.antt =====
-- `md5_authentication_handler` with a client that follows the protocol.
use fakepostmaster.Prelude.{
  ℕ, ◌∙◌, arith, ◌≡◌, ◌≢◌, refl, Bool, List, [], ◌++◌, if◌then◌else◌, Bool-cases, inl, inr,
}
use fakepostmaster.Int.{pos}
use fakepostmaster.Outcome.{ok, err, auth_failed, impossible_from_request, unexpected_eof}
use fakepostmaster.Buffer.{BytesCrate}
use fakepostmaster.Kind.Request.{
  RequestMessageKind, startup_message, cancel_request, gssenc_request, ssl_request, request_code,
}
use fakepostmaster.Stream.Reader.{read_exact_short}
use fakepostmaster.Message.Get.{get_frontend_message}
use fakepostmaster.Message.Raw.{first_i32}
use fakepostmaster.Message.Backend.{ParameterStatus}
use fakepostmaster.Message.Frame.{
  frame, request_frame, FitsFrame, get_request-frame, get_frontend_message-frame,
}
use fakepostmaster.Message.Startup.{StartupMessage, new_startup, try_startup, read_startup}
use fakepostmaster.Message.Frontend.{PasswordMessage, try_password}
use fakepostmaster.Message.Reliable.Frontend.{
  IsPasswordMessage, password_encode, password_body-IsReliable,
}
use fakepostmaster.Message.Reliable.Lists.{IsStartup, startup_encode, startup-ReadsBackWhole}
use fakepostmaster.Handler.Io.{get_raw_frontend_message}
use fakepostmaster.Handler.Server.{md5_authentication_handler}
use fakepostmaster.Handler.Server.Transcript.{
  connection, challenge, welcome, server_version, ready, refusal, accept_client-writes,
  reject_client-writes, challenge-writes,
}

-- A `StartupMessage` of version 3.0.
abbrev pub startup_v3 : List ParameterStatus → StartupMessage
startup_v3 parameters = new_startup (record { major = pos 3; minor = pos 0 }) parameters

module _ (B : BytesCrate) where
  startup_v3-code :
      (parameters : List ParameterStatus)
      → first_i32 (startup_encode B (startup_v3 parameters)) ≡ ok (request_code startup_message)
  unfolding first_i32 request_code
  startup_v3-code parameters = refl

  -- A client that opens with version 3.0 and valid parameters, and answers with any password, is told
  -- that it is accepted, and its parameters are returned in their order, exactly when the
  -- authentication function says so; else it gets the error, and the handler fails. The password is
  -- read and not looked at. What follows the password is left to the next handler.
  pub md5_authentication_handler_lem :
      (auth : Unit {0} → Bool) (parameters : List ParameterStatus) (p : PasswordMessage)
      (rest s : List ℕ)
      → IsStartup B (startup_v3 parameters)
      → FitsFrame (startup_encode B (startup_v3 parameters))
      → IsPasswordMessage B p
      → FitsFrame (password_encode B p)
      → md5_authentication_handler B auth (
          connection
            (request_frame (startup_encode B (startup_v3 parameters))
              ++ (frame b'p' (password_encode B p) ++ rest))
            s)
        ≡ (if auth tt
            then (
              ok parameters,
              connection rest (s ++ challenge ++ welcome ++ server_version ++ ready),
            )
            else (err auth_failed, connection rest (s ++ challenge ++ refusal)))
  unfolding md5_authentication_handler try_startup get_raw_frontend_message try_password
  md5_authentication_handler_lem auth parameters p rest s vs fs vp fp =
      rw
        (
          get_request-frame B startup_message (startup_encode B (startup_v3 parameters)) _
              (startup_v3-code parameters) fs,
          startup-ReadsBackWhole B (startup_v3 parameters) vs,
        )
        (challenge-writes B _ s _
          ∙ rw
              (
                get_frontend_message-frame B b'p' (password_encode B p) rest (omega arith) fp,
                (password_body-IsReliable B).reads_whole p vp,
              )
              (elim (Bool-cases (auth tt)) [
                | inl yes' ↦ rw yes' (accept_client-writes B parameters rest (s ++ challenge))
                | inr no' ↦ rw no' (reject_client-writes B rest (s ++ challenge))
              ]))

  -- A client that has sent its startup message only is asked for its password, and waited for.
  pub md5_authentication_handler_asks :
      (auth : Unit {0} → Bool) (parameters : List ParameterStatus) (s : List ℕ)
      → IsStartup B (startup_v3 parameters)
      → FitsFrame (startup_encode B (startup_v3 parameters))
      → md5_authentication_handler B auth
          (connection (request_frame (startup_encode B (startup_v3 parameters)) ++ []) s)
        ≡ (err unexpected_eof, connection [] (s ++ challenge))
  unfolding md5_authentication_handler try_startup get_raw_frontend_message get_frontend_message
  md5_authentication_handler_asks auth parameters s vs fs =
      rw
        (
          get_request-frame B startup_message (startup_encode B (startup_v3 parameters)) []
              (startup_v3-code parameters) fs,
          startup-ReadsBackWhole B (startup_v3 parameters) vs,
        )
        (challenge-writes B [] s _ ∙ rw (read_exact_short 5 [] (omega arith)))

  -- A client that opens with any other request than a startup message, such as the SSLRequest that a
  -- client sends first where it prefers SSL, gets no answer: the request is read whole, and the handler
  -- fails and sends nothing.
  pub md5_authentication_handler_refuses :
      (auth : Unit {0} → Bool) (kind : RequestMessageKind) (body rest s : List ℕ)
      → kind ≢ startup_message
      → first_i32 body ≡ ok (request_code kind)
      → FitsFrame body
      → md5_authentication_handler B auth (connection (request_frame body ++ rest) s)
        ≡ (err impossible_from_request, connection rest s)
  unfolding md5_authentication_handler try_startup read_startup
  md5_authentication_handler_refuses auth startup_message body rest s n c h = absurd (n refl)
  md5_authentication_handler_refuses auth cancel_request body rest s n c h =
      rw (get_request-frame B cancel_request body rest c h) refl
  md5_authentication_handler_refuses auth gssenc_request body rest s n c h =
      rw (get_request-frame B gssenc_request body rest c h) refl
  md5_authentication_handler_refuses auth ssl_request body rest s n c h =
      rw (get_request-frame B ssl_request body rest c h) refl
