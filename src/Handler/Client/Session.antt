-- ===== src/Handler/Client/Session.antt =====
-- The client's methods with a server that follows the protocol, and with the server of
-- src/handler/server.rs.
use fakepostmaster.Prelude.{
  Bool, ℕ, suc, ◌+◌, ◌<◌, ◌≡◌, refl, ap, List, [], ◌∷◌, ◌++◌, append-nil, append_assoc,
  length-append, length, codes, arith,
}
use fakepostmaster.Int.{pos}
use fakepostmaster.Outcome.{ok, expected_backend_key_data, expected_ready_for_query}
use fakepostmaster.Exec.{Exec, ◌>>=◌, lift, pure, map_err}
use fakepostmaster.Buffer.{BytesCrate}
use fakepostmaster.Md5.{Md5Crate}
use fakepostmaster.Stream.Writer.Laws.{settled}
use fakepostmaster.Types.Text.{cstring_new}
use fakepostmaster.Types.Scalar.Laws.{IsByte4}
use fakepostmaster.Kind.Backend.{BackendMessageKind, backend_kind_of}
use fakepostmaster.Kind.Authentication.{authentication_kind_of}
use fakepostmaster.Message.Raw.{
  RawBackendMessage, backend_message_kind, auth_message_kind, auth_kind_of_body, first_i32,
}
use fakepostmaster.Message.Get.{value_of}
use fakepostmaster.Message.Authentication.{
  AuthenticationMd5Password, new_authentication_ok, try_authentication_ok, try_md5_password,
  when_authentication, read_md5, read_ok,
}
use fakepostmaster.Message.Backend.{
  ParameterStatus, new_parameter_status, try_backend_key_data, try_ready_for_query,
}
use fakepostmaster.Message.Startup.{StartupMessage}
use fakepostmaster.Message.Frontend.{PasswordMessage, password_body}
use fakepostmaster.Message.Frontend.Laws.{md5_answer, md5_answer-IsText, new_from_user_password_lem}
use fakepostmaster.Message.Frame.{frame, request_frame, FitsFrame, raw_backend}
use fakepostmaster.Message.Reliable.Backend.{
  md5_password_encode, md5_password_body-IsReliable, authentication_ok_encode,
  authentication_ok_body-IsReliable,
}
use fakepostmaster.Message.Reliable.Frontend.{password_encode, password_body-IsReliable}
use fakepostmaster.Message.Reliable.Lists.{startup_encode, startup-IsSized}
use fakepostmaster.Handler.Connection.{TcpHandler, reading}
use fakepostmaster.Handler.Io.{get_raw_backend_message}
use fakepostmaster.Handler.Io.Laws.{put_request-open, then_flush}
use fakepostmaster.Handler.Client.{md5_authentication_handler}
use fakepostmaster.Handler.Client.Receiving.{
  IsLast, get_raw_backend_message-frame, status_frames, IsStatuses, left_of, length-left_of,
  get_first, skip_parameters_lem,
}
use fakepostmaster.Handler.Server.Session.{startup_v3}
use fakepostmaster.Handler.Server.Transcript.{connection}

abbrev parameter : List ℕ → List ℕ → ParameterStatus
parameter name value = record { name = name; value = value }

-- What the client asks for.
abbrev pub client_startup : StartupMessage
client_startup = startup_v3 (
    parameter (codes "user") (codes "md5user")
    ∷ parameter (codes "database") (codes "postgres")
    ∷ parameter (codes "application_name") (codes "pgfake")
    ∷ parameter (codes "client_encoding") (codes "utf8")
    ∷ [])

abbrev pub md5_of : List ℕ → AuthenticationMd5Password
md5_of salt = record { code = pos 5; salt = salt }

abbrev pub password_of : List ℕ → PasswordMessage
password_of password = record { password = password }

no_gaps : (s a b : List ℕ) → s ++ [] ++ a ++ [] ++ b ≡ s ++ (a ++ b)
no_gaps s a b = rw (append-nil s, append-nil (s ++ a), append_assoc s a b)

module _ (B : BytesCrate) where
  -- The two messages before the parameters.
  abbrev pub md5_frame : List ℕ → List ℕ
  md5_frame salt = frame b'R' (md5_password_encode B (md5_of salt))

  abbrev pub ok_frame : List ℕ
  ok_frame = frame b'R' (authentication_ok_encode B new_authentication_ok)

  pub read_md5_frame :
      (salt : List ℕ)
      → IsByte4 salt
      → try_md5_password B (raw_backend b'R' (md5_password_encode B (md5_of salt)))
        ≡ ok (md5_of salt, [])
  unfolding try_md5_password when_authentication read_md5 backend_message_kind backend_kind_of
      auth_message_kind auth_kind_of_body first_i32 authentication_kind_of
  read_md5_frame salt h =
      (md5_password_body-IsReliable B).reads_whole (md5_of salt) ((omega arith), (h, tt))

  pub read_ok_frame :
      try_authentication_ok B (raw_backend b'R' (authentication_ok_encode B new_authentication_ok))
      ≡ ok (new_authentication_ok, [])
  unfolding try_authentication_ok when_authentication read_ok backend_message_kind backend_kind_of
      auth_message_kind auth_kind_of_body first_i32 authentication_kind_of
  read_ok_frame =
      (authentication_ok_body-IsReliable B).reads_whole new_authentication_ok (omega arith)

  pub md5_fits : (salt : List ℕ) → IsByte4 salt → FitsFrame (md5_password_encode B (md5_of salt))
  md5_fits salt h = omega (arith, h.0, length-append salt [])

  length-password : (t : List ℕ) → length (password_encode B (password_of t)) ≡ length t + 1
  length-password t = omega (arith, length-append (t ++ 0 ∷ []) [], length-append t (0 ∷ []))

  module _ (D : Md5Crate) where
    pub password_fits :
        (salt : List ℕ)
        → FitsFrame (
            password_encode B (password_of (md5_answer D (codes "md5user") (codes "md5pass") salt)))
    password_fits salt =
        let answer = md5_answer D (codes "md5user") (codes "md5pass") salt in
        let e = length-password answer in
        let e' = (new_from_user_password_lem D (codes "md5user") (codes "md5pass") salt).1 in
        rw (e, e') (omega arith)

    -- The client's answer to a salt.
    abbrev pub password_frame : List ℕ → List ℕ
    password_frame salt =
        frame b'p'
          (password_encode B (password_of (md5_answer D (codes "md5user") (codes "md5pass") salt)))

    -- What the client sends: its startup message, and the answer to the salt.
    abbrev pub client_frames : List ℕ → List ℕ
    client_frames salt = request_frame (startup_encode B client_startup) ++ password_frame salt

    -- What the client does once it has skipped the parameters.
    abbrev pub finish : RawBackendMessage → Exec TcpHandler (Unit {0})
    finish raw_message = do
      key ← lift (map_err expected_backend_key_data (value_of (try_backend_key_data B raw_message)))
      last ← reading (get_raw_backend_message B)
      ready' ← lift (map_err expected_ready_for_query (value_of (try_ready_for_query B last)))
      pure tt

    -- The client goes through the authentication and the parameters up to a last message.
    pub authentication_to_last :
        (debug : Bool) (salt : List ℕ) (ps : List ParameterStatus) (kind : ℕ)
        (k : BackendMessageKind) (body rest s : List ℕ)
        → IsByte4 salt
        → IsStatuses B ps
        → kind < 256
        → FitsFrame body
        → backend_kind_of kind ≡ ok k
        → IsLast k
        → md5_authentication_handler B D debug (
            connection
              (md5_frame salt ++ (ok_frame ++ (status_frames B ps ++ (frame kind body ++ rest))))
              s)
          ≡ finish (raw_backend kind body) (connection rest (s ++ client_frames salt))
    unfolding md5_authentication_handler new_parameter_status cstring_new
    authentication_to_last debug salt ps kind k body rest s vs vp b fits e l =
        rw
          (
            put_request-open B _ (startup-IsSized B) client_startup (settled s) (omega arith)
                (omega arith) refl,
            get_raw_backend_message-frame B b'R' BackendMessageKind.authentication
                (md5_password_encode B (md5_of salt)) _ (omega arith) (md5_fits salt vs)
                (unfold backend_kind_of in refl) tt,
            read_md5_frame salt vs,
            (new_from_user_password_lem D (codes "md5user") (codes "md5pass") salt).0,
          )
          (then_flush B (password_body B) (password_body-IsReliable B)
            (password_of (md5_answer D (codes "md5user") (codes "md5pass") salt))
            (connection (ok_frame ++ (status_frames B ps ++ (frame kind body ++ rest)))
              (s ++ [] ++ request_frame (startup_encode B client_startup)))
            _ _ (md5_answer-IsText D (codes "md5user") (codes "md5pass") salt, tt)
            (password_fits salt) refl
            (rw
              (
                get_raw_backend_message-frame B b'R' BackendMessageKind.authentication
                    (authentication_ok_encode B new_authentication_ok)
                    (status_frames B ps ++ (frame kind body ++ rest)) (omega arith) (omega arith)
                    (unfold backend_kind_of in refl) tt,
                read_ok_frame,
                get_first B kind body rest k b fits e l ps vp,
                skip_parameters_lem B kind body rest k b fits e l debug ps
                    (suc (length (left_of B kind body rest ps)))
                    (s
                      ++ []
                      ++ request_frame (startup_encode B client_startup)
                      ++ []
                      ++ password_frame salt)
                    (omega (arith, length-left_of B kind body rest ps)) vp,
              )
              (ap (λ t. finish (raw_backend kind body) (connection rest t)) (no_gaps s _ _))))
