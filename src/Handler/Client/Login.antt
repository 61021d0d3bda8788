-- ===== src/Handler/Client/Login.antt =====
-- `md5_authentication_handler` of the client, to its end.
use fakepostmaster.Prelude.{
  Bool, ℕ, ◌≡◌, refl, ap, ◌∙◌, true, List, [], ◌∷◌, ◌++◌, codes, append_assoc, arith,
}
use fakepostmaster.Outcome.{ok, err, expected_backend_key_data}
use fakepostmaster.Buffer.{BytesCrate}
use fakepostmaster.Md5.{Md5Crate}
use fakepostmaster.Types.Scalar.Laws.{IsByte4}
use fakepostmaster.Kind.Backend.{BackendMessageKind, backend_kind_of}
use fakepostmaster.Message.Backend.{
  BackendKeyData, ParameterStatus, new_ready_for_query, idle, try_backend_key_data,
  try_ready_for_query,
}
use fakepostmaster.Message.Frame.{frame, request_frame}
use fakepostmaster.Message.Frontend.Laws.{md5_answer, md5_answer-IsText}
use fakepostmaster.Message.Reliable.Backend.{
  IsBackendKeyData, backend_key_data_encode, backend_key_data_body-IsReliable,
  ready_for_query_encode, ready_for_query_body-IsReliable,
}
use fakepostmaster.Message.Reliable.Lists.{startup_encode}
use fakepostmaster.Handler.Client.{md5_authentication_handler}
use fakepostmaster.Handler.Client.Receiving.{
  get_raw_backend_message-frame, status_frames, IsStatuses,
}
use fakepostmaster.Handler.Client.Session.{
  client_startup, md5_frame, ok_frame, client_frames, password_fits, password_frame,
  authentication_to_last, password_of,
}
use fakepostmaster.Handler.Server
use fakepostmaster.Handler.Server.{salt}
use fakepostmaster.Handler.Server.Session.{md5_authentication_handler_lem}
use fakepostmaster.Handler.Server.Transcript.{
  connection, challenge, welcome, server_version, version_status, ready,
}

module _ (B : BytesCrate) (D : Md5Crate) (debug : Bool) where
  -- With a server that asks for an MD5 password with any salt of four bytes, accepts it, reports any
  -- valid parameters that fit their frames, gives key data and is ready, the client's handler returns
  -- without an error. It has sent its startup message and the answer to that salt, and leaves what
  -- follows on the wire.
  pub md5_authentication_handler_ok :
      (salt' : List ℕ) (ps : List ParameterStatus) (key : BackendKeyData) (rest s : List ℕ)
      → IsByte4 salt'
      → IsStatuses B ps
      → IsBackendKeyData B key
      → md5_authentication_handler B D debug (
          connection
            (md5_frame B salt'
              ++ (ok_frame B
                  ++ (status_frames B ps
                      ++ (frame b'K' (backend_key_data_encode B key) ++ (ready ++ rest)))))
            s)
        ≡ (ok tt, connection rest (s ++ client_frames B D salt'))
  unfolding try_backend_key_data try_ready_for_query new_ready_for_query
  md5_authentication_handler_ok salt' ps key rest s vs vp vk =
      authentication_to_last B D debug salt' ps b'K' BackendMessageKind.backend_key_data
        (backend_key_data_encode B key) (ready ++ rest) s vs vp (omega arith) (omega arith)
        (unfold backend_kind_of in refl) tt
      ∙ rw (
        (backend_key_data_body-IsReliable B).reads_whole key vk,
        get_raw_backend_message-frame B b'Z' BackendMessageKind.ready_for_query
            (ready_for_query_encode B (new_ready_for_query idle)) rest (omega arith) (omega arith)
            (unfold backend_kind_of in refl) tt,
        (ready_for_query_body-IsReliable B).reads_whole (new_ready_for_query idle) (omega arith),
      )

  -- Both ends together: given what the client sends, the server accepts it and returns its parameters,
  -- but given what the server sends, the client fails, since the server gives no key data.
  pub md5_authentication_handler_mismatch :
      (rest : List ℕ)
      → (Server.md5_authentication_handler B
            (λ _. true)
            (connection (client_frames B D salt ++ rest) [])
          ≡ (
            ok client_startup.parameters,
            connection rest (challenge ++ welcome ++ server_version ++ ready),
          ))
        × (md5_authentication_handler B D debug
              (connection (challenge ++ welcome ++ server_version ++ ready) [])
            ≡ (err expected_backend_key_data, connection [] (client_frames B D salt)))
  unfolding try_backend_key_data
  md5_authentication_handler_mismatch rest = (
    ap (λ t. Server.md5_authentication_handler B (λ _. true) (connection t []))
          (append_assoc (request_frame (startup_encode B client_startup)) (password_frame B D salt)
            rest)
        ∙ md5_authentication_handler_lem B (λ _. true) client_startup.parameters
            (password_of (md5_answer D (codes "md5user") (codes "md5pass") salt)) rest []
            (omega arith) (omega arith)
            (md5_answer-IsText D (codes "md5user") (codes "md5pass") salt, tt)
            (password_fits B D salt),
    authentication_to_last B D debug salt (version_status ∷ []) b'Z'
        BackendMessageKind.ready_for_query (b'I' ∷ []) [] [] (refl, omega arith)
        ((omega arith, omega arith), tt) (omega arith) (omega arith)
        (unfold backend_kind_of in refl) tt,
  )
