-- ===== src/Examples/Network/Ends.antt =====
-- What each of the two example programs has sent at the points of their conversation.
use fakepostmaster.Prelude.{
  ℕ, ◌≡◌, refl, sym, ap, ◌∙◌, Bool, true, false, Bool-cases, inl, inr, List, [], ◌∷◌, ◌++◌, codes,
  append-nil, append_assoc, if◌then◌else◌, arith,
}
use fakepostmaster.Outcome.{err, error_response}
use fakepostmaster.Exec.Keeps.{continue-Keeps}
use fakepostmaster.Buffer.{BytesCrate}
use fakepostmaster.Md5.{Md5Crate}
use fakepostmaster.Stream.Reader.{read_exact_short}
use fakepostmaster.Stream.Writer.Keeps.{Grows, Grows-trans}
use fakepostmaster.Kind.Backend.{backend_kind_of}
use fakepostmaster.Message.Get.{get_backend_message}
use fakepostmaster.Message.Raw.{backend_message_kind}
use fakepostmaster.Message.Errors.{ErrorResponse, new_error_response, try_error_response}
use fakepostmaster.Message.Frame.{request_frame, get_backend_message-frame}
use fakepostmaster.Message.Frontend.Laws.{md5_answer, md5_answer-IsText}
use fakepostmaster.Message.Reliable.Lists.{
  startup_encode, error_response_body-IsReliable, error_response_encode,
}
use fakepostmaster.Handler.Io.{get_raw_backend_message, unless_error}
use fakepostmaster.Handler.Io.Causal.{WroteMore, WroteMore-IsPreorder}
use fakepostmaster.Handler.Network.{sends}
use fakepostmaster.Handler.Server.{Executor, salt}
use fakepostmaster.Handler.Server.Session.{
  md5_authentication_handler_lem, md5_authentication_handler_asks,
}
use fakepostmaster.Handler.Server.Transcript.{
  connection, challenge, welcome, server_version, ready, refusal,
}
use fakepostmaster.Handler.Client as ClientHandler
use fakepostmaster.Handler.Client.Safety.{
  withheld, asked, challenged, md5_authentication_handler-Disclosed,
}
use fakepostmaster.Handler.Client.Session.{
  client_startup, client_frames, password_frame, password_of, password_fits,
}
use fakepostmaster.Handler.Client.Login.{md5_authentication_handler_mismatch}
use fakepostmaster.Handler.Client.Causal as ClientCausal
use fakepostmaster.Examples.Server
use fakepostmaster.Examples.Server.{answer_queries}
use fakepostmaster.Examples.Server.Answers.{eof}
use fakepostmaster.Examples.Client

abbrev pub server_frames : Bool → List ℕ
server_frames accepted =
    if accepted then challenge ++ welcome ++ server_version ++ ready else challenge ++ refusal

module _ (B : BytesCrate) (D : Md5Crate) where
  abbrev pub startup_frame : List ℕ
  startup_frame = request_frame (startup_encode B client_startup)

  module _ (auth : Unit {0} → Bool) (execute : Executor) where
    -- The server challenges a client that has sent its startup message, and waits.
    pub server_asks : sends (Server.session B auth execute) startup_frame ≡ challenge
    unfolding Server.session
    server_asks =
        ap (λ t. sends (Server.session B auth execute) t) (sym (append-nil startup_frame))
        ∙ rw (
          sends,
          md5_authentication_handler_asks B auth client_startup.parameters [] (omega arith)
              (omega arith),
        )

    -- All that the server sends, once it has all that the client sends.
    pub server_answers :
        sends (Server.session B auth execute) (client_frames B D salt) ≡ server_frames (auth tt)
    unfolding Server.session answer_queries
    server_answers =
        ap (sends (Server.session B auth execute)) (
          sym (append-nil (client_frames B D salt))
          ∙ append_assoc startup_frame (password_frame B D salt) [])
        ∙ rw
            (
              sends,
              md5_authentication_handler_lem B auth client_startup.parameters
                  (password_of (md5_answer D (codes "md5user") (codes "md5pass") salt)) [] []
                  (omega arith) (omega arith)
                  (md5_answer-IsText D (codes "md5user") (codes "md5pass") salt, tt)
                  (password_fits B D salt),
            )
            (elim (Bool-cases (auth tt)) [
              | inl yes' ↦
                  rw (yes', eof B execute (challenge ++ welcome ++ server_version ++ ready)) refl
              | inr no' ↦ rw no' refl
            ])

  abbrev refusal_message : ErrorResponse
  refusal_message =
      new_error_response (record { code = b'M'; message = codes "Incorrect password or user" } ∷ [])

  -- What the client makes of the server's refusal.
  get_refusal : get_raw_backend_message B refusal ≡ (err error_response, [])
  unfolding get_raw_backend_message backend_message_kind backend_kind_of unless_error
      try_error_response
  get_refusal = rw (
    get_backend_message-frame B b'E' (error_response_encode B refusal_message) [] (omega arith)
        (omega arith),
    (error_response_body-IsReliable B).reads_whole refusal_message (omega arith),
  )

  -- The client has the challenge, and waits.
  pub client_answers :
      sends (ClientHandler.md5_authentication_handler B D true) challenge ≡ client_frames B D salt
  unfolding get_raw_backend_message get_backend_message
  client_answers = rw (
    sends,
    challenged B D true salt [] [] (refl, omega arith),
    read_exact_short 5 [] (omega arith),
  )

  -- The client fails once it has all that the server sends.
  pub client_fails :
      (accepted : Bool)
      → sends (Client.session B D) (server_frames accepted) ≡ client_frames B D salt
  unfolding Client.session
  client_fails true = rw (sends, (md5_authentication_handler_mismatch B D true []).1)
  client_fails false =
      rw (sends, challenged B D true salt refusal [] (refl, omega arith), get_refusal)

  -- The client has sent what it sends for its authentication.
  pub session-sends :
      (i : List ℕ)
      → Grows
          (sends (ClientHandler.md5_authentication_handler B D true) i)
          (sends (Client.session B D) i)
  unfolding Client.session
  session-sends i =
      let (r, h) = ClientHandler.md5_authentication_handler B D true (connection i []) in
      (continue-Keeps {R = WroteMore} r (λ _. ClientHandler.simple_query_handler B) h h
        (WroteMore-IsPreorder.unchanged h)
        (λ _. (ClientCausal.simple_query_handler-Causal B).keeps)).sent_grows

  -- The client opens the conversation.
  client_starts : Grows startup_frame (sends (ClientHandler.md5_authentication_handler B D true) [])
  client_starts = elim (md5_authentication_handler-Disclosed B D true [] []) [
    | withheld f e n ↦ ([], ap (λ w. w.sent) e ∙ sym (append-nil startup_frame))
    | asked m left message e e' w ↦ (password_frame B D message.salt, ap (λ t. t.sent) w)
  ]

  pub session_starts : Grows startup_frame (sends (Client.session B D) [])
  session_starts =
      Grows-trans startup_frame (sends (ClientHandler.md5_authentication_handler B D true) [])
        (sends (Client.session B D) []) client_starts (session-sends [])
