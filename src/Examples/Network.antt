-- ===== src/Examples/Network.antt =====
-- The two example programs with each other, over a network that delivers their bytes in pieces.
pub mod Ends
use fakepostmaster.Prelude.{
  ℕ, ◌≡◌, ◌↔◌, refl, sym, ap, ◌∙◌, Bool, true, false, Bool-cases, inl, inr, List, [], ◌∷◌, ◌++◌,
  codes, append-nil, append_assoc, if◌then◌else◌, arith,
}
use mathlib.Core.Path.{subst}
use fakepostmaster.Outcome.{ok, err, auth_failed, unexpected_eof, error_response}
use fakepostmaster.Exec.{continue}
use fakepostmaster.Exec.Keeps.{continue-Keeps}
use fakepostmaster.Buffer.{BytesCrate}
use fakepostmaster.Md5.{Md5Crate}
use fakepostmaster.Stream.Reader.{read_exact_short}
use fakepostmaster.Stream.Writer.Keeps.{Grows, Grows-refl, Grows-trans}
use fakepostmaster.Kind.Backend.{backend_kind_of}
use fakepostmaster.Kind.Request.{startup_message}
use fakepostmaster.Message.Get.{get_backend_message, get_frontend_message}
use fakepostmaster.Message.Raw.{backend_message_kind}
use fakepostmaster.Message.Errors.{ErrorResponse, new_error_response, try_error_response}
use fakepostmaster.Message.Frame.{request_frame, get_request-frame, get_backend_message-frame}
use fakepostmaster.Message.Frontend.Laws.{md5_answer, md5_answer-IsText}
use fakepostmaster.Message.Startup.{try_startup}
use fakepostmaster.Message.Reliable.Lists.{
  startup_encode, startup-ReadsBackWhole, error_response_body-IsReliable, error_response_encode,
}
use fakepostmaster.Handler.Io.{get_raw_backend_message, get_raw_frontend_message, unless_error}
use fakepostmaster.Handler.Io.Causal.{WroteMore, WroteMore-IsPreorder}
use fakepostmaster.Handler.Network.{
  Arrived, sends, Step, to_server, to_client, Steps, stay, go, Reached, IsQuiet,
}
use fakepostmaster.Handler.Network.Laws.{Behind, Reached-converges}
use fakepostmaster.Handler.Server as ServerHandler
use fakepostmaster.Handler.Server.{Executor, salt}
use fakepostmaster.Handler.Server.Session.{
  md5_authentication_handler_lem, md5_authentication_handler_asks,
}
use fakepostmaster.Handler.Server.Transcript.{
  connection, challenge, welcome, server_version, ready, refusal, challenge-writes,
}
use fakepostmaster.Handler.Client as ClientHandler
use fakepostmaster.Handler.Client.Safety.{
  Disclosed, withheld, asked, challenged, md5_authentication_handler-Disclosed,
}
use fakepostmaster.Handler.Client.Session.{
  client_startup, client_frames, password_frame, password_of, password_fits,
}
use fakepostmaster.Handler.Client.Login.{md5_authentication_handler_mismatch}
use fakepostmaster.Handler.Client.Causal as ClientCausal
use fakepostmaster.Examples.Server
use fakepostmaster.Examples.Server.{answer_queries}
use fakepostmaster.Examples.Server.Answers.{eof}
use fakepostmaster.Examples.Client
use fakepostmaster.Examples.Causal.{server-Causal, client-Causal}
use fakepostmaster.Examples.Network.Ends.{
  startup_frame, server_frames, server_asks, server_answers, client_answers, client_fails,
  session-sends, session_starts,
}

module _ (B : BytesCrate) (D : Md5Crate) where
  abbrev pub last_arrived : Bool → Arrived
  last_arrived accepted = record {
    at_server = client_frames B D salt;
    at_client = server_frames accepted;
  }

  module _ (auth : Unit {0} → Bool) (execute : Executor) where
    last_arrived-IsQuiet :
        IsQuiet (Server.session B auth execute) (Client.session B D) (last_arrived (auth tt))
    last_arrived-IsQuiet = (sym (client_fails B D (auth tt)), sym (server_answers B D auth execute))

    -- The client has answered the challenge.
    answered_arrived :
        Reached
          (Server.session B auth execute)
          (Client.session B D)
          (record { at_server = client_frames B D salt; at_client = challenge })
    answered_arrived =
        go
          (go
            (go stay (
              to_server (record { at_server = []; at_client = [] }) (startup_frame B D)
                (session_starts B D)))
            (to_client (record { at_server = startup_frame B D; at_client = [] }) challenge
              (rw (server_asks B D auth execute) (Grows-refl challenge))))
          (to_server (record { at_server = startup_frame B D; at_client = challenge })
            (password_frame B D salt)
            (subst (λ t. Grows t (sends (Client.session B D) challenge)) (client_answers B D)
              (session-sends B D challenge)))

    -- What is left for the server to send then.
    abbrev decision : Bool → List ℕ
    decision accepted = if accepted then welcome ++ server_version ++ ready else refusal

    challenge-decision : (accepted : Bool) → challenge ++ decision accepted ≡ server_frames accepted
    challenge-decision true = refl
    challenge-decision false = refl

    last_arrived-Reached :
        Reached (Server.session B auth execute) (Client.session B D) (last_arrived (auth tt))
    last_arrived-Reached =
        subst
          (λ t.
            Reached (Server.session B auth execute) (Client.session B D)
              (record { at_server = client_frames B D salt; at_client = t }))
          (challenge-decision (auth tt))
          (go answered_arrived (
            to_client _ (decision (auth tt)) (
              subst (Grows (challenge ++ decision (auth tt)))
                (challenge-decision (auth tt) ∙ sym (server_answers B D auth execute))
                (Grows-refl _))))

    -- The two example programs with each other, over sockets that take what they are given: whatever
    -- the authentication function and the executor are, and in whatever pieces and order the bytes of
    -- the two ends arrive, each end receives a beginning of what it receives where nothing is on its
    -- way any more, the conversation can always go on to there, and it stops nowhere else. There the
    -- server has received the client's startup message and its answer to the salt, and no query; and
    -- the client has received the challenge and, as the function answers, the acceptance or the error.
    pub session-converges :
        (a : Arrived)
        → Reached (Server.session B auth execute) (Client.session B D) a
        → Behind a (last_arrived (auth tt))
          × Steps (Server.session B auth execute) (Client.session B D) a (last_arrived (auth tt))
          × (IsQuiet (Server.session B auth execute) (Client.session B D) a
              ↔ (a ≡ last_arrived (auth tt)))
    session-converges a r =
        let (behind, steps, unique) =
          Reached-converges (Server.session B auth execute) (Client.session B D)
            (server-Causal B execute auth) (client-Causal B D) (last_arrived (auth tt)) a
            last_arrived-Reached last_arrived-IsQuiet r in
        (
          behind,
          steps,
          (
            unique,
            λ e.
                subst (IsQuiet (Server.session B auth execute) (Client.session B D)) (sym e)
                  last_arrived-IsQuiet,
          ),
        )
