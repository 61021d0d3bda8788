-- ===== src/Handler/Client/Safety.antt =====
-- `md5_authentication_handler` of the client with any server.
use fakepostmaster.Prelude.{
  Bool, ℕ, suc, ◌≡◌, ◌≢◌, refl, sym, ap, ◌∙◌, List, ◌++◌, append-nil, append_assoc, length, codes,
  arith,
}
use fakepostmaster.Outcome.{
  Outcome, ok, err, panicked, out_of_fuel, expected_md5_password, expected_authentication_ok,
}
use fakepostmaster.Exec.{Exec, continue, ◌>>=◌, ◌>>◌, lift, map_err}
use fakepostmaster.Exec.Ends.{Ends, value_of-Ends, Consumes-Ends}
use fakepostmaster.Exec.Keeps.{IsPreorder, Keeps, keeps_rules}
use fakepostmaster.Exec.Laws.{IsFailure}
use fakepostmaster.Buffer.{BytesCrate}
use fakepostmaster.Md5.{Md5Crate}
use fakepostmaster.Types.Text.{cstring_new}
use fakepostmaster.Stream.Reader.{BufReader}
use fakepostmaster.Stream.Writer.Laws.{settled}
use fakepostmaster.Message.Get.{value_of}
use fakepostmaster.Message.Raw.{RawBackendMessage}
use fakepostmaster.Message.Authentication.{
  AuthenticationMd5Password, try_authentication_ok, try_md5_password,
}
use fakepostmaster.Message.Backend.{new_parameter_status}
use fakepostmaster.Message.Frame.{request_frame}
use fakepostmaster.Message.Frame.Taken.{returned-eq}
use fakepostmaster.Message.Ends.{try_md5_password-Ends}
use fakepostmaster.Message.Frontend.{new_from_user_password, password_body}
use fakepostmaster.Message.Frontend.Laws.{md5_answer, md5_answer-IsText, new_from_user_password_lem}
use fakepostmaster.Message.Reliable.Frontend.{password_body-IsReliable}
use fakepostmaster.Message.Reliable.Lists.{startup_encode, startup-IsSized}
use fakepostmaster.Handler.Connection.{TcpHandler, reading, writing}
use fakepostmaster.Handler.Io.{get_raw_backend_message, put_message_and_flush}
use fakepostmaster.Handler.Io.Ends.{get_raw_backend_message-Consumes}
use fakepostmaster.Handler.Io.Laws.{put_request-open, then_flush}
use fakepostmaster.Handler.Client.{skip_parameters, md5_authentication_handler}
use fakepostmaster.Types.Scalar.Laws.{IsByte4}
use fakepostmaster.Kind.Backend.{BackendMessageKind, backend_kind_of}
use fakepostmaster.Message.Reliable.Backend.{md5_password_encode}
use fakepostmaster.Handler.Client.Receiving.{get_raw_backend_message-frame}
use fakepostmaster.Handler.Client.Keeps.{skip-Keeps}
use fakepostmaster.Handler.Client.Session.{
  client_startup, client_frames, password_frame, password_of, password_fits, finish, md5_of,
  md5_frame, md5_fits, read_md5_frame,
}
use fakepostmaster.Handler.Server.Transcript.{connection}

-- Steps that write nothing.
abbrev Silent : TcpHandler → TcpHandler → Type 0
Silent h h' = h'.tcp_writer ≡ h.tcp_writer

instance abbrev Silent-IsPreorder : IsPreorder Silent
Silent-IsPreorder = record { unchanged = λ h. refl; changed_twice = λ g h i p q. q ∙ p }

reading-Silent : {A : Type 0} (r : Exec BufReader A) → Keeps Silent (reading r)
reading-Silent r = record { at = λ h. refl }

failed_else :
    {A : Type 0} (r : Outcome A) (left : List ℕ) (a : A) (left' : List ℕ)
    → IsFailure r
    → ◌≡◌ {A = Outcome A × List ℕ} (r, left) (ok a, left')
    → ⊥
failed_else (ok x) left a left' f e = f
failed_else (err x) left a left' f e = cc
failed_else (panicked p) left a left' f e = cc
failed_else out_of_fuel left a left' f e = f

failed_value : {A : Type 0} (r : Outcome A) (a : A) → IsFailure r → r ≢ ok a
failed_value (ok x) a f e = f
failed_value (err x) a f e = cc
failed_value (panicked p) a f e = cc
failed_value out_of_fuel a f e = f

-- The first message in the input is no MD5 challenge.
abbrev Unasked : BytesCrate → List ℕ → Type 0
Unasked B input =
    (m : RawBackendMessage) (left : List ℕ) (message : AuthenticationMd5Password)
    → get_raw_backend_message B input ≡ (ok m, left)
    → value_of (try_md5_password B m) ≢ ok message

-- What the client has sent when its authentication has ended with a result: its startup message only,
-- and it fails, if the first message that it could read was no MD5 challenge; and its answer to the
-- salt too, if it was an MD5 challenge with that salt.
pub data Disclosed (B : BytesCrate) (D : Md5Crate) (input s : List ℕ)
    (result : Outcome (Unit {0}) × TcpHandler) : Type 0 where
  withheld :
      IsFailure result.0
      → result.1.tcp_writer ≡ settled (s ++ request_frame (startup_encode B client_startup))
      → Unasked B input
      → Disclosed B D input s result
  asked :
      (m : RawBackendMessage) (left : List ℕ) (message : AuthenticationMd5Password)
      → get_raw_backend_message B input ≡ (ok m, left)
      → value_of (try_md5_password B m) ≡ ok message
      → result.1.tcp_writer ≡ settled (s ++ client_frames B D message.salt)
      → Disclosed B D input s result

module _ (B : BytesCrate) where
  message-Silent : Keeps Silent (reading (get_raw_backend_message B))
  message-Silent = reading-Silent (get_raw_backend_message B)

  module _ (D : Md5Crate) (debug : Bool) where
    -- What the client does after its password.
    abbrev pub wait : Exec TcpHandler (Unit {0})
    wait = do
      raw_message' ← reading (get_raw_backend_message B)
      done ←
          lift
            (map_err expected_authentication_ok (value_of (try_authentication_ok B raw_message')))
      first ← reading (get_raw_backend_message B)
      rest ← λ h. skip_parameters B debug (suc (length h.tcp_reader)) first h
      finish B D rest

    wait-Silent : Keeps Silent wait
    wait-Silent = search (keeps_rules, message-Silent, skip-Keeps B message-Silent debug) depth 40

    abbrev answer_challenge : AuthenticationMd5Password → Exec TcpHandler (Unit {0})
    answer_challenge message = do
      password ← lift (new_from_user_password D (codes "md5user") (codes "md5pass") message.salt)
      writing (put_message_and_flush B (password_body B) password)
      wait

    answer_challenge-wait :
        (message : AuthenticationMd5Password) (left t : List ℕ)
        → answer_challenge message (connection left t)
          ≡ wait (connection left (t ++ password_frame B D message.salt))
    answer_challenge-wait message left t =
        rw ((new_from_user_password_lem D (codes "md5user") (codes "md5pass") message.salt).0) (
          then_flush B (password_body B) (password_body-IsReliable B)
            (password_of (md5_answer D (codes "md5user") (codes "md5pass") message.salt))
            (connection left t) wait _
            (md5_answer-IsText D (codes "md5user") (codes "md5pass") message.salt, tt)
            (password_fits B D message.salt) refl (rw append-nil))

    answer_challenge-writes :
        (message : AuthenticationMd5Password) (left t : List ℕ)
        → (answer_challenge message (connection left t)).1.tcp_writer
          ≡ settled (t ++ password_frame B D message.salt)
    answer_challenge-writes message left t =
        ap (λ r. r.1.tcp_writer) (answer_challenge-wait message left t)
        ∙ wait-Silent.at (connection left (t ++ password_frame B D message.salt))

    -- The client waits for more once it has answered a challenge.
    pub challenged :
        (salt rest s : List ℕ)
        → IsByte4 salt
        → md5_authentication_handler B D debug (connection (md5_frame B salt ++ rest) s)
          ≡ wait (connection rest (s ++ client_frames B D salt))
    unfolding md5_authentication_handler new_parameter_status cstring_new
    challenged salt rest s v =
        rw
          (
            put_request-open B _ (startup-IsSized B) client_startup (settled s) (omega arith)
                (omega arith) refl,
            get_raw_backend_message-frame B b'R' BackendMessageKind.authentication
                (md5_password_encode B (md5_of salt)) rest (omega arith) (md5_fits B salt v)
                (unfold backend_kind_of in refl) tt,
            read_md5_frame B salt v,
            append-nil s,
          )
          (answer_challenge-wait (md5_of salt) rest
              (s ++ request_frame (startup_encode B client_startup))
            ∙ ap (λ t. wait (connection rest t))
                (append_assoc s (request_frame (startup_encode B client_startup))
                  (password_frame B D salt)))

    abbrev take_challenge : RawBackendMessage → Exec TcpHandler (Unit {0})
    take_challenge m =
        lift (map_err expected_md5_password (value_of (try_md5_password B m))) >>= answer_challenge

    module _ (input s : List ℕ) where
      abbrev started : List ℕ
      started = s ++ request_frame (startup_encode B client_startup)

      -- No message could be read.
      unread :
          (r : Outcome RawBackendMessage) (left : List ℕ)
          → get_raw_backend_message B input ≡ (r, left)
          → IsFailure r
          → Unasked B input
      unread r left e f m left' message e' q = failed_else r left m left' f (sym e ∙ e')

      -- A message could be read, and is no challenge.
      unasked :
          (m : RawBackendMessage) (left : List ℕ) (r : Outcome AuthenticationMd5Password)
          → get_raw_backend_message B input ≡ (ok m, left)
          → value_of (try_md5_password B m) ≡ r
          → IsFailure r
          → Unasked B input
      unasked m left r e t f m' left' message e' q =
          let (same, _) = returned-eq m m' left left' (sym e ∙ e') in
          failed_value r message f (sym t ∙ ap (λ k. value_of (try_md5_password B k)) same ∙ q)

      take_challenge-Disclosed :
          (m : RawBackendMessage) (left : List ℕ) (r : Outcome AuthenticationMd5Password)
          → get_raw_backend_message B input ≡ (ok m, left)
          → value_of (try_md5_password B m) ≡ r
          → Ends r
          → Disclosed B D input s (
              continue (map_err expected_md5_password r) answer_challenge (connection left started))
      take_challenge-Disclosed m left (ok message) e t h = asked m left message e t (
          answer_challenge-writes message left started
          ∙ ap settled (append_assoc s _ (password_frame B D message.salt)))
      take_challenge-Disclosed m left (err x) e t h =
          withheld tt refl (unasked m left (err x) e t tt)
      take_challenge-Disclosed m left (panicked p) e t h =
          withheld tt refl (unasked m left (panicked p) e t tt)
      take_challenge-Disclosed m left out_of_fuel e t h = absurd h

      reads-Disclosed :
          (r : Outcome RawBackendMessage) (left : List ℕ)
          → get_raw_backend_message B input ≡ (r, left)
          → Ends r
          → Disclosed B D input s (continue r take_challenge (connection left started))
      reads-Disclosed (ok m) left e h =
          take_challenge-Disclosed m left (value_of (try_md5_password B m)) e refl
            (value_of-Ends _ (try_md5_password-Ends B m))
      reads-Disclosed (err x) left e h = withheld tt refl (unread (err x) left e tt)
      reads-Disclosed (panicked p) left e h = withheld tt refl (unread (panicked p) left e tt)
      reads-Disclosed out_of_fuel left e h = absurd h

      -- Whatever the server sends, over a socket that takes what it is given, the client sends its
      -- startup message. If the first message that it reads is an MD5 challenge, it sends its answer to
      -- the salt of this challenge too, and nothing else; if not, it sends nothing else and fails.
      pub md5_authentication_handler-Disclosed :
          Disclosed B D input s (md5_authentication_handler B D debug (connection input s))
      unfolding md5_authentication_handler new_parameter_status cstring_new
      md5_authentication_handler-Disclosed =
          rw
            (
              put_request-open B _ (startup-IsSized B) client_startup (settled s) (omega arith)
                  (omega arith) refl,
              append-nil s,
            )
            (reads-Disclosed _ _ refl
              (Consumes-Ends 5 input _ _ (get_raw_backend_message-Consumes B input)))
