-- ===== src/Handler/Server/Accepting.antt =====
-- What a client has sent that the server's handlers take.
use fakepostmaster.Prelude.{
  ℕ, ◌≡◌, refl, ap, sym, ◌∙◌, Bool, true, false, List, [], ◌∷◌, ◌++◌, if◌then◌else◌, All, arith,
}
use mathlib.Core.Path.{subst}
use fakepostmaster.Int.{IsByte, i32_to_be_bytes}
use fakepostmaster.Outcome.{Outcome, ok, err, panicked, out_of_fuel, expected_password}
use fakepostmaster.Outcome.Laws.{Returns-ok}
use fakepostmaster.Exec.{map_err}
use fakepostmaster.Exec.Laws.{continue-eq-ok, map_err_value}
use fakepostmaster.Buffer.{BytesCrate}
use fakepostmaster.Wire.Lawful.{All-back, All-front}
use fakepostmaster.Derive.{try_from_raw_message}
use fakepostmaster.Kind.Request.{
  startup_message, cancel_request, gssenc_request, ssl_request, request_code, RequestMessageKind,
}
use fakepostmaster.Message.Get.{value_of, get_request}
use fakepostmaster.Message.Raw.{RawRequest, RawFrontendMessage, first_i32}
use fakepostmaster.Message.Frame.{frame, request_frame, frame_length}
use fakepostmaster.Message.Frame.Taken.{get_request_taken, get_frontend_message_taken, returned-eq}
use fakepostmaster.Message.Startup.{StartupMessage, try_startup, read_startup}
use fakepostmaster.Message.Backend.{ParameterStatus}
use fakepostmaster.Message.Frontend.{PasswordMessage, try_password}
use fakepostmaster.Message.Canonical.{try_startup-ReadsOnly, try_password-ReadsOnly}
use fakepostmaster.Message.Reliable.Frontend.{IsPasswordMessage, password_encode}
use fakepostmaster.Message.Reliable.Lists.{IsStartup, startup_encode}
use fakepostmaster.Handler.Connection.{TcpHandler}
use fakepostmaster.Handler.Io.{get_raw_frontend_message}
use fakepostmaster.Handler.Server.{accept_client, reject_client, md5_authentication_handler}
use fakepostmaster.Handler.Server.Safety.{after_request, answer, take_answer, challenge_client}
use fakepostmaster.Handler.Server.Transcript.{
  connection, challenge, accept_client-writes, reject_client-writes, challenge-writes,
}

pub value_of-eq-ok :
    {A : Type 0} (r : Outcome (A × List ℕ)) (a : A)
    → value_of r ≡ ok a
    → (left : List ℕ) × (r ≡ ok (a, left))
value_of-eq-ok (ok (a', left)) a e = (left, ap (λ t. ok (t, left)) (cc))
value_of-eq-ok (err x) a e = cc
value_of-eq-ok (panicked p) a e = cc
value_of-eq-ok out_of_fuel a e = cc

-- The body of a frame.
pub body_bytes :
    (kind body left : List ℕ) → All IsByte (kind ++ request_frame body ++ left) → All IsByte body
body_bytes kind body left h = All-back IsByte (i32_to_be_bytes (frame_length body)) body (
    All-back IsByte kind (request_frame body)
      (All-front IsByte (kind ++ request_frame body) left h))

module _ (B : BytesCrate) where
  try_password-kind :
      (m : RawFrontendMessage) (r : PasswordMessage × List ℕ)
      → try_password B m ≡ ok r
      → m.header.message_type ≡ b'p'
  unfolding try_password try_from_raw_message
  try_password-kind m r e = ground arith

  read_startup-kind :
      (kind : RequestMessageKind) (raw_body : List ℕ) (r : StartupMessage × List ℕ)
      → read_startup B raw_body kind ≡ ok r
      → kind ≡ startup_message
  unfolding read_startup
  read_startup-kind startup_message raw_body r e = refl
  read_startup-kind cancel_request raw_body r e = cc
  read_startup-kind gssenc_request raw_body r e = cc
  read_startup-kind ssl_request raw_body r e = cc

  -- A valid startup message of version 3.0 with the parameters, and a valid password message, each in
  -- a frame of its own, come first in the input, and then what is left. A frame may hold more than its
  -- message.
  pub record LoggedIn (input : List ℕ) (parameters : List ParameterStatus) (left : List ℕ)
      : Type 0 where
    pub startup : StartupMessage
    pub password : PasswordMessage
    pub after_startup : List ℕ
    pub after_password : List ℕ
    pub parameters_are : startup.parameters ≡ parameters
    pub startup_IsStartup : IsStartup B startup
    pub version_is :
        first_i32 (startup_encode B startup ++ after_startup) ≡ ok (request_code startup_message)
    pub password_IsPassword : IsPasswordMessage B password
    pub input_is :
        input
        ≡ request_frame (startup_encode B startup ++ after_startup)
          ++ (frame b'p' (password_encode B password ++ after_password) ++ left)

  pub LoggedIn-left :
      (input : List ℕ) (parameters : List ParameterStatus) (left : List ℕ)
      → LoggedIn input parameters left
      → All IsByte input
      → All IsByte left
  LoggedIn-left input parameters left l b =
      All-back IsByte (frame b'p' (password_encode B l.password ++ l.after_password)) left (
        All-back IsByte (request_frame (startup_encode B l.startup ++ l.after_startup)) _
          (subst (All IsByte) l.input_is b))

  decided :
      (a : Bool) (ps parameters : List ParameterStatus) (left s : List ℕ) (h : TcpHandler)
      → (if a then accept_client B ps else reject_client B) (connection left s) ≡ (ok parameters, h)
      → (a ≡ true) × (ps ≡ parameters) × (h.tcp_reader ≡ left)
  decided true ps parameters left s h e =
      let e' = sym (accept_client-writes B ps left s) ∙ e in
      let (p, q) = returned-eq ps parameters _ h e' in (refl, p, ap (λ t. t.tcp_reader) (sym q))
  decided false ps parameters left s h e =
      let e' : ◌≡◌ {A = Outcome (List ParameterStatus) × TcpHandler} _ _ =
        sym (reject_client-writes B left s) ∙ e in
      absurd (cc)

  -- The message after the challenge.
  answered :
      (a : Bool) (ps parameters : List ParameterStatus) (left s : List ℕ) (h : TcpHandler)
      → All IsByte left
      → answer B a ps (connection left s) ≡ (ok parameters, h)
      → (a ≡ true)
        × (ps ≡ parameters)
        × (password : PasswordMessage) × (after : List ℕ) × IsPasswordMessage B password
        × (left ≡ frame b'p' (password_encode B password ++ after) ++ h.tcp_reader)
  answered a ps parameters left s h b e =
      let (r, left') = get_raw_frontend_message B left in
      let (raw, e₁, e₂) =
        continue-eq-ok r (take_answer B a ps) (connection left' s) parameters h e in
      let (password, e₃, e₄) =
        continue-eq-ok (map_err expected_password (value_of (try_password B raw))) _
          (connection left' s) parameters h e₂ in
      let (after, e₅) = value_of-eq-ok (try_password B raw) password (map_err_value _ _ _ e₃) in
      let (yes', same, l) = decided a ps parameters left' s h e₄ in
      let taken : left ≡ frame raw.header.message_type raw.raw_body ++ left' =
        unfold get_raw_frontend_message in
        get_frontend_message_taken B left left' raw b (λ i. (e₁ i, left')) in
      let bytes = subst (All IsByte) taken b in
      let read =
        Returns-ok
          (try_password-ReadsOnly B raw
            (body_bytes (raw.header.message_type ∷ []) raw.raw_body left' bytes))
          e₅ in
      (
        yes',
        same,
        password,
        after,
        read.0,
        taken
            ∙ ap (λ t. frame t raw.raw_body ++ left') (try_password-kind raw (password, after) e₅)
            ∙ ap (λ t. frame b'p' t ++ left') read.1
            ∙ ap (λ t. frame b'p' (password_encode B password ++ after) ++ t) (sym l),
      )

  -- After a request.
  started :
      (a : Bool) (request : RawRequest) (parameters : List ParameterStatus) (left s : List ℕ)
      (h : TcpHandler)
      → All IsByte left
      → after_request B a request (connection left s) ≡ (ok parameters, h)
      → (sm : StartupMessage) × (after : List ℕ) × (try_startup B request ≡ ok (sm, after))
        × (answer B a sm.parameters (connection left (s ++ challenge)) ≡ (ok parameters, h))
  started a request parameters left s h b e =
      let (sm, e₁, e₂) =
        continue-eq-ok (value_of (try_startup B request)) (challenge_client B a) (connection left s)
          parameters h e in
      let (after, e₃) = value_of-eq-ok (try_startup B request) sm e₁ in
      (sm, after, e₃, sym (challenge-writes B left s (answer B a sm.parameters)) ∙ e₂)

  -- If the server's authentication returns parameters, over a socket that takes what it is given, then
  -- the authentication function accepts, and the input begins with a valid startup message of version
  -- 3.0 with these parameters and a valid password message, whatever else it is made of.
  pub md5_authentication_handler-LoggedIn :
      (auth : Unit {0} → Bool) (input s : List ℕ) (parameters : List ParameterStatus)
      (h : TcpHandler)
      → All IsByte input
      → md5_authentication_handler B auth (connection input s) ≡ (ok parameters, h)
      → (auth tt ≡ true) × LoggedIn input parameters h.tcp_reader
  unfolding md5_authentication_handler
  md5_authentication_handler-LoggedIn auth input s parameters h b e =
      let (r, left) = get_request B input in
      let (request, e₁, e₂) =
        continue-eq-ok r (after_request B (auth tt)) (connection left s) parameters h e in
      let (taken, code) = get_request_taken B input left request b (λ i. (e₁ i, left)) in
      let bytes = subst (All IsByte) taken b in
      let b' = All-back IsByte (request_frame request.raw_body) left bytes in
      let (sm, after, e₃, e₄) = started (auth tt) request parameters left s h b' e₂ in
      let read =
        Returns-ok (try_startup-ReadsOnly B request (body_bytes [] request.raw_body left bytes))
          e₃ in
      let (yes', same, password, after', v, left_is) =
        answered (auth tt) sm.parameters parameters left (s ++ challenge) h b' e₄ in
      let kind : request.request_kind ≡ startup_message =
        unfold try_startup in
        read_startup-kind request.request_kind request.raw_body (sm, after) e₃ in
      (
        yes',
        record {
          startup = sm;
          password = password;
          after_startup = after;
          after_password = after';
          parameters_are = same;
          startup_IsStartup = read.0;
          version_is = ap first_i32 (sym read.1) ∙ code ∙ ap (λ t. ok (request_code t)) kind;
          password_IsPassword = v;
          input_is =
              taken
              ∙ ap (λ t. request_frame t ++ left) read.1
              ∙ ap (λ t. request_frame (startup_encode B sm ++ after) ++ t) left_is;
        },
      )
