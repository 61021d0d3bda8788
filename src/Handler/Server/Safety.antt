-- ===== src/Handler/Server/Safety.antt =====
-- `md5_authentication_handler` with any client.
use fakepostmaster.Prelude.{ℕ, ◌≡◌, refl, Bool, true, false, List, ◌++◌, if◌then◌else◌}
use fakepostmaster.Outcome.{Outcome, ok, err, auth_failed, expected_password}
use fakepostmaster.Exec.{Exec, ◌>>=◌, ◌>>◌, lift, map_err}
use fakepostmaster.Exec.Laws.{IsFailure, continue_cases}
use fakepostmaster.Exec.Ends.{value_of-Ends, map_err-Ends}
use fakepostmaster.Buffer.{BytesCrate}
use fakepostmaster.Message.Get.{value_of, get_request}
use fakepostmaster.Message.Raw.{RawRequest, RawFrontendMessage}
use fakepostmaster.Message.Startup.{StartupMessage, try_startup}
use fakepostmaster.Message.Authentication.{new_md5_password, md5_password_body}
use fakepostmaster.Message.Frontend.{try_password}
use fakepostmaster.Message.Backend.{ParameterStatus}
use fakepostmaster.Handler.Connection.{TcpHandler, reading, writing}
use fakepostmaster.Handler.Io.{get_raw_frontend_message, put_message_and_flush}
use fakepostmaster.Message.Ends.{try_password-Ends, try_startup-Ends}
use fakepostmaster.Handler.Io.Ends.{get_raw_frontend_message-Ends, get_request-Ends}
use fakepostmaster.Handler.Server.{salt, accept_client, reject_client, md5_authentication_handler}
use fakepostmaster.Handler.Server.Transcript.{
  connection, challenge, welcome, server_version, ready, refusal, accept_client-writes,
  reject_client-writes, challenge-writes,
}

-- How a call of the handler can end, where `s` is what the server had sent before: it fails before
-- or after the challenge; or it has challenged the client and read a password, and the answer
-- of the authentication function decides.
pub data Ending (accepted : Bool) (s : List ℕ)
    : Outcome (List ParameterStatus) × TcpHandler → Type 0 where
  no_startup :
      (r : Outcome (List ParameterStatus)) (input : List ℕ)
      → IsFailure r
      → Ending accepted s (r, connection input s)
  no_password :
      (r : Outcome (List ParameterStatus)) (input : List ℕ)
      → IsFailure r
      → Ending accepted s (r, connection input (s ++ challenge))
  welcomed :
      (parameters : List ParameterStatus) (input : List ℕ)
      → accepted ≡ true
      → Ending accepted s
          (ok parameters, connection input (s ++ challenge ++ welcome ++ server_version ++ ready))
  turned_away :
      (input : List ℕ)
      → accepted ≡ false
      → Ending accepted s (err auth_failed, connection input (s ++ challenge ++ refusal))

module _ (B : BytesCrate) where
  -- After a password, the answer of the authentication function decides.
  decide :
      (a : Bool) (parameters : List ParameterStatus) (s input : List ℕ)
      → Ending a s (
          (if a then accept_client B parameters else reject_client B)
            (connection input (s ++ challenge)))
  decide true parameters s input =
      rw (accept_client-writes B parameters input (s ++ challenge)) (welcomed parameters input refl)
  decide false parameters s input =
      rw (reject_client-writes B input (s ++ challenge)) (turned_away input refl)

  -- What the server does with the message that follows the challenge.
  abbrev pub take_answer :
      Bool → List ParameterStatus → RawFrontendMessage → Exec TcpHandler (List ParameterStatus)
  take_answer a parameters raw_message = do
    password_message ← lift (map_err expected_password (value_of (try_password B raw_message)))
    if a then accept_client B parameters else reject_client B

  take_answer-Ending :
      (a : Bool) (parameters : List ParameterStatus) (s input : List ℕ) (raw : RawFrontendMessage)
      → Ending a s (take_answer a parameters raw (connection input (s ++ challenge)))
  take_answer-Ending a parameters s input raw =
      continue_cases (Ending a s) (map_err expected_password (value_of (try_password B raw)))
        (λ password_message. if a then accept_client B parameters else reject_client B)
        (connection input (s ++ challenge))
        (map_err-Ends _ _ (value_of-Ends _ (try_password-Ends B raw)))
        (λ password. decide a parameters s input) (λ r f. no_password r input f)

  abbrev pub answer : Bool → List ParameterStatus → Exec TcpHandler (List ParameterStatus)
  answer a parameters = reading (get_raw_frontend_message B) >>= take_answer a parameters

  answer-Ending :
      (a : Bool) (parameters : List ParameterStatus) (s input : List ℕ)
      → Ending a s (answer a parameters (connection input (s ++ challenge)))
  answer-Ending a parameters s input =
      let (r, left) = get_raw_frontend_message B input in
      continue_cases (Ending a s) r (take_answer a parameters) (connection left (s ++ challenge))
        (get_raw_frontend_message-Ends B input) (λ raw. take_answer-Ending a parameters s left raw)
        (λ r' f. no_password r' left f)

  challenge-Ending :
      (a : Bool) (s input : List ℕ) (next : Exec TcpHandler (List ParameterStatus))
      → ((input' : List ℕ) → Ending a s (next (connection input' (s ++ challenge))))
      → Ending a s (
          (writing (put_message_and_flush B (md5_password_body B) (new_md5_password salt)) >> next)
            (connection input s))
  challenge-Ending a s input next h = rw (challenge-writes B input s next) (h input)

  abbrev pub challenge_client : Bool → StartupMessage → Exec TcpHandler (List ParameterStatus)
  challenge_client a sm =
      writing (put_message_and_flush B (md5_password_body B) (new_md5_password salt))
      >> answer a sm.parameters

  abbrev pub after_request : Bool → RawRequest → Exec TcpHandler (List ParameterStatus)
  after_request a request = lift (value_of (try_startup B request)) >>= challenge_client a

  after_request-Ending :
      (a : Bool) (s input : List ℕ) (request : RawRequest)
      → Ending a s (after_request a request (connection input s))
  after_request-Ending a s input request =
      continue_cases (Ending a s) (value_of (try_startup B request)) (challenge_client a)
        (connection input s) (value_of-Ends _ (try_startup-Ends B request))
        (λ sm.
          challenge-Ending a s input (answer a sm.parameters) (answer-Ending a sm.parameters s))
        (λ r f. no_startup r input f)

  -- Whatever the client sends, over a socket that takes what it is given, a call of the handler ends in
  -- one of four ways. It fails or panics with nothing more sent, or with the challenge sent; or it
  -- has challenged the client and returns, with the acceptance sent, and the authentication function
  -- accepts; or it has challenged the client and fails, with the error sent, and the function does not
  -- accept.
  pub md5_authentication_handler-Ending :
      (auth : Unit {0} → Bool) (input s : List ℕ)
      → Ending (auth tt) s (md5_authentication_handler B auth (connection input s))
  unfolding md5_authentication_handler
  md5_authentication_handler-Ending auth input s =
      let (r, left) = get_request B input in
      continue_cases (Ending (auth tt) s) r (after_request (auth tt)) (connection left s)
        (get_request-Ends B input) (λ request. after_request-Ending (auth tt) s left request)
        (λ r' f. no_startup r' left f)
