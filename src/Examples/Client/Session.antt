-- ===== src/Examples/Client/Session.antt =====
-- `main` of examples/client.rs with a server that follows the protocol.
use fakepostmaster.Prelude.{
  true, ℕ, ◌≡◌, refl, true, List, [], ◌++◌, append-nil, length, ltb, if◌then◌else◌, Bool-cases, inl,
  inr,
}
use fakepostmaster.Outcome.{ok, err, expected_data_row}
use fakepostmaster.Buffer.{BytesCrate}
use fakepostmaster.Md5.{Md5Crate}
use fakepostmaster.Stream.Writer.Laws.{flush-open, settled}
use fakepostmaster.Types.Scalar.Laws.{IsByte4}
use fakepostmaster.Message.Backend.{ParameterStatus, BackendKeyData}
use fakepostmaster.Message.Frame.{frame}
use fakepostmaster.Message.Reliable.Backend.{IsBackendKeyData, backend_key_data_encode}
use fakepostmaster.Handler.Connection.{TcpStream, new_handler, drop_handler}
use fakepostmaster.Handler.Server.{Executed}
use fakepostmaster.Handler.Server.Answering.{answer, IsAnswer}
use fakepostmaster.Handler.Server.Transcript.{connection, ready}
use fakepostmaster.Handler.Client.Receiving.{IsStatuses, status_frames}
use fakepostmaster.Handler.Client.Session.{md5_frame, ok_frame, client_frames}
use fakepostmaster.Handler.Client.Login.{md5_authentication_handler_ok}
use fakepostmaster.Handler.Client.Asking.{query_frame, simple_query_handler_alone}
use fakepostmaster.Examples.Client.{session, main}

-- A stream that can be cloned, over a socket that takes what it is given.
abbrev pub open_stream : List ℕ → TcpStream
open_stream arriving = record { arriving = arriving; answers = []; can_clone = true }

pub drop-settled : (input s : List ℕ) → (drop_handler (connection input s)).tcp_writer.sent ≡ s
unfolding drop_handler
drop-settled input s = rw (flush-open (settled s) refl) (append-nil s)

module _ (B : BytesCrate) (D : Md5Crate) where
  abbrev pub server_says : List ℕ → List ParameterStatus → BackendKeyData → Executed → List ℕ
  server_says salt ps key result =
      md5_frame B salt
      ++ (ok_frame B
          ++ (status_frames B ps
              ++ (frame b'K' (backend_key_data_encode B key) ++ (ready ++ answer B result))))

  -- With a server that asks for an MD5 password with any salt of four bytes, accepts it, reports any
  -- valid parameters that fit their frames, gives key data and is ready, and answers the query with any
  -- valid answer: the program sends its startup message, the answer to that salt and its query, in
  -- this order, and returns without an error if the answer has a row with a column, and else fails.
  pub main_lem :
      (salt : List ℕ) (ps : List ParameterStatus) (key : BackendKeyData) (result : Executed)
      → IsByte4 salt
      → IsStatuses B ps
      → IsBackendKeyData B key
      → IsAnswer B result
      → main B D (ok (open_stream (server_says salt ps key result))) ≡ (
        (if ltb 0 (length result.1) then ok tt else err expected_data_row),
        client_frames B D salt ++ query_frame B,
      )
  unfolding main session new_handler
  main_lem salt ps key (desc, row, tag) vs vp vk va =
      let sent = client_frames B D salt in
      rw
        (
          md5_authentication_handler_ok B D true salt ps key (answer B (desc, row, tag)) [] vs vp
              vk,
          simple_query_handler_alone B desc row tag sent va,
        )
        (elim (Bool-cases (ltb 0 (length row))) [
          | inl some' ↦ rw (some', drop-settled [] (sent ++ query_frame B)) refl
          | inr none' ↦ rw (none', drop-settled ready (sent ++ query_frame B)) refl
        ])
