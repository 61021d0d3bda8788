-- ===== src/Handler/Io.antt =====
-- src/handler/mod.rs: `LibPqReader` for `BufReader`, and `LibPqWriter` for `BufWriter`.
pub mod Laws
pub mod Ends
pub mod Keeps
pub mod Progress
pub mod Causal
use fakepostmaster.Prelude.{ℕ, Option, none, some, List, []}
use fakepostmaster.Int.{pos, add_i32}
use fakepostmaster.Outcome.{Outcome, error_response}
use fakepostmaster.Exec.{Exec, ◌>>=◌, ◌>>◌, pure, lift, throw}
use fakepostmaster.Buffer.{BytesCrate}
use fakepostmaster.Wire.{Wire}
use fakepostmaster.Stream.Reader.{BufReader}
use fakepostmaster.Stream.Writer.{BufWriter, write, flush}
use fakepostmaster.Kind.Backend.{BackendMessageKind}
use fakepostmaster.Message.Header.{MessageBody, new_raw_header_from_body}
use fakepostmaster.Message.Raw.{RawBackendMessage, RawFrontendMessage, backend_message_kind}
use fakepostmaster.Message.Get.{value_of, get_backend_message, get_frontend_message}
use fakepostmaster.Message.Errors.{ErrorResponse, try_error_response}

module _ (B : BytesCrate) where
  -- `if let Some(ErrorResponse) = …  { …; Err(…) } else { Ok(raw_message) }`
  unfoldable pub unless_error :
      RawBackendMessage → Option BackendMessageKind → Exec BufReader RawBackendMessage
  unless_error m (some BackendMessageKind.error_response) = do
    error ← lift (value_of (try_error_response B m))
    throw error_response
  unless_error m other = pure m

  unfoldable pub get_raw_backend_message : Exec BufReader RawBackendMessage
  unfolding unless_error
  get_raw_backend_message = do
    m ← get_backend_message B
    kind ← lift (backend_message_kind m)
    unless_error m kind

  unfoldable pub get_raw_frontend_message : Exec BufReader RawFrontendMessage
  get_raw_frontend_message = get_frontend_message B

  module _ {A : Type 0} (m : MessageBody A) where
    -- The number of bytes that `write` took is not looked at.
    unfoldable pub put_message : A → Exec BufWriter (Unit {0})
    put_message msg = do
      let buffer = m.wire.serialize msg (new_raw_header_from_body B m [] msg)
      taken ← write buffer
      pure tt

    unfoldable pub put_message_and_flush : A → Exec BufWriter (Unit {0})
    put_message_and_flush msg = do put_message msg; flush

  unfoldable pub put_request : {A : Type 0} → Wire A → A → Exec BufWriter (Unit {0})
  put_request w msg = do
    let buffer = w.serialize msg (B.put_i32 [] (add_i32 (w.byte_size msg) (pos 4)))
    taken ← write buffer
    flush
