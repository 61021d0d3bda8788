-- ===== src/Handler/RoundTrip.antt =====
-- What one end puts is what the other end gets, and turns back into the message.
use fakepostmaster.Prelude.{ℕ, ◌≡◌, refl, sym, List, [], ◌++◌, arith}
use mathlib.Core.Path.{subst}
use fakepostmaster.Outcome.{Outcome, ok, impossible_from_backend, impossible_from_frontend}
use fakepostmaster.Exec.{◌>>=◌, lift}
use fakepostmaster.Buffer.{BytesCrate}
use fakepostmaster.Stream.Writer.Laws.{settled}
use fakepostmaster.Types.Scalar.Laws.{IsByte4}
use fakepostmaster.Message.Header.{MessageBody}
use fakepostmaster.Message.Raw.{RawBackendMessage, RawFrontendMessage}
use fakepostmaster.Message.Get.{get_backend_message, get_frontend_message}
use fakepostmaster.Message.Authentication.{
  AuthenticationOk, AuthenticationMd5Password, new_authentication_ok, new_md5_password,
  authentication_ok_body, md5_password_body, try_authentication_ok, try_md5_password,
}
use fakepostmaster.Message.Backend.{
  BackendKeyData, CommandComplete, ParameterStatus, ReadyForQuery, backend_key_data_body,
  command_complete_body, parameter_status_body, ready_for_query_body, try_backend_key_data,
  try_command_complete, try_parameter_status, try_ready_for_query,
}
use fakepostmaster.Message.Errors.{ErrorResponse, error_response_body, try_error_response}
use fakepostmaster.Message.Row.{
  RowDescription, DataRow, row_description_body, data_row_body, try_row_description, try_data_row,
}
use fakepostmaster.Message.Frontend.{
  PasswordMessage, Query, password_body, query_body, try_password, try_query,
}
use fakepostmaster.Message.Frame.{
  FitsFrame, raw_backend, raw_frontend, get_backend_message-frame, get_frontend_message-frame,
}
use fakepostmaster.Message.Reliable.{IsReliable, try_from-encode}
use fakepostmaster.Message.Reliable.Backend.{
  IsBackendKeyData, IsCommandComplete, IsParameterStatus, IsReadyForQuery, authentication_ok_encode,
  md5_password_encode, backend_key_data_encode, command_complete_encode, parameter_status_encode,
  ready_for_query_encode, authentication_ok_body-IsReliable, md5_password_body-IsReliable,
  backend_key_data_body-IsReliable, command_complete_body-IsReliable,
  parameter_status_body-IsReliable, ready_for_query_body-IsReliable,
}
use fakepostmaster.Message.Reliable.Lists.{
  IsErrorResponse, error_response_encode, error_response_body-IsReliable,
}
use fakepostmaster.Message.Reliable.Rows.{
  IsRowDescription, IsDataRow, row_description_encode, data_row_encode,
  row_description_body-IsReliable, data_row_body-IsReliable,
}
use fakepostmaster.Message.Reliable.Frontend.{
  IsPasswordMessage, IsQuery, password_encode, query_encode, password_body-IsReliable,
  query_body-IsReliable,
}
use fakepostmaster.Handler.Io.{put_message_and_flush}
use fakepostmaster.Handler.Io.Laws.{put_message_and_flush-open}
use fakepostmaster.Handler.Client.Session.{read_md5_frame, read_ok_frame}

-- A message: how it is sent, how it is turned back from its raw form, what can be sent, and the body.
pub record Message (Raw : Type 0) : Type 1 where
  pub Value : Type 0
  pub body : MessageBody Value
  pub try : Raw → Outcome (Value × List ℕ)
  pub IsSendable : Value → Type 0
  pub encode : Value → List ℕ

-- The messages of the server.
pub data Backend : Type 0 where
  acceptance challenge key_data completion status readiness failure description data_row : Backend

-- The messages of the client.
pub data Frontend : Type 0 where
  password query : Frontend

module _ (B : BytesCrate) where
  -- Those of authentication are the ones that `new` makes.
  abbrev pub backend : Backend → Message RawBackendMessage
  backend acceptance = record {
    Value = AuthenticationOk;
    body = authentication_ok_body B;
    try = try_authentication_ok B;
    IsSendable = λ m. m ≡ new_authentication_ok;
    encode = authentication_ok_encode B;
  }
  backend challenge = record {
    Value = AuthenticationMd5Password;
    body = md5_password_body B;
    try = try_md5_password B;
    IsSendable = λ m. (salt : List ℕ) × IsByte4 salt × (m ≡ new_md5_password salt);
    encode = md5_password_encode B;
  }
  backend key_data = record {
    Value = BackendKeyData;
    body = backend_key_data_body B;
    try = try_backend_key_data B;
    IsSendable = IsBackendKeyData B;
    encode = backend_key_data_encode B;
  }
  backend completion = record {
    Value = CommandComplete;
    body = command_complete_body B;
    try = try_command_complete B;
    IsSendable = IsCommandComplete B;
    encode = command_complete_encode B;
  }
  backend status = record {
    Value = ParameterStatus;
    body = parameter_status_body B;
    try = try_parameter_status B;
    IsSendable = IsParameterStatus B;
    encode = parameter_status_encode B;
  }
  backend readiness = record {
    Value = ReadyForQuery;
    body = ready_for_query_body B;
    try = try_ready_for_query B;
    IsSendable = IsReadyForQuery B;
    encode = ready_for_query_encode B;
  }
  backend failure = record {
    Value = ErrorResponse;
    body = error_response_body B;
    try = try_error_response B;
    IsSendable = IsErrorResponse B;
    encode = error_response_encode B;
  }
  backend description = record {
    Value = RowDescription;
    body = row_description_body B;
    try = try_row_description B;
    IsSendable = IsRowDescription B;
    encode = row_description_encode B;
  }
  backend data_row = record {
    Value = DataRow;
    body = data_row_body B;
    try = try_data_row B;
    IsSendable = IsDataRow B;
    encode = data_row_encode B;
  }

  abbrev pub frontend : Frontend → Message RawFrontendMessage
  frontend password = record {
    Value = PasswordMessage;
    body = password_body B;
    try = try_password B;
    IsSendable = IsPasswordMessage B;
    encode = password_encode B;
  }
  frontend query = record {
    Value = Query;
    body = query_body B;
    try = try_query B;
    IsSendable = IsQuery B;
    encode = query_encode B;
  }

  -- What is sent arrives, with `rest` behind it, is taken whole and turned back.
  abbrev pub ArrivesAtClient : (k : Backend) → (backend k).Value → List ℕ → Type 0
  ArrivesAtClient k a rest =
      (get_backend_message B >>= λ raw. lift ((backend k).try raw))
        ((put_message_and_flush B (backend k).body a (settled [])).1.sent ++ rest)
      ≡ (ok (a, []), rest)

  abbrev pub ArrivesAtServer : (k : Frontend) → (frontend k).Value → List ℕ → Type 0
  ArrivesAtServer k a rest =
      (get_frontend_message B >>= λ raw. lift ((frontend k).try raw))
        ((put_message_and_flush B (frontend k).body a (settled [])).1.sent ++ rest)
      ≡ (ok (a, []), rest)

  module _ {A : Type 0} (m : MessageBody A) {kind : ℕ} {IsValid : A → Type 0} {encode : A → List ℕ}
      (R : IsReliable m kind IsValid encode) (a : A) (rest : List ℕ) (v : IsValid a)
      (h : FitsFrame (encode a)) where
    backend-arrives :
        (try : RawBackendMessage → Outcome (A × List ℕ))
        → try (raw_backend kind (encode a)) ≡ ok (a, [])
        → (get_backend_message B >>= λ raw. lift (try raw))
            ((put_message_and_flush B m a (settled [])).1.sent ++ rest)
          ≡ (ok (a, []), rest)
    backend-arrives try t = rw (
      put_message_and_flush-open B m R a (settled []) v h refl,
      get_backend_message-frame B kind (encode a) rest R.kind_IsByte h,
      t,
    )

    frontend-arrives :
        (try : RawFrontendMessage → Outcome (A × List ℕ))
        → try (raw_frontend kind (encode a)) ≡ ok (a, [])
        → (get_frontend_message B >>= λ raw. lift (try raw))
            ((put_message_and_flush B m a (settled [])).1.sent ++ rest)
          ≡ (ok (a, []), rest)
    frontend-arrives try t = rw (
      put_message_and_flush-open B m R a (settled []) v h refl,
      get_frontend_message-frame B kind (encode a) rest R.kind_IsByte h,
      t,
    )

  at_client :
      (k : Backend) (a : (backend k).Value) (rest : List ℕ)
      → (backend k).IsSendable a
      → FitsFrame ((backend k).encode a)
      → ArrivesAtClient k a rest
  unfolding new_md5_password try_backend_key_data try_command_complete try_parameter_status
      try_ready_for_query try_error_response try_row_description try_data_row
  at_client acceptance a rest v h =
      subst (λ t. ArrivesAtClient acceptance t rest) (sym v)
        (backend-arrives (authentication_ok_body B) (authentication_ok_body-IsReliable B)
          new_authentication_ok rest (omega arith) (omega arith) _ (read_ok_frame B))
  at_client challenge a rest (salt, v, e) h =
      subst (λ t. ArrivesAtClient challenge t rest) (sym e)
        (backend-arrives (md5_password_body B) (md5_password_body-IsReliable B)
          (new_md5_password salt) rest (omega arith, (v, tt))
          (subst (λ t. FitsFrame (md5_password_encode B t)) e h) _ (read_md5_frame B salt v))
  at_client key_data a rest v h =
      let R = backend_key_data_body-IsReliable B in
      backend-arrives _ R a rest v h _ (try_from-encode B _ R impossible_from_backend a v)
  at_client completion a rest v h =
      let R = command_complete_body-IsReliable B in
      backend-arrives _ R a rest v h _ (try_from-encode B _ R impossible_from_backend a v)
  at_client status a rest v h =
      let R = parameter_status_body-IsReliable B in
      backend-arrives _ R a rest v h _ (try_from-encode B _ R impossible_from_backend a v)
  at_client readiness a rest v h =
      let R = ready_for_query_body-IsReliable B in
      backend-arrives _ R a rest v h _ (try_from-encode B _ R impossible_from_backend a v)
  at_client failure a rest v h =
      let R = error_response_body-IsReliable B in
      backend-arrives _ R a rest v h _ (try_from-encode B _ R impossible_from_backend a v)
  at_client description a rest v h =
      let R = row_description_body-IsReliable B in
      backend-arrives _ R a rest v h _ (try_from-encode B _ R impossible_from_backend a v)
  at_client data_row a rest v h =
      let R = data_row_body-IsReliable B in
      backend-arrives _ R a rest v h _ (try_from-encode B _ R impossible_from_backend a v)

  at_server :
      (k : Frontend) (a : (frontend k).Value) (rest : List ℕ)
      → (frontend k).IsSendable a
      → FitsFrame ((frontend k).encode a)
      → ArrivesAtServer k a rest
  unfolding try_password try_query
  at_server password a rest v h =
      let R = password_body-IsReliable B in
      frontend-arrives _ R a rest v h _ (try_from-encode B _ R impossible_from_frontend a v)
  at_server query a rest v h =
      let R = query_body-IsReliable B in
      frontend-arrives _ R a rest v h _ (try_from-encode B _ R impossible_from_frontend a v)

  -- Every message of the server and every message of the client that is valid and fits a frame, those
  -- of authentication as `new` makes them, is what the other end's `get` and the message's own
  -- `try_from` make of what `put_message_and_flush` sends for it, over a socket that takes what it is
  -- given; nothing of its body is left, and what follows it is left on the wire.
  pub get_message-put_message_and_flush :
      (k : Backend) (a : (backend k).Value) (k' : Frontend) (a' : (frontend k').Value)
      (rest : List ℕ)
      → (backend k).IsSendable a
      → FitsFrame ((backend k).encode a)
      → (frontend k').IsSendable a'
      → FitsFrame ((frontend k').encode a')
      → ArrivesAtClient k a rest × ArrivesAtServer k' a' rest
  get_message-put_message_and_flush k a k' a' rest v h v' h' =
      (at_client k a rest v h, at_server k' a' rest v' h')
