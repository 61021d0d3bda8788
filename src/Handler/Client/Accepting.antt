-- ===== src/Handler/Client/Accepting.antt =====
-- What a server has sent that the client's `md5_authentication_handler` takes for a login.
use fakepostmaster.Prelude.{
  Bool, ℕ, suc, ◌≡◌, ap, ◌∙◌, List, [], ◌∷◌, ◌++◌, length, All, concat_map, codes,
}
use mathlib.Core.Path.{subst}
use fakepostmaster.Int.{IsByte}
use fakepostmaster.Outcome.{
  ok, expected_md5_password, expected_authentication_ok, expected_backend_key_data,
  expected_ready_for_query,
}
use fakepostmaster.Exec.{map_err}
use fakepostmaster.Exec.Laws.{continue-eq-ok, map_err_value}
use fakepostmaster.Buffer.{BytesCrate}
use fakepostmaster.Md5.{Md5Crate}
use fakepostmaster.Wire.Lawful.{All-back}
use fakepostmaster.Types.Scalar.Laws.{IsByte4}
use fakepostmaster.Types.Text.{cstring_new}
use fakepostmaster.Message.Get.{value_of}
use fakepostmaster.Message.Raw.{RawBackendMessage}
use fakepostmaster.Message.Authentication.{new_authentication_ok, new_md5_password}
use fakepostmaster.Message.Backend.{
  BackendKeyData, ReadyForQuery, try_backend_key_data, new_parameter_status,
}
use fakepostmaster.Message.Canonical.Sound.{
  try_authentication_ok-Sound, try_md5_password-Sound, try_backend_key_data-Sound,
  try_ready_for_query-Sound,
}
use fakepostmaster.Message.Frame.{frame}
use fakepostmaster.Message.Reliable.Backend.{
  authentication_ok_encode, md5_password_encode, IsBackendKeyData, backend_key_data_encode,
  IsReadyForQuery, ready_for_query_encode,
}
use fakepostmaster.Message.Startup.{startup}
use fakepostmaster.Message.Frontend.{new_from_user_password, password_body}
use fakepostmaster.Handler.Io.{put_request, put_message_and_flush, get_raw_backend_message}
use fakepostmaster.Handler.Client.Session.{client_startup, finish}
use fakepostmaster.Handler.Connection.{TcpHandler}
use fakepostmaster.Handler.Client.{skip_parameters, md5_authentication_handler}
use fakepostmaster.Handler.Client.Safety.{wait}
use fakepostmaster.Handler.Client.Taking.{
  turned, received, get_raw_backend_message_taken, StatusRead, skip_parameters-Skipped,
}
use fakepostmaster.Handler.Server.Accepting.{body_bytes}

module _ (B : BytesCrate) (D : Md5Crate) (debug : Bool) where
  -- Key data and the ready message, each in a frame that may hold more.
  pub record Finished (input left : List ℕ) : Type 0 where
    pub key : BackendKeyData
    pub ready : ReadyForQuery
    pub after_key : List ℕ
    pub after_ready : List ℕ
    pub key_IsKey : IsBackendKeyData B key
    pub ready_IsReady : IsReadyForQuery B ready
    pub input_is :
        input
        ≡ frame b'K' (backend_key_data_encode B key ++ after_key)
          ++ (frame b'Z' (ready_for_query_encode B ready ++ after_ready) ++ left)

  finish-Finished :
      (m : RawBackendMessage) (h h' : TcpHandler)
      → All IsByte m.raw_body
      → All IsByte h.tcp_reader
      → finish B D m h ≡ (ok tt, h')
      → Finished (frame m.header.message_type m.raw_body ++ h.tcp_reader) h'.tcp_reader
  finish-Finished m h h' b bs e =
      let (key, e₁, e₂) =
        continue-eq-ok (map_err expected_backend_key_data (value_of (try_backend_key_data B m))) _ h
          tt h' e in
      let (after_key, v, s) =
        turned B (try_backend_key_data-Sound B) m key h.tcp_reader b (map_err_value _ _ _ e₁) in
      let (ready, after_ready, left, v', s', b', e₃) =
        received B (try_ready_for_query-Sound B) expected_ready_for_query _ h h' tt bs e₂ in
      record {
        key = key;
        ready = ready;
        after_key = after_key;
        after_ready = after_ready;
        key_IsKey = v;
        ready_IsReady = v';
        input_is =
            s
            ∙ ap (λ t. frame b'K' (backend_key_data_encode B key ++ after_key) ++ t) s'
            ∙ ap
                (λ t.
                  frame b'K' (backend_key_data_encode B key ++ after_key)
                  ++ (frame b'Z' (ready_for_query_encode B ready ++ after_ready) ++ t))
                (ap (λ r. r.1.tcp_reader) e₃);
      }

  -- The acceptance, parameters, key data and the ready message.
  pub record Waited (input left : List ℕ) : Type 0 where
    pub after_ok : List ℕ
    pub statuses : List (List ℕ)
    pub statuses_read : All (StatusRead B debug) statuses
    pub last : List ℕ
    pub input_is :
        input
        ≡ frame b'R' (authentication_ok_encode B new_authentication_ok ++ after_ok)
          ++ (concat_map (frame b'S') statuses ++ last)
    pub finished : Finished last left

  wait-Waited :
      (h h' : TcpHandler)
      → All IsByte h.tcp_reader
      → wait B D debug h ≡ (ok tt, h')
      → Waited h.tcp_reader h'.tcp_reader
  wait-Waited h h' b e =
      let (done, after_ok, left, v, s, b', e₁) =
        received B (try_authentication_ok-Sound B) expected_authentication_ok _ h h' tt b e in
      let h₁ = record h { tcp_reader = left } in
      let (r, left₁) = get_raw_backend_message B left in
      let h₂ = record h { tcp_reader = left₁ } in
      let (first, e₂, e₃) = continue-eq-ok r _ h₂ tt h' e₁ in
      let taken = get_raw_backend_message_taken B left left₁ first b' (λ i. (e₂ i, left₁)) in
      let bytes = subst (All IsByte) taken b' in
      let (r', h₃) = skip_parameters B debug (suc (length left₁)) first h₂ in
      let (m, e₄, e₅) = continue-eq-ok r' (finish B D) h₃ tt h' e₃ in
      let skipped =
        skip_parameters-Skipped B debug (suc (length left₁)) first m h₂ h₃
          (body_bytes (first.header.message_type ∷ []) first.raw_body left₁ bytes)
          (All-back IsByte (frame first.header.message_type first.raw_body) left₁ bytes)
          (λ i. (e₄ i, h₃)) in
      record {
        after_ok = after_ok;
        statuses = skipped.statuses;
        statuses_read = skipped.statuses_read;
        last = frame m.header.message_type m.raw_body ++ h₃.tcp_reader;
        input_is =
            s
            ∙ ap (λ t. frame b'R' (authentication_ok_encode B t ++ after_ok) ++ left) v
            ∙ ap
                (λ t.
                  frame b'R' (authentication_ok_encode B new_authentication_ok ++ after_ok) ++ t)
                (taken ∙ skipped.input_is);
        finished = finish-Finished m h₃ h' skipped.body_IsByte skipped.left_IsByte e₅;
      }

  -- A challenge with a salt of four bytes comes first in the input, in a frame that may hold more; then
  -- the acceptance, parameters, valid key data and a valid ready message; and then what is left.
  pub record Welcomed (input left : List ℕ) : Type 0 where
    pub salt : List ℕ
    pub after_challenge : List ℕ
    pub salt_IsByte4 : IsByte4 salt
    pub behind : List ℕ
    pub input_is :
        input
        ≡ frame b'R' (md5_password_encode B (new_md5_password salt) ++ after_challenge) ++ behind
    pub waited : Waited behind left

  -- If the client's authentication returns without an error, over any socket, then the input began with
  -- a challenge with a salt, the acceptance, any number of messages with the type byte of a parameter,
  -- valid key data and a valid ready message, in this order and each in a frame of its own, whatever
  -- else it is made of. Where DEBUG events are enabled, each of the parameters is valid.
  pub md5_authentication_handler-Welcomed :
      (h h' : TcpHandler)
      → All IsByte h.tcp_reader
      → md5_authentication_handler B D debug h ≡ (ok tt, h')
      → Welcomed h.tcp_reader h'.tcp_reader
  unfolding md5_authentication_handler new_parameter_status cstring_new
  md5_authentication_handler-Welcomed h h' b e =
      let (r, w) = put_request B (startup B) client_startup h.tcp_writer in
      let h₁ = record h { tcp_writer = w } in
      let (sent, d₁, e₁) = continue-eq-ok r _ h₁ tt h' e in
      let (message, after, left, (salt, v, same), s, b', e₂) =
        received B (try_md5_password-Sound B) expected_md5_password _ h₁ h' tt b e₁ in
      let h₂ = record h₁ { tcp_reader = left } in
      let (password, d₂, e₃) =
        continue-eq-ok (new_from_user_password D (codes "md5user") (codes "md5pass") message.salt) _
          h₂ tt h' e₂ in
      let (r', w') = put_message_and_flush B (password_body B) password w in
      let h₃ = record h₂ { tcp_writer = w' } in
      let (answered, d₃, e₄) = continue-eq-ok r' (λ _. wait B D debug) h₃ tt h' e₃ in
      record {
        salt = salt;
        after_challenge = after;
        salt_IsByte4 = v;
        behind = left;
        input_is = s ∙ ap (λ t. frame b'R' (md5_password_encode B t ++ after) ++ left) same;
        waited = wait-Waited h₃ h' b' e₄;
      }
