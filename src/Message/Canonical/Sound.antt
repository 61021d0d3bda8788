-- ===== src/Message/Canonical/Sound.antt =====
-- A server's message that is turned into a value is of the value's kind, and the value is valid.
use fakepostmaster.Prelude.{ℕ, ◌≡◌, List, All, arith}
use fakepostmaster.Int.{IsByte}
use fakepostmaster.Outcome.{Outcome, Error, ok}
use fakepostmaster.Outcome.Laws.{Returns-ok}
use fakepostmaster.Buffer.{BytesCrate}
use fakepostmaster.Wire.{Wire}
use fakepostmaster.Wire.Lawful.{IsCanonical}
use fakepostmaster.Derive.{try_from_raw_message}
use fakepostmaster.Types.Scalar.Laws.{IsByte4}
use fakepostmaster.Types.Counted.Reading.{Taken, Takes, Encodes, IsCanonical-Takes}
use fakepostmaster.Prelude.{refl}
use fakepostmaster.Message.Row.{
  row_description_body, data_row_body, try_row_description, try_data_row,
}
use fakepostmaster.Message.Canonical.Rows.{
  DescriptionReads, RowReads, row_description_body-Takes, data_row_body-Takes,
}
use fakepostmaster.Message.Raw.{RawBackendMessage}
use fakepostmaster.Message.Authentication.{
  AuthenticationMd5Password, new_authentication_ok, new_md5_password, try_authentication_ok,
  try_md5_password,
}
use fakepostmaster.Message.Backend.{
  backend_key_data_body, command_complete_body, parameter_status_body, ready_for_query_body,
  try_backend_key_data, try_command_complete, try_parameter_status, try_ready_for_query,
}
use fakepostmaster.Message.Canonical.Authentication.{
  ReadOrShort-ok, authentication-ReadsOnly, try_authentication_ok-kind, try_md5_password-kind,
}
use fakepostmaster.Message.Canonical.Bodies.{
  backend_key_data_body-IsCanonical, command_complete_body-IsCanonical,
  parameter_status_body-IsCanonical, ready_for_query_body-IsCanonical,
}
use fakepostmaster.Message.Reliable.Backend.{
  authentication_ok_encode, md5_password_encode, IsBackendKeyData, backend_key_data_encode,
  IsCommandComplete, command_complete_encode, IsParameterStatus, parameter_status_encode,
  IsReadyForQuery, ready_for_query_encode,
}

-- A message that is turned into a value is of the kind, and an encoding of the value is taken.
pub record Sound {A : Type 0} (try : RawBackendMessage → Outcome (A × List ℕ)) (kind : ℕ)
    (Reads : List ℕ → A → Type 0) : Type 0 where
  pub reads_only :
      (m : RawBackendMessage) (r : A × List ℕ)
      → All IsByte m.raw_body
      → try m ≡ ok r
      → (m.header.message_type ≡ kind) × Taken Reads m.raw_body r

module _ {A : Type 0} (x : Error) (kind : ℕ) (w : Wire A) where
  of_its_kind :
      (message_type : ℕ) (raw_body : List ℕ) (r : A × List ℕ)
      → try_from_raw_message x kind w message_type raw_body ≡ ok r
      → (message_type ≡ kind) × (w.deserialize raw_body ≡ ok r)
  unfolding try_from_raw_message
  of_its_kind message_type raw_body r e = ground arith

  derived-Sound :
      (Reads : List ℕ → A → Type 0)
      → Takes w Reads
      → Sound (λ m. try_from_raw_message x kind w m.header.message_type m.raw_body) kind Reads
  derived-Sound Reads c = record {
    reads_only = λ m r b e.
        let (k, e') = of_its_kind m.header.message_type m.raw_body r e in
        (k, Returns-ok (c m.raw_body b) e');
  }

  canonical-Sound :
      (IsValid : A → Type 0) (encode : A → List ℕ)
      → IsCanonical w IsValid encode
      → Sound
          (λ m. try_from_raw_message x kind w m.header.message_type m.raw_body)
          kind
          (Encodes IsValid encode)
  canonical-Sound IsValid encode c = derived-Sound _ (IsCanonical-Takes w IsValid encode c)

module _ (B : BytesCrate) where
  pub try_backend_key_data-Sound :
      Sound (try_backend_key_data B) b'K' (Encodes (IsBackendKeyData B) (backend_key_data_encode B))
  unfolding try_backend_key_data
  try_backend_key_data-Sound =
      canonical-Sound _ b'K' (backend_key_data_body B).wire _ _
        (backend_key_data_body-IsCanonical B)

  pub try_command_complete-Sound :
      Sound
        (try_command_complete B)
        b'C'
        (Encodes (IsCommandComplete B) (command_complete_encode B))
  unfolding try_command_complete
  try_command_complete-Sound =
      canonical-Sound _ b'C' (command_complete_body B).wire _ _
        (command_complete_body-IsCanonical B)

  pub try_parameter_status-Sound :
      Sound
        (try_parameter_status B)
        b'S'
        (Encodes (IsParameterStatus B) (parameter_status_encode B))
  unfolding try_parameter_status
  try_parameter_status-Sound =
      canonical-Sound _ b'S' (parameter_status_body B).wire _ _
        (parameter_status_body-IsCanonical B)

  pub try_ready_for_query-Sound :
      Sound (try_ready_for_query B) b'Z' (Encodes (IsReadyForQuery B) (ready_for_query_encode B))
  unfolding try_ready_for_query
  try_ready_for_query-Sound =
      canonical-Sound _ b'Z' (ready_for_query_body B).wire _ _ (ready_for_query_body-IsCanonical B)

  pub try_authentication_ok-Sound :
      Sound
        (try_authentication_ok B)
        b'R'
        (Encodes (λ m. m ≡ new_authentication_ok) (authentication_ok_encode B))
  try_authentication_ok-Sound = record {
    reads_only = λ m r b e.
        let (v, s) = ReadOrShort-ok (authentication-ReadsOnly B m b).0 e in
        (try_authentication_ok-kind B m r e, (authentication_ok_encode B r.0, (v, refl), s));
  }

  -- A challenge with a salt of four bytes.
  abbrev pub IsMd5Challenge : AuthenticationMd5Password → Type 0
  IsMd5Challenge m = (salt : List ℕ) × IsByte4 salt × (m ≡ new_md5_password salt)

  pub try_md5_password-Sound :
      Sound (try_md5_password B) b'R' (Encodes IsMd5Challenge (md5_password_encode B))
  try_md5_password-Sound = record {
    reads_only = λ m r b e.
        let (salt, v, s, t) = ReadOrShort-ok (authentication-ReadsOnly B m b).1 e in
        (try_md5_password-kind B m r e, (md5_password_encode B r.0, ((salt, v, s), refl), t));
  }

  pub try_row_description-Sound : Sound (try_row_description B) b'T' (DescriptionReads B)
  unfolding try_row_description
  try_row_description-Sound =
      derived-Sound _ b'T' (row_description_body B).wire _ (row_description_body-Takes B)

  pub try_data_row-Sound : Sound (try_data_row B) b'D' (RowReads B)
  unfolding try_data_row
  try_data_row-Sound = derived-Sound _ b'D' (data_row_body B).wire _ (data_row_body-Takes B)
