-- ===== src/Message/Authentication.antt =====
-- src/message.rs: `AuthenticationOk` and `AuthenticationMD5Password`.
use fakepostmaster.Prelude.{ℕ, Option, none, some, List}
use fakepostmaster.Int.{ℤ, pos}
use fakepostmaster.Outcome.{Outcome, err, ◌>>=◌, impossible_from_backend}
use fakepostmaster.Buffer.{BytesCrate}
use fakepostmaster.Types.Scalar.{i32, byte4}
use fakepostmaster.Derive.{Fields, no_fields, field, serde_libpq_data}
use fakepostmaster.Kind.Backend.{BackendMessageKind}
use fakepostmaster.Kind.Authentication.{AuthenticationMessageKind, authentication_ok, md5_password}
use fakepostmaster.Message.Header.{MessageBody, message_body}
use fakepostmaster.Message.Raw.{RawBackendMessage, backend_message_kind, auth_message_kind}

pub record AuthenticationOk : Type 0 where
  pub code : ℤ

pub record AuthenticationMd5Password : Type 0 where
  pub code : ℤ
  pub salt : List ℕ

abbrev pub new_authentication_ok : AuthenticationOk
new_authentication_ok = record { code = pos 0 }

unfoldable pub new_md5_password : List ℕ → AuthenticationMd5Password
new_md5_password salt = record { code = pos 5; salt = salt }

-- `if let Some(Authentication) = …  if let Some(wanted) = …`, with the test on each.
unfoldable pub when_authentication :
    {S : Type 0}
    → Option BackendMessageKind
    → Outcome (Option AuthenticationMessageKind)
    → (AuthenticationMessageKind → Outcome (S × List ℕ))
    → Outcome (S × List ℕ)
when_authentication (some BackendMessageKind.authentication) auth read =
    auth >>= elim [ none ↦ err impossible_from_backend | some k ↦ read k ]
when_authentication other auth read = err impossible_from_backend

module _ (B : BytesCrate) where
  abbrev pub ok_fields : Fields
  ok_fields = field ℤ (i32 B) no_fields

  abbrev pub md5_fields : Fields
  md5_fields = field ℤ (i32 B) (field (List ℕ) (byte4 B) no_fields)

  unfoldable pub authentication_ok_body : MessageBody AuthenticationOk
  unfolding message_body serde_libpq_data
  authentication_ok_body =
      message_body b'R'
        (serde_libpq_data ok_fields (λ m. (m.code, tt)) (λ v. record { code = v.0 }))

  unfoldable pub md5_password_body : MessageBody AuthenticationMd5Password
  unfolding message_body serde_libpq_data
  md5_password_body = message_body b'R' (
      serde_libpq_data md5_fields (λ m. (m.code, (m.salt, tt)))
        (λ v. record { code = v.0; salt = v.1.0 }))

  unfoldable pub read_ok : List ℕ → AuthenticationMessageKind → Outcome (AuthenticationOk × List ℕ)
  unfolding authentication_ok_body
  read_ok raw_body authentication_ok = (authentication_ok_body).wire.deserialize raw_body
  read_ok raw_body other = err impossible_from_backend

  unfoldable pub read_md5 :
      List ℕ → AuthenticationMessageKind → Outcome (AuthenticationMd5Password × List ℕ)
  unfolding md5_password_body
  read_md5 raw_body md5_password = (md5_password_body).wire.deserialize raw_body
  read_md5 raw_body other = err impossible_from_backend

  -- `AuthenticationOk::try_from(&mut RawBackendMessage)`
  unfoldable pub try_authentication_ok : RawBackendMessage → Outcome (AuthenticationOk × List ℕ)
  unfolding when_authentication read_ok backend_message_kind
  try_authentication_ok m = do
    kind ← backend_message_kind m
    when_authentication kind (auth_message_kind m) (read_ok m.raw_body)

  -- `AuthenticationMD5Password::try_from(&mut RawBackendMessage)`
  unfoldable pub try_md5_password : RawBackendMessage → Outcome (AuthenticationMd5Password × List ℕ)
  unfolding when_authentication read_md5 backend_message_kind
  try_md5_password m = do
    kind ← backend_message_kind m
    when_authentication kind (auth_message_kind m) (read_md5 m.raw_body)
