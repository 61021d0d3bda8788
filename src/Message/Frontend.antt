-- ===== src/Message/Frontend.antt =====
-- src/message.rs: `PasswordMessage` and `Query`.
pub mod Laws
use fakepostmaster.Prelude.{ℕ, List, ◌++◌, codes}
use fakepostmaster.Outcome.{Outcome, ok, ◌>>=◌, impossible_from_frontend}
use fakepostmaster.Buffer.{BytesCrate}
use fakepostmaster.Md5.{Md5Crate}
use fakepostmaster.Types.Text.{cstring, cstring_new}
use fakepostmaster.Derive.{Fields, no_fields, field, serde_libpq_data, try_from_raw_message}
use fakepostmaster.Message.Header.{MessageBody, message_body}
use fakepostmaster.Message.Raw.{RawFrontendMessage}

pub record PasswordMessage : Type 0 where
  pub password : List ℕ

pub record Query : Type 0 where
  pub query : List ℕ

unfoldable pub new_password : List ℕ → Outcome PasswordMessage
new_password password = do s ← cstring_new password; ok (record { password = s })

unfoldable pub new_query : List ℕ → Outcome Query
new_query query = do s ← cstring_new query; ok (record { query = s })

module _ (D : Md5Crate) where
  open D use {new, update, finalize, lower_hex}

  unfoldable pub new_from_user_password : List ℕ → List ℕ → List ℕ → Outcome PasswordMessage
  new_from_user_password user password salt =
      let hash = finalize (update (update new password) user) in
      let hash' = finalize (update (update new (lower_hex hash)) salt) in
      new_password (codes "md5" ++ lower_hex hash')

module _ (B : BytesCrate) where
  abbrev pub text_fields : Fields
  text_fields = field (List ℕ) (cstring B) no_fields

  unfoldable pub password_body : MessageBody PasswordMessage
  unfolding message_body serde_libpq_data
  password_body =
      message_body b'p'
        (serde_libpq_data text_fields (λ m. (m.password, tt)) (λ v. record { password = v.0 }))

  unfoldable pub query_body : MessageBody Query
  unfolding message_body serde_libpq_data
  query_body =
      message_body b'Q'
        (serde_libpq_data text_fields (λ m. (m.query, tt)) (λ v. record { query = v.0 }))

  unfoldable pub try_password : RawFrontendMessage → Outcome (PasswordMessage × List ℕ)
  unfolding try_from_raw_message
  try_password m =
      try_from_raw_message impossible_from_frontend b'p' (password_body).wire m.header.message_type
        m.raw_body

  unfoldable pub try_query : RawFrontendMessage → Outcome (Query × List ℕ)
  unfolding try_from_raw_message
  try_query m =
      try_from_raw_message impossible_from_frontend b'Q' (query_body).wire m.header.message_type
        m.raw_body
