-- ===== src/Message/Reliable/Frontend.antt =====
-- The messages of the frontend are reliable.
use fakepostmaster.Prelude.{ℕ, refl, List, arith}
use fakepostmaster.Buffer.{BytesCrate}
use fakepostmaster.Derive.{Values}
use fakepostmaster.Derive.Laws.{Formats, IsValidStruct, encode_struct, ReadFields-ReadFieldsWhole}
use fakepostmaster.Types.Formats.{cstring_format}
use fakepostmaster.Types.Text.Laws.{cstring-ReadsBack}
use fakepostmaster.Message.Reliable.{IsReliable, derived-IsReliable}
use fakepostmaster.Message.Frontend.{PasswordMessage, Query, text_fields, password_body, query_body}

module _ (B : BytesCrate) where
  abbrev pub password_formats : Formats (text_fields B)
  password_formats = (cstring_format B, tt)

  abbrev pub password_values : PasswordMessage → Values (text_fields B)
  password_values m = (m.password, tt)

  abbrev pub IsPasswordMessage : PasswordMessage → Type 0
  IsPasswordMessage = IsValidStruct (text_fields B) password_formats password_values

  abbrev pub password_encode : PasswordMessage → List ℕ
  password_encode = encode_struct (text_fields B) password_formats password_values

  pub password_body-IsReliable : IsReliable (password_body B) b'p' IsPasswordMessage password_encode
  unfolding password_body
  password_body-IsReliable =
      derived-IsReliable b'p' (text_fields B) password_formats password_values
        (λ v. record { password = v.0 }) (omega arith) (λ s. refl)
        (ReadFields-ReadFieldsWhole (text_fields B) password_formats (cstring-ReadsBack B, tt))

  abbrev pub query_formats : Formats (text_fields B)
  query_formats = (cstring_format B, tt)

  abbrev pub query_values : Query → Values (text_fields B)
  query_values m = (m.query, tt)

  abbrev pub IsQuery : Query → Type 0
  IsQuery = IsValidStruct (text_fields B) query_formats query_values

  abbrev pub query_encode : Query → List ℕ
  query_encode = encode_struct (text_fields B) query_formats query_values

  pub query_body-IsReliable : IsReliable (query_body B) b'Q' IsQuery query_encode
  unfolding query_body
  query_body-IsReliable =
      derived-IsReliable b'Q' (text_fields B) query_formats query_values
        (λ v. record { query = v.0 }) (omega arith) (λ s. refl)
        (ReadFields-ReadFieldsWhole (text_fields B) query_formats (cstring-ReadsBack B, tt))
