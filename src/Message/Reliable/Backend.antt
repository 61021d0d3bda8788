-- ===== src/Message/Reliable/Backend.antt =====
-- The messages of the backend with fields of fixed types are reliable.
use fakepostmaster.Prelude.{ℕ, refl, List, arith}
use fakepostmaster.Buffer.{BytesCrate}
use fakepostmaster.Derive.{Values}
use fakepostmaster.Derive.Laws.{Formats, IsValidStruct, encode_struct, ReadFields-ReadFieldsWhole}
use fakepostmaster.Types.Formats.{i32_format, byte_format, byte4_format, cstring_format}
use fakepostmaster.Types.Scalar.Laws.{i32-ReadsBack, byte-ReadsBack, byte4-ReadsBack}
use fakepostmaster.Types.Text.Laws.{cstring-ReadsBack}
use fakepostmaster.Message.Reliable.{IsReliable, derived-IsReliable}
use fakepostmaster.Message.Authentication.{
  AuthenticationOk, AuthenticationMd5Password, ok_fields, md5_fields, authentication_ok_body,
  md5_password_body,
}
use fakepostmaster.Message.Backend.{
  BackendKeyData, CommandComplete, ParameterStatus, ReadyForQuery, key_fields, text_fields,
  status_fields, ready_fields, backend_key_data_body, command_complete_body, parameter_status_body,
  ready_for_query_body,
}

module _ (B : BytesCrate) where
  abbrev pub authentication_ok_formats : Formats (ok_fields B)
  authentication_ok_formats = (i32_format B, tt)

  abbrev pub authentication_ok_values : AuthenticationOk → Values (ok_fields B)
  authentication_ok_values m = (m.code, tt)

  abbrev pub IsAuthenticationOk : AuthenticationOk → Type 0
  IsAuthenticationOk =
      IsValidStruct (ok_fields B) authentication_ok_formats authentication_ok_values

  abbrev pub authentication_ok_encode : AuthenticationOk → List ℕ
  authentication_ok_encode =
      encode_struct (ok_fields B) authentication_ok_formats authentication_ok_values

  pub authentication_ok_body-IsReliable :
      IsReliable (authentication_ok_body B) b'R' IsAuthenticationOk authentication_ok_encode
  unfolding authentication_ok_body
  authentication_ok_body-IsReliable =
      derived-IsReliable b'R' (ok_fields B) authentication_ok_formats authentication_ok_values
        (λ v. record { code = v.0 }) (omega arith) (λ s. refl)
        (ReadFields-ReadFieldsWhole (ok_fields B) authentication_ok_formats (i32-ReadsBack B, tt))

  abbrev pub md5_password_formats : Formats (md5_fields B)
  md5_password_formats = (i32_format B, (byte4_format B, tt))

  abbrev pub md5_password_values : AuthenticationMd5Password → Values (md5_fields B)
  md5_password_values m = (m.code, (m.salt, tt))

  abbrev pub IsAuthenticationMd5Password : AuthenticationMd5Password → Type 0
  IsAuthenticationMd5Password =
      IsValidStruct (md5_fields B) md5_password_formats md5_password_values

  abbrev pub md5_password_encode : AuthenticationMd5Password → List ℕ
  md5_password_encode = encode_struct (md5_fields B) md5_password_formats md5_password_values

  pub md5_password_body-IsReliable :
      IsReliable (md5_password_body B) b'R' IsAuthenticationMd5Password md5_password_encode
  unfolding md5_password_body
  md5_password_body-IsReliable =
      derived-IsReliable b'R' (md5_fields B) md5_password_formats md5_password_values
        (λ v. record { code = v.0; salt = v.1.0 }) (omega arith) (λ s. refl)
        (ReadFields-ReadFieldsWhole (md5_fields B) md5_password_formats
          (i32-ReadsBack B, (byte4-ReadsBack B, tt)))

  abbrev pub backend_key_data_formats : Formats (key_fields B)
  backend_key_data_formats = (i32_format B, (i32_format B, tt))

  abbrev pub backend_key_data_values : BackendKeyData → Values (key_fields B)
  backend_key_data_values m = (m.process_id, (m.secret_key, tt))

  abbrev pub IsBackendKeyData : BackendKeyData → Type 0
  IsBackendKeyData = IsValidStruct (key_fields B) backend_key_data_formats backend_key_data_values

  abbrev pub backend_key_data_encode : BackendKeyData → List ℕ
  backend_key_data_encode =
      encode_struct (key_fields B) backend_key_data_formats backend_key_data_values

  pub backend_key_data_body-IsReliable :
      IsReliable (backend_key_data_body B) b'K' IsBackendKeyData backend_key_data_encode
  unfolding backend_key_data_body
  backend_key_data_body-IsReliable =
      derived-IsReliable b'K' (key_fields B) backend_key_data_formats backend_key_data_values
        (λ v. record { process_id = v.0; secret_key = v.1.0 }) (omega arith) (λ s. refl)
        (ReadFields-ReadFieldsWhole (key_fields B) backend_key_data_formats
          (i32-ReadsBack B, (i32-ReadsBack B, tt)))

  abbrev pub command_complete_formats : Formats (text_fields B)
  command_complete_formats = (cstring_format B, tt)

  abbrev pub command_complete_values : CommandComplete → Values (text_fields B)
  command_complete_values m = (m.command_tag, tt)

  abbrev pub IsCommandComplete : CommandComplete → Type 0
  IsCommandComplete = IsValidStruct (text_fields B) command_complete_formats command_complete_values

  abbrev pub command_complete_encode : CommandComplete → List ℕ
  command_complete_encode =
      encode_struct (text_fields B) command_complete_formats command_complete_values

  pub command_complete_body-IsReliable :
      IsReliable (command_complete_body B) b'C' IsCommandComplete command_complete_encode
  unfolding command_complete_body
  command_complete_body-IsReliable =
      derived-IsReliable b'C' (text_fields B) command_complete_formats command_complete_values
        (λ v. record { command_tag = v.0 }) (omega arith) (λ s. refl)
        (ReadFields-ReadFieldsWhole (text_fields B) command_complete_formats
          (cstring-ReadsBack B, tt))

  abbrev pub parameter_status_formats : Formats (status_fields B)
  parameter_status_formats = (cstring_format B, (cstring_format B, tt))

  abbrev pub parameter_status_values : ParameterStatus → Values (status_fields B)
  parameter_status_values m = (m.name, (m.value, tt))

  abbrev pub IsParameterStatus : ParameterStatus → Type 0
  IsParameterStatus =
      IsValidStruct (status_fields B) parameter_status_formats parameter_status_values

  abbrev pub parameter_status_encode : ParameterStatus → List ℕ
  parameter_status_encode =
      encode_struct (status_fields B) parameter_status_formats parameter_status_values

  pub parameter_status_body-IsReliable :
      IsReliable (parameter_status_body B) b'S' IsParameterStatus parameter_status_encode
  unfolding parameter_status_body
  parameter_status_body-IsReliable =
      derived-IsReliable b'S' (status_fields B) parameter_status_formats parameter_status_values
        (λ v. record { name = v.0; value = v.1.0 }) (omega arith) (λ s. refl)
        (ReadFields-ReadFieldsWhole (status_fields B) parameter_status_formats
          (cstring-ReadsBack B, (cstring-ReadsBack B, tt)))

  abbrev pub ready_for_query_formats : Formats (ready_fields B)
  ready_for_query_formats = (byte_format B, tt)

  abbrev pub ready_for_query_values : ReadyForQuery → Values (ready_fields B)
  ready_for_query_values m = (m.transaction_indicator, tt)

  abbrev pub IsReadyForQuery : ReadyForQuery → Type 0
  IsReadyForQuery = IsValidStruct (ready_fields B) ready_for_query_formats ready_for_query_values

  abbrev pub ready_for_query_encode : ReadyForQuery → List ℕ
  ready_for_query_encode =
      encode_struct (ready_fields B) ready_for_query_formats ready_for_query_values

  pub ready_for_query_body-IsReliable :
      IsReliable (ready_for_query_body B) b'Z' IsReadyForQuery ready_for_query_encode
  unfolding ready_for_query_body
  ready_for_query_body-IsReliable =
      derived-IsReliable b'Z' (ready_fields B) ready_for_query_formats ready_for_query_values
        (λ v. record { transaction_indicator = v.0 }) (omega arith) (λ s. refl)
        (ReadFields-ReadFieldsWhole (ready_fields B) ready_for_query_formats (byte-ReadsBack B, tt))
