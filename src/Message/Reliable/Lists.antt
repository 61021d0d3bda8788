-- ===== src/Message/Reliable/Lists.antt =====
-- The messages that end in a list without a count are reliable: `ErrorResponse`, `StartupMessage`.
use fakepostmaster.Prelude.{ℕ, refl, List, arith}
use fakepostmaster.Buffer.{BytesCrate}
use fakepostmaster.Wire.Lawful.{IsSized, ReadsBack, ReadsBackWhole}
use fakepostmaster.Derive.{Values}
use fakepostmaster.Derive.Laws.{
  Format, Formats, IsValidStruct, encode_struct, serde_libpq_data-IsSized,
  serde_libpq_data-ReadsBack, serde_libpq_data-ReadsBackWhole,
}
use fakepostmaster.Types.Formats.{i16_format, byte_format, cstring_format, vec_null_format}
use fakepostmaster.Types.Scalar.Laws.{i16-ReadsBack, byte-ReadsBack}
use fakepostmaster.Types.Text.Laws.{cstring-ReadsBack}
use fakepostmaster.Types.Terminated.Laws.{vec_null-ReadsBackWhole}
use fakepostmaster.Message.Backend.{status_fields, parameter_status_body}
use fakepostmaster.Message.Errors.{
  ErrorMessage, ErrorResponse, error_fields, error_message, response_fields, error_response_body,
}
use fakepostmaster.Message.Startup.{
  ProtocolVersion, StartupMessage, version_fields, protocol_version, startup_fields, startup,
}
use fakepostmaster.Message.Reliable.{IsReliable, derived-IsReliable}
use fakepostmaster.Message.Reliable.Backend.{IsParameterStatus, parameter_status_encode}

module _ (B : BytesCrate) where
  abbrev pub error_formats : Formats (error_fields B)
  error_formats = (byte_format B, (cstring_format B, tt))

  abbrev pub error_values : ErrorMessage → Values (error_fields B)
  error_values m = (m.code, (m.message, tt))

  abbrev pub error_from : Values (error_fields B) → ErrorMessage
  error_from v = record { code = v.0; message = v.1.0 }

  abbrev pub IsErrorMessage : ErrorMessage → Type 0
  IsErrorMessage = IsValidStruct (error_fields B) error_formats error_values

  abbrev pub error_encode : ErrorMessage → List ℕ
  error_encode = encode_struct (error_fields B) error_formats error_values

  pub error_message-IsSized : IsSized (error_message B) IsErrorMessage error_encode 2
  unfolding error_message
  error_message-IsSized =
      serde_libpq_data-IsSized (error_fields B) error_formats error_values error_from

  pub error_message-ReadsBack : ReadsBack (error_message B) IsErrorMessage error_encode
  unfolding error_message
  error_message-ReadsBack =
      serde_libpq_data-ReadsBack (error_fields B) error_formats error_values error_from (λ s. refl)
        (byte-ReadsBack B, (cstring-ReadsBack B, tt))

  abbrev pub response_formats : Formats (response_fields B)
  response_formats = (vec_null_format B {least = 1} error_message-IsSized, tt)

  abbrev pub response_values : ErrorResponse → Values (response_fields B)
  response_values m = (m.messages, tt)

  abbrev pub IsErrorResponse : ErrorResponse → Type 0
  IsErrorResponse = IsValidStruct (response_fields B) response_formats response_values

  abbrev pub error_response_encode : ErrorResponse → List ℕ
  error_response_encode = encode_struct (response_fields B) response_formats response_values

  pub error_response_body-IsReliable :
      IsReliable (error_response_body B) b'E' IsErrorResponse error_response_encode
  unfolding error_response_body
  error_response_body-IsReliable =
      derived-IsReliable b'E' (response_fields B) response_formats response_values
        (λ v. record { messages = v.0 }) (omega arith) (λ s. refl)
        (vec_null-ReadsBackWhole B (error_message B) {least = 1} error_message-IsSized
          error_message-ReadsBack)

  pub parameter-IsSized :
      IsSized (parameter_status_body B).wire (IsParameterStatus B) (parameter_status_encode B) 2
  unfolding parameter_status_body
  parameter-IsSized =
      serde_libpq_data-IsSized (status_fields B) (cstring_format B, (cstring_format B, tt))
        (λ m. (m.name, (m.value, tt))) (λ v. record { name = v.0; value = v.1.0 })

  pub parameter-ReadsBack :
      ReadsBack (parameter_status_body B).wire (IsParameterStatus B) (parameter_status_encode B)
  unfolding parameter_status_body
  parameter-ReadsBack =
      serde_libpq_data-ReadsBack (status_fields B) (cstring_format B, (cstring_format B, tt))
        (λ m. (m.name, (m.value, tt))) (λ v. record { name = v.0; value = v.1.0 }) (λ s. refl)
        (cstring-ReadsBack B, (cstring-ReadsBack B, tt))

  abbrev pub version_formats : Formats (version_fields B)
  version_formats = (i16_format B, (i16_format B, tt))

  abbrev pub version_values : ProtocolVersion → Values (version_fields B)
  version_values p = (p.major, (p.minor, tt))

  abbrev pub version_from : Values (version_fields B) → ProtocolVersion
  version_from v = record { major = v.0; minor = v.1.0 }

  abbrev pub IsProtocolVersion : ProtocolVersion → Type 0
  IsProtocolVersion = IsValidStruct (version_fields B) version_formats version_values

  abbrev pub version_encode : ProtocolVersion → List ℕ
  version_encode = encode_struct (version_fields B) version_formats version_values

  pub version-IsSized : IsSized (protocol_version B) IsProtocolVersion version_encode 4
  unfolding protocol_version
  version-IsSized =
      serde_libpq_data-IsSized (version_fields B) version_formats version_values version_from

  pub version-ReadsBack : ReadsBack (protocol_version B) IsProtocolVersion version_encode
  unfolding protocol_version
  version-ReadsBack =
      serde_libpq_data-ReadsBack (version_fields B) version_formats version_values version_from
        (λ s. refl) (i16-ReadsBack B, (i16-ReadsBack B, tt))

  abbrev pub version_format : Format (protocol_version B)
  version_format = record {
    IsValid = IsProtocolVersion;
    encode = version_encode;
    least = 4;
    sized = version-IsSized;
  }

  abbrev pub startup_formats : Formats (startup_fields B)
  startup_formats = (version_format, (vec_null_format B {least = 1} parameter-IsSized, tt))

  abbrev pub startup_values : StartupMessage → Values (startup_fields B)
  startup_values m = (m.protocol_version, (m.parameters, tt))

  abbrev pub startup_from : Values (startup_fields B) → StartupMessage
  startup_from v = record { protocol_version = v.0; parameters = v.1.0 }

  abbrev pub IsStartup : StartupMessage → Type 0
  IsStartup = IsValidStruct (startup_fields B) startup_formats startup_values

  abbrev pub startup_encode : StartupMessage → List ℕ
  startup_encode = encode_struct (startup_fields B) startup_formats startup_values

  pub startup-IsSized : IsSized (startup B) IsStartup startup_encode 5
  unfolding startup
  startup-IsSized =
      serde_libpq_data-IsSized (startup_fields B) startup_formats startup_values startup_from

  pub startup-ReadsBackWhole : ReadsBackWhole (startup B) IsStartup startup_encode
  unfolding startup
  startup-ReadsBackWhole =
      serde_libpq_data-ReadsBackWhole (startup_fields B) startup_formats startup_values startup_from
        (λ s. refl)
        (
          version-ReadsBack,
          vec_null-ReadsBackWhole B (parameter_status_body B).wire {least = 1} parameter-IsSized
              parameter-ReadsBack,
        )
