-- ===== src/Message/Startup.antt =====
-- src/message.rs: `StartupMessage` and `ProtocolVersion`.
use fakepostmaster.Prelude.{ℕ, List}
use fakepostmaster.Int.{ℤ}
use fakepostmaster.Outcome.{Outcome, err, impossible_from_request}
use fakepostmaster.Buffer.{BytesCrate}
use fakepostmaster.Wire.{Wire}
use fakepostmaster.Types.Scalar.{i16}
use fakepostmaster.Types.Vectors.{VecNull, into_vec_null}
use fakepostmaster.Types.Terminated.{vec_null}
use fakepostmaster.Derive.{Fields, no_fields, field, serde_libpq_data}
use fakepostmaster.Kind.Request.{RequestMessageKind, startup_message}
use fakepostmaster.Message.Raw.{RawRequest}
use fakepostmaster.Message.Backend.{ParameterStatus, parameter_status_body}

pub record ProtocolVersion : Type 0 where
  pub major : ℤ
  pub minor : ℤ

pub record StartupMessage : Type 0 where
  pub protocol_version : ProtocolVersion
  pub parameters : VecNull ParameterStatus

abbrev pub new_startup : ProtocolVersion → List ParameterStatus → StartupMessage
new_startup v parameters = record { protocol_version = v; parameters = into_vec_null parameters }

module _ (B : BytesCrate) where
  abbrev pub version_fields : Fields
  version_fields = field ℤ (i16 B) (field ℤ (i16 B) no_fields)

  unfoldable pub protocol_version : Wire ProtocolVersion
  unfolding serde_libpq_data
  protocol_version =
      serde_libpq_data version_fields (λ p. (p.major, (p.minor, tt)))
        (λ v. record { major = v.0; minor = v.1.0 })

  abbrev pub startup_fields : Fields
  startup_fields =
      field ProtocolVersion protocol_version
        (field (VecNull ParameterStatus) (vec_null B (parameter_status_body B).wire) no_fields)

  unfoldable pub startup : Wire StartupMessage
  unfolding serde_libpq_data
  startup =
      serde_libpq_data startup_fields (λ m. (m.protocol_version, (m.parameters, tt)))
        (λ v. record { protocol_version = v.0; parameters = v.1.0 })

  unfoldable pub read_startup : List ℕ → RequestMessageKind → Outcome (StartupMessage × List ℕ)
  unfolding startup
  read_startup raw_body startup_message = (startup).deserialize raw_body
  read_startup raw_body other = err impossible_from_request

  -- `StartupMessage::try_from(&mut RawRequest)`
  unfoldable pub try_startup : RawRequest → Outcome (StartupMessage × List ℕ)
  unfolding read_startup
  try_startup r = read_startup r.raw_body r.request_kind
