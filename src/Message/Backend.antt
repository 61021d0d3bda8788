-- ===== src/Message/Backend.antt =====
-- src/message.rs: the messages of the backend that are not about authentication, rows or errors.
use fakepostmaster.Prelude.{ℕ, List, ◌==◌, if◌then◌else◌}
use fakepostmaster.Int.{ℤ}
use fakepostmaster.Outcome.{Outcome, ok, panicked, ◌>>=◌, impossible_from_backend, unreachable_code}
use fakepostmaster.Buffer.{BytesCrate}
use fakepostmaster.Types.Scalar.{i32, byte}
use fakepostmaster.Types.Text.{cstring, cstring_new}
use fakepostmaster.Derive.{Fields, no_fields, field, serde_libpq_data, try_from_raw_message}
use fakepostmaster.Message.Header.{MessageBody, message_body}
use fakepostmaster.Message.Raw.{RawBackendMessage}

pub record BackendKeyData : Type 0 where
  pub process_id : ℤ
  pub secret_key : ℤ

pub record CommandComplete : Type 0 where
  pub command_tag : List ℕ

pub record ParameterStatus : Type 0 where
  pub name : List ℕ
  pub value : List ℕ

pub record ReadyForQuery : Type 0 where
  pub transaction_indicator : ℕ

abbrev pub new_backend_key_data : ℤ → ℤ → BackendKeyData
new_backend_key_data process_id secret_key = record {
  process_id = process_id;
  secret_key = secret_key;
}

unfoldable pub new_command_complete : List ℕ → Outcome CommandComplete
new_command_complete command_tag = do s ← cstring_new command_tag; ok (record { command_tag = s })

unfoldable pub new_parameter_status : List ℕ → List ℕ → Outcome ParameterStatus
new_parameter_status name value = do
  n ← cstring_new name
  v ← cstring_new value
  ok (record { name = n; value = v })

pub data TransactionIndicator : Type 0 where
  idle idle_in_transaction idler_in_transaction_aborted : TransactionIndicator

-- `TransactionIndicator::from(&Byte)`, which panics on any other byte.
unfoldable pub indicator_of : ℕ → Outcome TransactionIndicator
indicator_of c =
    if c == b'I'
    then ok idle
    else if c == b'T'
    then ok idle_in_transaction
    else if c == b'E'
    then ok idler_in_transaction_aborted
    else panicked unreachable_code

-- `Byte::from(&TransactionIndicator)`
unfoldable pub indicator_code : TransactionIndicator → ℕ
indicator_code idle = b'I'
indicator_code idle_in_transaction = b'T'
indicator_code idler_in_transaction_aborted = b'E'

unfoldable pub new_ready_for_query : TransactionIndicator → ReadyForQuery
unfolding indicator_code
new_ready_for_query t = record { transaction_indicator = indicator_code t }

module _ (B : BytesCrate) where
  abbrev pub key_fields : Fields
  key_fields = field ℤ (i32 B) (field ℤ (i32 B) no_fields)

  abbrev pub text_fields : Fields
  text_fields = field (List ℕ) (cstring B) no_fields

  abbrev pub status_fields : Fields
  status_fields = field (List ℕ) (cstring B) (field (List ℕ) (cstring B) no_fields)

  abbrev pub ready_fields : Fields
  ready_fields = field ℕ (byte B) no_fields

  unfoldable pub backend_key_data_body : MessageBody BackendKeyData
  unfolding message_body serde_libpq_data
  backend_key_data_body = message_body b'K' (
      serde_libpq_data key_fields (λ m. (m.process_id, (m.secret_key, tt)))
        (λ v. record { process_id = v.0; secret_key = v.1.0 }))

  unfoldable pub command_complete_body : MessageBody CommandComplete
  unfolding message_body serde_libpq_data
  command_complete_body =
      message_body b'C' (
        serde_libpq_data text_fields (λ m. (m.command_tag, tt)) (λ v. record { command_tag = v.0 }))

  unfoldable pub parameter_status_body : MessageBody ParameterStatus
  unfolding message_body serde_libpq_data
  parameter_status_body = message_body b'S' (
      serde_libpq_data status_fields (λ m. (m.name, (m.value, tt)))
        (λ v. record { name = v.0; value = v.1.0 }))

  unfoldable pub ready_for_query_body : MessageBody ReadyForQuery
  unfolding message_body serde_libpq_data
  ready_for_query_body = message_body b'Z' (
      serde_libpq_data ready_fields (λ m. (m.transaction_indicator, tt))
        (λ v. record { transaction_indicator = v.0 }))

  unfoldable pub try_backend_key_data : RawBackendMessage → Outcome (BackendKeyData × List ℕ)
  unfolding try_from_raw_message
  try_backend_key_data m =
      try_from_raw_message impossible_from_backend b'K' (backend_key_data_body).wire
        m.header.message_type m.raw_body

  unfoldable pub try_command_complete : RawBackendMessage → Outcome (CommandComplete × List ℕ)
  unfolding try_from_raw_message
  try_command_complete m =
      try_from_raw_message impossible_from_backend b'C' (command_complete_body).wire
        m.header.message_type m.raw_body

  unfoldable pub try_parameter_status : RawBackendMessage → Outcome (ParameterStatus × List ℕ)
  unfolding try_from_raw_message
  try_parameter_status m =
      try_from_raw_message impossible_from_backend b'S' (parameter_status_body).wire
        m.header.message_type m.raw_body

  unfoldable pub try_ready_for_query : RawBackendMessage → Outcome (ReadyForQuery × List ℕ)
  unfolding try_from_raw_message
  try_ready_for_query m =
      try_from_raw_message impossible_from_backend b'Z' (ready_for_query_body).wire
        m.header.message_type m.raw_body
