-- ===== src/Kind/Frontend.antt =====
-- src/message.rs: `FrontendMessageKind`.
use fakepostmaster.Prelude.{ℕ, ◌==◌, if◌then◌else◌}
use fakepostmaster.Outcome.{Outcome, ok, err, kind_needs_context, unsupported_frontend_code}

pub data FrontendMessageKind : Type 0 where
  bind close copy_data copy_done : FrontendMessageKind
  copy_fail describe execute flush : FrontendMessageKind
  function_call gss_response parse password_message : FrontendMessageKind
  query sasl_initial_response sasl_response terminate : FrontendMessageKind

unfoldable pub frontend_code : FrontendMessageKind → ℕ
frontend_code bind = b'B'
frontend_code close = b'C'
frontend_code copy_data = b'd'
frontend_code copy_done = b'c'
frontend_code copy_fail = b'f'
frontend_code describe = b'D'
frontend_code execute = b'E'
frontend_code flush = b'F'
frontend_code function_call = b'H'
frontend_code gss_response = b'p'
frontend_code parse = b'P'
frontend_code password_message = b'p'
frontend_code query = b'Q'
frontend_code sasl_initial_response = b'p'
frontend_code sasl_response = b'p'
frontend_code terminate = b'X'

unfoldable pub frontend_kind_of : ℕ → Outcome FrontendMessageKind
frontend_kind_of c =
    if c == 0x42
    then ok bind
    else if c == 0x43
    then ok close
    else if c == 0x64
    then ok copy_data
    else if c == 0x63
    then ok copy_done
    else if c == 0x66
    then ok copy_fail
    else if c == 0x44
    then ok describe
    else if c == 0x45
    then ok execute
    else if c == 0x46
    then ok flush
    else if c == 0x48
    then ok function_call
    else if c == 0x51
    then ok query
    else if c == 0x58
    then ok terminate
    else if c == 0x70
    then err kind_needs_context
    else if c == 0x50
    then err kind_needs_context
    else err unsupported_frontend_code
