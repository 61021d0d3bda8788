-- ===== src/Kind/Backend.antt =====
-- src/message.rs: `BackendMessageKind`.
use fakepostmaster.Prelude.{ℕ, ◌==◌, if◌then◌else◌}
use fakepostmaster.Outcome.{Outcome, ok, err, unsupported_backend_code}

pub data BackendMessageKind : Type 0 where
  authentication backend_key_data bind_complete close_completen : BackendMessageKind
  command_complete copy_data copy_done copy_in_response : BackendMessageKind
  copy_out_response copy_both_response data_row empty_query : BackendMessageKind
  error_response function_call_response negotiate_protocol_version no_data : BackendMessageKind
  notice_response notification_response parameter_description parameter_status : BackendMessageKind
  parse_complete portal_suspended ready_for_query row_description : BackendMessageKind

unfoldable pub backend_code : BackendMessageKind → ℕ
backend_code authentication = b'R'
backend_code backend_key_data = b'K'
backend_code bind_complete = b'2'
backend_code close_completen = b'3'
backend_code command_complete = b'C'
backend_code copy_data = b'd'
backend_code copy_done = b'c'
backend_code copy_in_response = b'G'
backend_code copy_out_response = b'H'
backend_code copy_both_response = b'W'
backend_code data_row = b'D'
backend_code empty_query = b'I'
backend_code error_response = b'E'
backend_code function_call_response = b'V'
backend_code negotiate_protocol_version = b'v'
backend_code no_data = b'n'
backend_code notice_response = b'N'
backend_code notification_response = b'A'
backend_code parameter_description = b't'
backend_code parameter_status = b'S'
backend_code parse_complete = b'1'
backend_code portal_suspended = b's'
backend_code ready_for_query = b'Z'
backend_code row_description = b'T'

unfoldable pub backend_kind_of : ℕ → Outcome BackendMessageKind
backend_kind_of c =
    if c == 0x52
    then ok authentication
    else if c == 0x4b
    then ok backend_key_data
    else if c == 0x32
    then ok bind_complete
    else if c == 0x33
    then ok close_completen
    else if c == 0x43
    then ok command_complete
    else if c == 0x64
    then ok copy_data
    else if c == 0x63
    then ok copy_done
    else if c == 0x47
    then ok copy_in_response
    else if c == 0x48
    then ok copy_out_response
    else if c == 0x57
    then ok copy_both_response
    else if c == 0x44
    then ok data_row
    else if c == 0x49
    then ok empty_query
    else if c == 0x45
    then ok error_response
    else if c == 0x56
    then ok function_call_response
    else if c == 0x76
    then ok negotiate_protocol_version
    else if c == 0x6e
    then ok no_data
    else if c == 0x4e
    then ok notice_response
    else if c == 0x41
    then ok notification_response
    else if c == 0x74
    then ok parameter_description
    else if c == 0x53
    then ok parameter_status
    else if c == 0x31
    then ok parse_complete
    else if c == 0x73
    then ok portal_suspended
    else if c == 0x5a
    then ok ready_for_query
    else if c == 0x54
    then ok row_description
    else err unsupported_backend_code
