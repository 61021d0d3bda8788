-- ===== src/Kind/Request.antt =====
-- src/message.rs: `RequestMessageKind`.
use fakepostmaster.Prelude.{◌==◌, if◌then◌else◌}
use fakepostmaster.Int.{ℤ, pos, negsuc}
use fakepostmaster.Outcome.{Outcome, ok, err, invalid_request}

pub data RequestMessageKind : Type 0 where
  startup_message cancel_request gssenc_request ssl_request : RequestMessageKind

unfoldable pub request_code : RequestMessageKind → ℤ
request_code startup_message = pos 196608
request_code cancel_request = pos 80877102
request_code gssenc_request = pos 80877104
request_code ssl_request = pos 80877103

-- A `match` on an `i32` whose patterns are not negative.
unfoldable pub request_kind_of : ℤ → Outcome RequestMessageKind
request_kind_of (negsuc n) = err invalid_request
request_kind_of (pos n) =
    if n == 196608
    then ok startup_message
    else if n == 80877102
    then ok cancel_request
    else if n == 80877104
    then ok gssenc_request
    else if n == 80877103
    then ok ssl_request
    else err invalid_request
