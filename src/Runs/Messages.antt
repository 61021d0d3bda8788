-- ===== src/Runs/Messages.antt =====
-- Messages, raw messages and requests.
use fakepostmaster.Prelude.{◌≡◌, [], ◌∷◌, ◌++◌, length, codes, arith}
use fakepostmaster.Int.{pos, i32_to_be_bytes}
use fakepostmaster.Outcome.{ok, panicked, slice_out_of_range, capacity_overflow}
use fakepostmaster.Kind.Request.{startup_message}
use fakepostmaster.Message.Header.{message_header, new_header_from_body, new_raw_header_from_body}
use fakepostmaster.Message.Header.Laws.{new_raw_header_from_body_lem}
use fakepostmaster.Message.Get.{get_request, get_backend_message}
use fakepostmaster.Message.Frame.{request_frame}
use fakepostmaster.Message.Frame.General.{get_backend_message_lem, get_request_panics}
use fakepostmaster.Message.Backend.{new_ready_for_query, idle, ready_for_query_body}
use fakepostmaster.Message.Startup.{StartupMessage, startup, try_startup}
use fakepostmaster.Message.Frontend.{new_from_user_password}
use fakepostmaster.Message.Frontend.Laws.{md5_answer, new_from_user_password_lem}
use fakepostmaster.Message.RoundTrip.{startup_round_trip}
use fakepostmaster.Runs.Crates.{bytes, md5}

get_backend_message_lem_example :
    get_backend_message bytes (b'Z' ∷ (i32_to_be_bytes (pos 3) ++ 65 ∷ []))
    ≡ (panicked capacity_overflow, 65 ∷ [])
get_backend_message_lem_example =
    get_backend_message_lem bytes b'Z' (pos 3) (65 ∷ []) (omega arith) (omega arith)

get_request_panics_example :
    get_request bytes (request_frame (1 ∷ 2 ∷ 3 ∷ []) ++ 7 ∷ [])
    ≡ (panicked slice_out_of_range, 7 ∷ [])
get_request_panics_example = get_request_panics bytes (1 ∷ 2 ∷ 3 ∷ []) (7 ∷ []) (omega arith)

abbrev a_startup : StartupMessage
a_startup = record {
  protocol_version = record { major = pos 3; minor = pos 0 };
  parameters = record { name = codes "user"; value = codes "me" } ∷ [];
}

startup_round_trip_example :
    try_startup bytes (record {
      header = record { length = pos 0 };
      request_kind = startup_message;
      raw_body = (startup bytes).serialize a_startup [];
    })
    ≡ ok (a_startup, [])
startup_round_trip_example =
    startup_round_trip bytes (record { length = pos 0 }) a_startup (omega arith)

new_from_user_password_lem_example :
    (new_from_user_password md5 (codes "u") (codes "p") (1 ∷ 2 ∷ 3 ∷ 4 ∷ [])
      ≡ ok (record { password = md5_answer md5 (codes "u") (codes "p") (1 ∷ 2 ∷ 3 ∷ 4 ∷ []) }))
    × (length (md5_answer md5 (codes "u") (codes "p") (1 ∷ 2 ∷ 3 ∷ 4 ∷ [])) ≡ 35)
new_from_user_password_lem_example =
    new_from_user_password_lem md5 (codes "u") (codes "p") (1 ∷ 2 ∷ 3 ∷ 4 ∷ [])

new_raw_header_from_body_lem_example :
    ((message_header bytes).serialize
        (new_header_from_body bytes (ready_for_query_body bytes) (new_ready_for_query idle))
        (9 ∷ [])
      ≡ new_raw_header_from_body bytes
          (ready_for_query_body bytes)
          (9 ∷ [])
          (new_ready_for_query idle))
    × ((message_header bytes).deserialize (
          new_raw_header_from_body bytes (ready_for_query_body bytes) [] (new_ready_for_query idle))
        ≡ ok (
          new_header_from_body bytes (ready_for_query_body bytes) (new_ready_for_query idle),
          [],
        ))
new_raw_header_from_body_lem_example =
    new_raw_header_from_body_lem bytes (ready_for_query_body bytes) (new_ready_for_query idle)
      (9 ∷ []) (unfold ready_for_query_body in omega arith)
