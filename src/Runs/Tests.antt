-- ===== src/Runs/Tests.antt =====
-- The repository's tests pass.
use fakepostmaster.Prelude.{◌≡◌, refl}
use fakepostmaster.Int.{as_i16, as_i32, add_i32}
use fakepostmaster.Outcome.{ok}
use fakepostmaster.Types.Scalar.{i8, i16, i32, byte, byte4}
use fakepostmaster.Types.Text.{cstring, cstring_new, cstring_deserialize, read_until_nul}
use fakepostmaster.Types.Counted.{vec16, vec32, deserialize_elements, serialize_elements, add_sizes}
use fakepostmaster.Types.Terminated.{vec_null, deserialize_until_last}
use fakepostmaster.Message.Header.{message_header}
use fakepostmaster.Message.Authentication.{authentication_ok_body}
use fakepostmaster.Message.Row.{data_row_body}
use fakepostmaster.UnitTests.{run_tests}
use fakepostmaster.UnitTests.Scalar
use fakepostmaster.UnitTests.Vec16
use fakepostmaster.UnitTests.Vec32
use fakepostmaster.UnitTests.VecNull
use fakepostmaster.UnitTests.Structs
use fakepostmaster.UnitTests.Messages
use fakepostmaster.Runs.Crates.{bytes}

scalar_tests : run_tests (Scalar.tests bytes) ≡ ok tt
unfolding i8 i16 i32 byte cstring cstring_new cstring_deserialize read_until_nul as_i32 add_i32
scalar_tests = refl

vec16_tests : run_tests (Vec16.tests bytes) ≡ ok tt
unfolding i32 byte cstring cstring_new cstring_deserialize read_until_nul vec16 deserialize_elements
    serialize_elements add_sizes as_i16 as_i32 add_i32
vec16_tests = refl

vec32_tests : run_tests (Vec32.tests bytes) ≡ ok tt
unfolding i32 byte cstring cstring_new cstring_deserialize read_until_nul vec32 deserialize_elements
    serialize_elements add_sizes as_i32 add_i32
vec32_tests = refl

vec_null_tests : run_tests (VecNull.tests bytes) ≡ ok tt
unfolding i32 byte cstring cstring_new cstring_deserialize read_until_nul vec_null
    deserialize_until_last serialize_elements add_sizes as_i32 add_i32
vec_null_tests = refl

struct_tests : run_tests (Structs.tests bytes) ≡ ok tt
unfolding Structs.all_types byte byte4 i16 i32 cstring cstring_new cstring_deserialize
    read_until_nul vec16 vec32 deserialize_elements serialize_elements add_sizes as_i16 as_i32
    add_i32
struct_tests = refl

message_tests : run_tests (Messages.tests bytes) ≡ ok tt
unfolding message_header authentication_ok_body data_row_body byte i32 vec16 vec32
    deserialize_elements serialize_elements add_sizes as_i16 as_i32 add_i32
message_tests = refl
