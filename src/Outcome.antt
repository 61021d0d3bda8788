-- ===== src/Outcome.antt =====
-- What a call of the program comes to: `anyhow::Result`, or a panic.
pub mod Laws
use fakepostmaster.Prelude.{ℕ, Option, none, some}

-- The errors, one for each place that makes one or passes one on.
pub data Error : Type 0 where
  try_get_error : Error
  incorrect_terminator missing_terminator : Error
  unexpected_eof write_zero write_error clone_error bind_error : Error
  nul_error into_string_error : Error
  invalid_request unsupported_backend_code unsupported_authentication_code : Error
  kind_needs_context unsupported_frontend_code : Error
  impossible_from_request impossible_from_backend impossible_from_frontend : Error
  error_response : Error
  expected_password expected_query expected_md5_password expected_authentication_ok : Error
  expected_backend_key_data expected_ready_for_query expected_row_description : Error
  expected_data_row expected_command_complete : Error
  auth_failed : Error

pub data Panic : Type 0 where
  capacity_overflow slice_out_of_range unreachable_code expectation_failed assertion_failed
        explicit_panic :
      Panic

-- `out_of_fuel` is no value of the program: it stands for a loop that has not ended.
pub data Outcome {ℓ} (A : Type ℓ) : Type ℓ where
  ok : A → Outcome A
  err : Error → Outcome A
  panicked : Panic → Outcome A
  out_of_fuel : Outcome A

infixl 5 ◌>>=◌
abbrev pub ◌>>=◌ {ℓ κ} : {A : Type ℓ} {B : Type κ} → Outcome A → (A → Outcome B) → Outcome B
ok a >>= f = f a
err e >>= f = err e
panicked p >>= f = panicked p
out_of_fuel >>= f = out_of_fuel

-- `.ok_or(e)`, and `.ok()`.
abbrev pub ok_or {ℓ} : {A : Type ℓ} → Error → Option A → Outcome A
ok_or e none = err e
ok_or e (some a) = ok a

-- `.expect(…)`: an error is a panic.
abbrev pub expect {ℓ} : {A : Type ℓ} → Outcome A → Outcome A
expect (ok a) = ok a
expect (err e) = panicked expectation_failed
expect (panicked p) = panicked p
expect out_of_fuel = out_of_fuel
