-- ===== src/Wire.antt =====
-- libpq-serde-types/src/lib.rs: the traits `Serialize`, `Deserialize` and `ByteSized`, which the
-- program always implements together.
pub mod Lawful
use fakepostmaster.Prelude.{ℕ, List}
use fakepostmaster.Int.{ℤ}
use fakepostmaster.Outcome.{Outcome}

-- `serialize` takes the buffer and returns it with the value written; `deserialize` returns the
-- value with what is left of the buffer. After an error no caller looks at the buffer again.
pub record Wire (A : Type 0) : Type 0 where
  pub serialize : A → List ℕ → List ℕ
  pub deserialize : List ℕ → Outcome (A × List ℕ)
  pub byte_size : A → ℤ
