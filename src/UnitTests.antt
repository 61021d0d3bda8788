-- ===== src/UnitTests.antt =====
-- The tests of libpq-serde-types/src and src/message.rs, as runs over any `bytes` crate. A test passes
-- if it returns without an error.
pub mod Scalar
pub mod Vec16
pub mod Vec32
pub mod VecNull
pub mod Structs
pub mod Messages
use fakepostmaster.Prelude.{ℕ, Bool, true, false, ◌&&◌, List, [], ◌∷◌, ◌==◌, if◌then◌else◌}
use fakepostmaster.Int.{ℤ, pos, negsuc}
use fakepostmaster.Outcome.{Outcome, ok, panicked, assertion_failed, ◌>>=◌}

-- `PartialEq`
pub record PartialEq {ℓ} (A : Type ℓ) : Type ℓ where
  pub eq : A → A → Bool

abbrev pub assert_eq {ℓ} : {A : Type ℓ} ⦃e : PartialEq A⦄ → A → A → Outcome (Unit {0})
assert_eq ⦃e⦄ left right = if e.eq left right then ok tt else panicked assertion_failed

instance abbrev pub nat_eq : PartialEq ℕ
nat_eq = record { eq = ◌==◌ }

abbrev eq_int : ℤ → ℤ → Bool
eq_int (pos a) (pos b) = a == b
eq_int (negsuc a) (negsuc b) = a == b
eq_int (pos a) (negsuc b) = false
eq_int (negsuc a) (pos b) = false

instance abbrev pub int_eq : PartialEq ℤ
int_eq = record { eq = eq_int }

module _ {ℓ} {A : Type ℓ} ⦃e : PartialEq A⦄ where
  abbrev eq_list : List A → List A → Bool
  eq_list [] [] = true
  eq_list (x ∷ xs) (y ∷ ys) = e.eq x y && eq_list xs ys
  eq_list [] (y ∷ ys) = false
  eq_list (x ∷ xs) [] = false

  instance abbrev pub list_eq : PartialEq (List A)
  list_eq = record { eq = eq_list }

-- The tests of a module, one after the other.
abbrev pub run_tests : List (Outcome (Unit {0})) → Outcome (Unit {0})
run_tests [] = ok tt
run_tests (t ∷ tests) = t >>= λ _. run_tests tests
