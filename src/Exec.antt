-- ===== src/Exec.antt =====
-- Code that changes a state and may fail. What was done before an error stays done, so the state
-- comes back beside the error too.
pub mod Laws
pub mod Ends
pub mod Keeps
pub mod Causal
use fakepostmaster.Outcome.{Outcome, ok, err, panicked, out_of_fuel, Error}

abbrev pub Exec {ℓ} : Type 0 → Type ℓ → Type ℓ
Exec S A = S → Outcome A × S

module _ {ℓ} {S : Type 0} {A : Type ℓ} where
  abbrev pub pure : A → Exec S A
  pure a s = (ok a, s)

  abbrev pub throw : Error → Exec S A
  throw e s = (err e, s)

  abbrev pub lift : Outcome A → Exec S A
  lift r s = (r, s)

module _ {ℓ κ} {S : Type 0} {A : Type ℓ} {B : Type κ} where
  abbrev pub continue : Outcome A → (A → Exec S B) → Exec S B
  continue (ok a) f s = f a s
  continue (err e) f s = (err e, s)
  continue (panicked p) f s = (panicked p, s)
  continue out_of_fuel f s = (out_of_fuel, s)

  infixl 5 ◌>>=◌
  abbrev pub ◌>>=◌ : Exec S A → (A → Exec S B) → Exec S B
  ◌>>=◌ m f s = continue (m s).0 f (m s).1

infixl 5 ◌>>◌
abbrev pub ◌>>◌ {ℓ} : {S : Type 0} {B : Type ℓ} → Exec S (Unit {0}) → Exec S B → Exec S B
m >> k = m >>= λ _. k

-- `match r { Ok(a) => a, _ => return Err(e) }`
abbrev pub map_err {ℓ} : {A : Type ℓ} → Error → Outcome A → Outcome A
map_err e (ok a) = ok a
map_err e (err _) = err e
map_err e (panicked p) = panicked p
map_err e out_of_fuel = out_of_fuel
