-- ===== src/Outcome/Laws.antt =====
-- Postconditions of outcomes.
use fakepostmaster.Prelude.{◌≡◌, refl}
use fakepostmaster.Outcome.{Outcome, Error, ok, err, panicked, out_of_fuel, ◌>>=◌}
use mathlib.Core.Path.{subst}

-- The call returned, with an error or with a value that satisfies `P`.
pub data Returns {ℓ κ} {A : Type ℓ} (P : A → Type κ) : Outcome A → Type (ℓ ⊔ κ) where
  holds : {a : A} → P a → Returns P (ok a)
  failed : {e : Error} → Returns P (err e)

module _ {ℓ κ} {A : Type ℓ} {P : A → Type κ} where
  pub Returns-ok : {r : Outcome A} {a : A} → Returns P r → r ≡ ok a → P a
  Returns-ok (holds h) e = subst P (cc) h
  Returns-ok failed e = cc

  pub Returns-bind {ℓ' κ'} :
      {B : Type ℓ'} {Q : B → Type κ'} {r : Outcome A} {f : A → Outcome B}
      → Returns P r
      → ((a : A) → P a → Returns Q (f a))
      → Returns Q (r >>= f)
  Returns-bind (holds {a} h) k = k a h
  Returns-bind failed k = failed

  pub Returns-weaken {κ'} :
      {Q : A → Type κ'} {r : Outcome A} → ((a : A) → P a → Q a) → Returns P r → Returns Q r
  Returns-weaken k (holds {a} h) = holds (k a h)
  Returns-weaken k failed = failed

-- An outcome that is neither a panic nor a lack of fuel.
abbrev pub Decides : {A : Type 0} → Outcome A → Type 0
Decides (ok a) = Unit
Decides (err e) = Unit
Decides (panicked p) = ⊥
Decides out_of_fuel = ⊥

pub Decides-Returns :
    {A : Type 0} {P : A → Type 0} (r : Outcome A)
    → Decides r
    → ((a : A) → r ≡ ok a → P a)
    → Returns P r
Decides-Returns (ok a) d h = holds (h a refl)
Decides-Returns (err e) d h = failed
Decides-Returns (panicked p) d h = elim d [ ]
Decides-Returns out_of_fuel d h = elim d [ ]
