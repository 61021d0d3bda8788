-- ===== src/Exec/Ends.antt =====
-- Code that does not loop: it never runs out of fuel.
use fakepostmaster.Prelude.{ℕ, ◌+◌, ◌≤◌, List, length, arith}
use fakepostmaster.Outcome.{Outcome, ok, err, panicked, out_of_fuel, Error}
use fakepostmaster.Outcome.Laws.{Returns, holds, failed}
use fakepostmaster.Exec.{Exec, continue, map_err}
use fakepostmaster.Message.Get.{value_of}

abbrev pub Ends {ℓ} : {A : Type ℓ} → Outcome A → Type 0
Ends (ok a) = Unit
Ends (err e) = Unit
Ends (panicked p) = Unit
Ends out_of_fuel = ⊥

-- A reader that ends, and that takes `k` bytes or more where it returns a value.
abbrev pub Consumes {ℓ} : {A : Type ℓ} → ℕ → List ℕ → Outcome A → List ℕ → Type 0
Consumes k input (ok a) left = length left + k ≤ length input
Consumes k input (err e) left = Unit
Consumes k input (panicked p) left = Unit
Consumes k input out_of_fuel left = ⊥

pub Returns-Ends {ℓ} : {A : Type ℓ} {P : A → Type 0} (r : Outcome A) → Returns P r → Ends r
Returns-Ends r (holds h) = tt
Returns-Ends r failed = tt

pub value_of-Ends : {A : Type 0} (r : Outcome (A × List ℕ)) → Ends r → Ends (value_of r)
value_of-Ends (ok r) h = tt
value_of-Ends (err e) h = tt
value_of-Ends (panicked p) h = tt
value_of-Ends out_of_fuel h = h

pub map_err-Ends {ℓ} : {A : Type ℓ} (e : Error) (r : Outcome A) → Ends r → Ends (map_err e r)
map_err-Ends e (ok r) h = tt
map_err-Ends e (err e') h = tt
map_err-Ends e (panicked p) h = tt
map_err-Ends e out_of_fuel h = h

pub Consumes-Ends {ℓ} :
    {A : Type ℓ} (k : ℕ) (input : List ℕ) (r : Outcome A) (left : List ℕ)
    → Consumes k input r left
    → Ends r
Consumes-Ends k input (ok r) left h = tt
Consumes-Ends k input (err e) left h = tt
Consumes-Ends k input (panicked p) left h = tt
Consumes-Ends k input out_of_fuel left h = h

-- A step that ends, and whose values lead to steps that end.
pub continue-Ends {ℓ κ} :
    {S : Type 0} {A : Type ℓ} {C : Type κ} (r : Outcome A) (f : A → Exec S C) (s : S)
    → Ends r
    → ((a : A) → Ends (f a s).0)
    → Ends (continue r f s).0
continue-Ends (ok a) f s h k = k a
continue-Ends (err e) f s h k = tt
continue-Ends (panicked p) f s h k = tt
continue-Ends out_of_fuel f s h k = h

-- The same for a reader, whose rest may use what has been taken.
pub continue-Consumes {ℓ κ} :
    {A : Type ℓ} {C : Type κ} (k j : ℕ) (i input : List ℕ) (r : Outcome A) (f : A → Exec (List ℕ) C)
    (left : List ℕ)
    → Consumes k i r left
    → ((a : A) → length left + k ≤ length i → Consumes j input (f a left).0 (f a left).1)
    → Consumes j input (continue r f left).0 (continue r f left).1
continue-Consumes k j i input (ok a) f left h g = g a h
continue-Consumes k j i input (err e) f left h g = tt
continue-Consumes k j i input (panicked p) f left h g = tt
continue-Consumes k j i input out_of_fuel f left h g = h

-- A step that takes nothing.
pub Ends-Consumes {ℓ} :
    {A : Type ℓ} (r : Outcome A) (input : List ℕ) → Ends r → Consumes 0 input r input
Ends-Consumes (ok a) input h = omega arith
Ends-Consumes (err e) input h = tt
Ends-Consumes (panicked p) input h = tt
Ends-Consumes out_of_fuel input h = h
