-- ===== src/Exec/Keeps.antt =====
-- A relation between the states before and after that an action keeps, however it ends.
use fakepostmaster.Prelude.{Bool, true, false, if◌then◌else◌}
use fakepostmaster.Outcome.{Outcome, ok, err, panicked, out_of_fuel, Error}
use fakepostmaster.Exec.{Exec, ◌>>=◌, pure, lift, throw, continue}

-- A relation that no step and two steps keep.
pub record IsPreorder {S : Type 0} (R : S → S → Type 0) : Type 0 where
  pub unchanged : (s : S) → R s s
  pub changed_twice : (s t u : S) → R s t → R t u → R s u

pub record Keeps {ℓ} {S : Type 0} {A : Type ℓ} (R : S → S → Type 0) (m : Exec S A) : Type ℓ where
  pub at : (s : S) → R s (m s).1

module _ {S : Type 0} {R : S → S → Type 0} ⦃P : IsPreorder R⦄ where
  pub continue-Keeps {ℓ κ} :
      {A : Type ℓ} {C : Type κ} (r : Outcome A) (f : A → Exec S C) (s t : S)
      → R s t
      → ((a : A) → Keeps R (f a))
      → R s (continue r f t).1
  continue-Keeps (ok a) f s t h k = P.changed_twice s t _ h ((k a).at t)
  continue-Keeps (err e) f s t h k = h
  continue-Keeps (panicked p) f s t h k = h
  continue-Keeps out_of_fuel f s t h k = h

  pub Keeps-bind {ℓ κ} :
      {A : Type ℓ} {C : Type κ} (m : Exec S A) (f : A → Exec S C)
      → Keeps R m
      → ((a : A) → Keeps R (f a))
      → Keeps R (m >>= f)
  Keeps-bind m f h k = record { at = λ s. continue-Keeps (m s).0 f s (m s).1 (h.at s) k }

  -- Steps that do not change the state.
  pub Keeps-lift {ℓ} : {A : Type ℓ} (r : Outcome A) → Keeps R (lift r)
  Keeps-lift r = record { at = P.unchanged }

  pub Keeps-pure {ℓ} : {A : Type ℓ} (a : A) → Keeps R (pure a)
  Keeps-pure a = record { at = P.unchanged }

  pub Keeps-throw {ℓ} : {A : Type ℓ} (e : Error) → Keeps R (throw {A = A} e)
  Keeps-throw e = record { at = P.unchanged }

  pub Keeps-if {ℓ} :
      {A : Type ℓ} (b : Bool) (m n : Exec S A)
      → Keeps R m
      → Keeps R n
      → Keeps R (if b then m else n)
  Keeps-if true m n hm hn = hm
  Keeps-if false m n hm hn = hn

pub ruleset keeps_rules = (Keeps-bind, Keeps-lift, Keeps-pure, Keeps-throw, Keeps-if)
