-- ===== src/Exec/Laws.antt =====
-- Case analysis on a step of a handler.
use fakepostmaster.Outcome.{Outcome, ok, err, panicked, out_of_fuel, Error}
use fakepostmaster.Exec.{Exec, continue, map_err}
use fakepostmaster.Exec.Ends.{Ends, Consumes}
use fakepostmaster.Prelude.{ℕ, ◌+◌, ◌≤◌, ◌≡◌, refl, List, length}

-- An error or a panic.
abbrev pub IsFailure {ℓ} : {A : Type ℓ} → Outcome A → Type 0
IsFailure (ok a) = ⊥
IsFailure (err e) = Unit
IsFailure (panicked p) = Unit
IsFailure out_of_fuel = ⊥

-- What holds after each value of the step and after each failure holds after a step that ends.
pub continue_cases {ℓ κ λ'} :
    {S : Type 0} {A : Type ℓ} {C : Type κ} (Q : Outcome C × S → Type λ') (r : Outcome A)
    (f : A → Exec S C) (s : S)
    → Ends r
    → ((a : A) → Q (f a s))
    → ((r' : Outcome C) → IsFailure r' → Q (r', s))
    → Q (continue r f s)
continue_cases Q (ok a) f s h k e = k a
continue_cases Q (err x) f s h k e = e (err x) tt
continue_cases Q (panicked p) f s h k e = e (panicked p) tt
continue_cases Q out_of_fuel f s h k e = absurd h

-- The same for a reader, whose rest may use what has been taken.
pub taking_cases {ℓ κ λ'} :
    {S : Type 0} {A : Type ℓ} {C : Type κ} (Q : Outcome C × S → Type λ') (k : ℕ) (i left : List ℕ)
    (r : Outcome A) (f : A → Exec S C) (s : S)
    → Consumes k i r left
    → ((a : A) → length left + k ≤ length i → Q (f a s))
    → ((r' : Outcome C) → IsFailure r' → Q (r', s))
    → Q (continue r f s)
taking_cases Q k i left (ok a) f s h g e = g a h
taking_cases Q k i left (err x) f s h g e = e (err x) tt
taking_cases Q k i left (panicked p) f s h g e = e (panicked p) tt
taking_cases Q k i left out_of_fuel f s h g e = absurd h

-- What holds after each failure holds after a step that fails.
pub failure_cases {ℓ κ λ'} :
    {S : Type 0} {A : Type ℓ} {C : Type κ} (Q : Outcome C × S → Type λ') (r : Outcome A)
    (f : A → Exec S C) (s : S)
    → IsFailure r
    → ((r' : Outcome C) → IsFailure r' → Q (r', s))
    → Q (continue r f s)
failure_cases Q (ok a) f s h e = absurd h
failure_cases Q (err x) f s h e = e (err x) tt
failure_cases Q (panicked p) f s h e = e (panicked p) tt
failure_cases Q out_of_fuel f s h e = absurd h

-- The same, where the value is remembered.
pub value_cases {ℓ κ λ'} :
    {S : Type 0} {A : Type ℓ} {C : Type κ} (Q : Outcome C × S → Type λ') (r : Outcome A)
    (f : A → Exec S C) (s : S)
    → Ends r
    → ((a : A) → r ≡ ok a → Q (f a s))
    → ((r' : Outcome C) → IsFailure r' → Q (r', s))
    → Q (continue r f s)
value_cases Q (ok a) f s h k e = k a refl
value_cases Q (err x) f s h k e = e (err x) tt
value_cases Q (panicked p) f s h k e = e (panicked p) tt
value_cases Q out_of_fuel f s h k e = absurd h

pub map_err_value {ℓ} :
    {A : Type ℓ} (e : Error) (r : Outcome A) (a : A) → map_err e r ≡ ok a → r ≡ ok a
map_err_value e (ok b) a p = p
map_err_value e (err x) a p = absurd (cc)
map_err_value e (panicked x) a p = absurd (cc)
map_err_value e out_of_fuel a p = absurd (cc)

-- A chain that returned has a step that returned.
pub continue-eq-ok {ℓ κ} :
    {S : Type 0} {A : Type ℓ} {C : Type κ} (r : Outcome A) (f : A → Exec S C) (s : S) (c : C)
    (t : S)
    → continue r f s ≡ (ok c, t)
    → (a : A) × (r ≡ ok a) × (f a s ≡ (ok c, t))
continue-eq-ok (ok a) f s c t e = (a, refl, e)
continue-eq-ok (err x) f s c t e = cc
continue-eq-ok (panicked p) f s c t e = cc
continue-eq-ok out_of_fuel f s c t e = cc
