-- ===== src/Exec/Causal.antt =====
-- Actions on a state with an input that may grow: what is done depends on what has been read only.
use fakepostmaster.Prelude.{ℕ, Bool, true, false, List, if◌then◌else◌}
use fakepostmaster.Outcome.{Outcome, ok, err, panicked, out_of_fuel, Error}
use fakepostmaster.Exec.{Exec, ◌>>=◌, pure, lift, throw, continue}
use fakepostmaster.Exec.Keeps.{
  IsPreorder, Keeps, continue-Keeps, Keeps-bind, Keeps-lift, Keeps-pure, Keeps-throw,
}

-- Anything but a value.
abbrev pub IsStopped {ℓ} : {A : Type ℓ} → Outcome A → Type 0
IsStopped (ok a) = ⊥
IsStopped (err e) = Unit
IsStopped (panicked p) = Unit
IsStopped out_of_fuel = Unit

-- `extend s j` is `s` with more input.
module _ {S : Type 0} (extend : S → List ℕ → S) (R : S → S → Type 0) where
  -- A result, and the result with more input `j`: it is the same, and `j` is left; or the first has
  -- stopped, and the second has gone on from there.
  pub data Both {ℓ} {A : Type ℓ} (j : List ℕ) : Outcome A × S → Outcome A × S → Type ℓ where
    same : (r : Outcome A) (s : S) → Both j (r, s) (r, extend s j)
    starved : (r r' : Outcome A) (s s' : S) → IsStopped r → R s s' → Both j (r, s) (r', s')

  pub record Causal {ℓ} {A : Type ℓ} (m : Exec S A) : Type ℓ where
    pub keeps : Keeps R m
    pub at : (s : S) (j : List ℕ) → Both j (m s) (m (extend s j))

module _ {S : Type 0} {extend : S → List ℕ → S} {R : S → S → Type 0} ⦃P : IsPreorder R⦄ where
  stopped {ℓ κ} :
      {A : Type ℓ} {C : Type κ} (j : List ℕ) (r : Outcome A) (f : A → Exec S C) (s : S)
      (q : Outcome C × S)
      → IsStopped r
      → R s q.1
      → Both extend R j (continue r f s) q
  stopped j (ok a) f s q h k = absurd h
  stopped j (err e) f s (r, t) h k = starved (err e) r s t tt k
  stopped j (panicked p) f s (r, t) h k = starved (panicked p) r s t tt k
  stopped j out_of_fuel f s (r, t) h k = starved out_of_fuel r s t tt k

  -- What comes after two such results.
  pub continue-Both {ℓ κ} :
      {A : Type ℓ} {C : Type κ} (j : List ℕ) (p q : Outcome A × S) (f g : A → Exec S C)
      → Both extend R j p q
      → ((a : A) (s : S) → Both extend R j (f a s) (g a (extend s j)))
      → ((a : A) → Keeps R (g a))
      → Both extend R j (continue p.0 f p.1) (continue q.0 g q.1)
  continue-Both j p q f g (same (ok a) s) h k = h a s
  continue-Both j p q f g (same (err e) s) h k = same (err e) s
  continue-Both j p q f g (same (panicked x) s) h k = same (panicked x) s
  continue-Both j p q f g (same out_of_fuel s) h k = same out_of_fuel s
  continue-Both j p q f g (starved r r' s s' x m) h k =
      stopped j r f s (continue r' g s') x (continue-Keeps r' g s s' m k)

  pub Causal-bind {ℓ κ} :
      {A : Type ℓ} {C : Type κ} (m : Exec S A) (f : A → Exec S C)
      → Causal extend R m
      → ((a : A) → Causal extend R (f a))
      → Causal extend R (m >>= f)
  Causal-bind m f c d = record {
    keeps = Keeps-bind m f c.keeps (λ a. (d a).keeps);
    at = λ s j.
        continue-Both j (m s) (m (extend s j)) f f (c.at s j) (λ a t. (d a).at t j)
          (λ a. (d a).keeps);
  }

  pub Causal-lift {ℓ} : {A : Type ℓ} (r : Outcome A) → Causal extend R (lift r)
  Causal-lift r = record { keeps = Keeps-lift r; at = λ s j. same r s }

  pub Causal-pure {ℓ} : {A : Type ℓ} (a : A) → Causal extend R (pure a)
  Causal-pure a = record { keeps = Keeps-pure a; at = λ s j. same (ok a) s }

  pub Causal-throw {ℓ} : {A : Type ℓ} (e : Error) → Causal extend R (throw {A = A} e)
  Causal-throw e = record { keeps = Keeps-throw e; at = λ s j. same (err e) s }

  pub Causal-if {ℓ} :
      {A : Type ℓ} (b : Bool) (m n : Exec S A)
      → Causal extend R m
      → Causal extend R n
      → Causal extend R (if b then m else n)
  Causal-if true m n hm hn = hm
  Causal-if false m n hm hn = hn

pub ruleset causal_rules = (Causal-bind, Causal-lift, Causal-pure, Causal-throw, Causal-if)
