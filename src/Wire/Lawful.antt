-- ===== src/Wire/Lawful.antt =====
-- What the three traits promise together, over a format that is described apart from the code.
use fakepostmaster.Prelude.{ℕ, ◌+◌, ◌≤◌, ◌<◌, ◌≡◌, List, [], ◌∷◌, ◌++◌, append-nil, length, All}
use fakepostmaster.Int.{pos, IsByte}
use fakepostmaster.Outcome.{ok}
use fakepostmaster.Outcome.Laws.{Returns}
use fakepostmaster.Wire.{Wire}

-- The part of the promise that does not depend on what follows the value in the buffer: `serialize`
-- appends `encode a`, `byte_size` is its length where the value is valid and an
-- `i32` holds it, and `deserialize` neither panics nor loops, and takes `least` bytes or more.
pub record IsSized {A : Type 0} (w : Wire A) (IsValid : A → Type 0) (encode : A → List ℕ)
    (least : ℕ) : Type 0 where
  pub serialize_appends : (a : A) (buf : List ℕ) → w.serialize a buf ≡ buf ++ encode a
  pub size_exact :
      (a : A) → IsValid a → length (encode a) < 2147483648 → w.byte_size a ≡ pos (length (encode a))
  pub takes : (bs : List ℕ) → Returns (λ r. length r.1 + least ≤ length bs) (w.deserialize bs)
  pub encode_least : (a : A) → IsValid a → least ≤ length (encode a)

-- `deserialize` reads a valid value back and leaves what follows it.
abbrev pub ReadsBack : {A : Type 0} → Wire A → (A → Type 0) → (A → List ℕ) → Type 0
ReadsBack {A} w IsValid encode =
    (a : A) (rest : List ℕ) → IsValid a → w.deserialize (encode a ++ rest) ≡ ok (a, rest)

-- `deserialize` reads a valid value back from a buffer that holds nothing else.
abbrev pub ReadsBackWhole : {A : Type 0} → Wire A → (A → Type 0) → (A → List ℕ) → Type 0
ReadsBackWhole {A} w IsValid encode = (a : A) → IsValid a → w.deserialize (encode a) ≡ ok (a, [])

pub ReadsBack-ReadsBackWhole :
    {A : Type 0} (w : Wire A) (IsValid : A → Type 0) (encode : A → List ℕ)
    → ReadsBack w IsValid encode
    → ReadsBackWhole w IsValid encode
ReadsBack-ReadsBackWhole w IsValid encode h a v = rw (append-nil (encode a)) at (h a [] v)

-- Whatever the bytes are, `deserialize` returns, with a valid value or an error; and what it takes is
-- the encoding of the value, so that no other bytes are read as it.
abbrev pub IsCanonical : {A : Type 0} → Wire A → (A → Type 0) → (A → List ℕ) → Type 0
IsCanonical w IsValid encode =
    (bs : List ℕ)
    → All IsByte bs
    → Returns (λ r. IsValid r.0 × (bs ≡ encode r.0 ++ r.1)) (w.deserialize bs)

pub All-back {ℓ} : {A : Type ℓ} (P : A → Type 0) (xs ys : List A) → All P (xs ++ ys) → All P ys
All-back P [] ys h = h
All-back P (x ∷ xs) ys h = All-back P xs ys h.1

pub All-front {ℓ} : {A : Type ℓ} (P : A → Type 0) (xs ys : List A) → All P (xs ++ ys) → All P xs
All-front P [] ys h = tt
All-front P (x ∷ xs) ys h = (h.0, All-front P xs ys h.1)
