-- ===== src/Types/Counted/Reading.antt =====
-- What vectors with a count read, where a value can have several encodings: those of their elements.
use fakepostmaster.Prelude.{
  ℕ, zero, suc, ◌≡◌, refl, ap, sym, ◌∙◌, List, [], ◌∷◌, ◌++◌, append_assoc, append-nil, length, All,
  arith,
}
use mathlib.Core.Path.{subst}
use fakepostmaster.Int.{ℤ, m16, m32, IsSigned, IsByte, rounds, i16_to_be_bytes, i32_to_be_bytes}
use fakepostmaster.Outcome.Laws.{Returns, holds, Returns-bind, Returns-weaken}
use fakepostmaster.Buffer.{BytesCrate}
use fakepostmaster.Wire.{Wire}
use fakepostmaster.Wire.Lawful.{IsCanonical, All-back}
use fakepostmaster.Types.Canonical.{i16-IsCanonical, i32-IsCanonical}
use fakepostmaster.Types.Counted.{deserialize_elements, vec16, vec32}

-- The bytes that have been taken encode the value that has been read.
abbrev pub Taken : {A : Type 0} → (List ℕ → A → Type 0) → List ℕ → A × List ℕ → Type 0
Taken R bs r = (chunk : List ℕ) × R chunk r.0 × (bs ≡ chunk ++ r.1)

-- A type that takes an encoding of what it reads off any buffer.
abbrev pub Takes : {A : Type 0} → Wire A → (List ℕ → A → Type 0) → Type 0
Takes w R = (bs : List ℕ) → All IsByte bs → Returns (Taken R bs) (w.deserialize bs)

-- One valid encoding.
abbrev pub Encodes : {A : Type 0} → (A → Type 0) → (A → List ℕ) → List ℕ → A → Type 0
Encodes IsValid encode chunk a = IsValid a × (chunk ≡ encode a)

pub IsCanonical-Takes :
    {A : Type 0} (w : Wire A) (IsValid : A → Type 0) (encode : A → List ℕ)
    → IsCanonical w IsValid encode
    → Takes w (Encodes IsValid encode)
IsCanonical-Takes w IsValid encode c bs b =
    Returns-weaken (λ r (v, e). (encode r.0, (v, refl), e)) (c bs b)

module _ {A : Type 0} (R : List ℕ → A → Type 0) where
  -- An encoding of each element, one after the other.
  pub data InTurn : List ℕ → List A → Type 0 where
    none_left : InTurn [] []
    next :
        (chunk chunks : List ℕ) (x : A) (xs : List A)
        → R chunk x
        → InTurn chunks xs
        → InTurn (chunk ++ chunks) (x ∷ xs)

  -- A count, and an encoding of each of as many elements as it says; of none, if it is below zero.
  pub record CountedBy (count_encode : ℤ → List ℕ) (IsCount : ℤ → Type 0) (chunk : List ℕ)
      (xs : List A) : Type 0 where
    pub count : ℤ
    pub count_IsCount : IsCount count
    pub as_many : length xs ≡ rounds count
    pub chunks : List ℕ
    pub elements : InTurn chunks xs
    pub chunk_is : chunk ≡ count_encode count ++ chunks

module _ {A : Type 0} (w : Wire A) (R : List ℕ → A → Type 0) (takes : Takes w R) where
  -- The elements of a result that follow `v`, and what they were read from.
  abbrev TakenAfter : ℕ → List A → List ℕ → List A × List ℕ → Type 0
  TakenAfter n v bs r =
      (xs : List A) × (chunks : List ℕ) × (r.0 ≡ v ++ xs)
      × (length xs ≡ n)
      × InTurn R chunks xs
      × (bs ≡ chunks ++ r.1)

  TakenAfter-next :
      (n : ℕ) (v : List A) (bs chunk rest : List ℕ) (x : A) (r : List A × List ℕ)
      → R chunk x
      → bs ≡ chunk ++ rest
      → TakenAfter n (v ++ x ∷ []) rest r
      → TakenAfter (suc n) v bs r
  TakenAfter-next n v bs chunk rest x r c e (xs, chunks, s, l, t, e') = (
    x ∷ xs,
    chunk ++ chunks,
    s ∙ append_assoc v (x ∷ []) xs,
    omega arith,
    next chunk chunks x xs c t,
    e ∙ ap (λ i. chunk ++ i) e' ∙ sym (append_assoc chunk chunks r.1),
  )

  deserialize_elements-TakenAfter :
      (n : ℕ) (v : List A) (bs : List ℕ)
      → All IsByte bs
      → Returns (TakenAfter n v bs) (deserialize_elements w n v bs)
  unfolding deserialize_elements
  deserialize_elements-TakenAfter zero v bs b =
      holds ([], [], sym (append-nil v), refl, none_left, refl)
  deserialize_elements-TakenAfter (suc n) v bs b =
      Returns-bind (takes bs b) λ (x, rest) (chunk, c, e).
        Returns-weaken (λ r m. TakenAfter-next n v bs chunk rest x r c e m)
          (deserialize_elements-TakenAfter n (v ++ x ∷ []) rest
            (All-back IsByte chunk rest (subst (All IsByte) e b)))

  count_first :
      (count_encode : ℤ → List ℕ) (IsCount : ℤ → Type 0) (z : ℤ) (bs rest : List ℕ)
      → IsCount z
      → bs ≡ count_encode z ++ rest
      → All IsByte bs
      → Returns
          (Taken (CountedBy R count_encode IsCount) bs)
          (deserialize_elements w (rounds z) [] rest)
  count_first count_encode IsCount z bs rest c e b =
      Returns-weaken
        (λ r (xs, chunks, s, l, t, e'). (
          count_encode z ++ chunks,
          record {
            count = z;
            count_IsCount = c;
            as_many = ap length s ∙ l;
            chunks = chunks;
            elements = subst (InTurn R chunks) (sym s) t;
            chunk_is = refl;
          },
          e ∙ ap (λ i. count_encode z ++ i) e' ∙ sym (append_assoc (count_encode z) chunks r.1),
        ))
        (deserialize_elements-TakenAfter (rounds z) [] rest
          (All-back IsByte (count_encode z) rest (subst (All IsByte) e b)))

  module _ (B : BytesCrate) where
    pub vec16-Takes : Takes (vec16 B w) (CountedBy R i16_to_be_bytes (IsSigned m16))
    unfolding vec16
    vec16-Takes bs b =
        Returns-bind (i16-IsCanonical B bs b)
          λ (z, rest) (v, e). count_first i16_to_be_bytes (IsSigned m16) z bs rest v e b

    pub vec32-Takes : Takes (vec32 B w) (CountedBy R i32_to_be_bytes (IsSigned m32))
    unfolding vec32
    vec32-Takes bs b =
        Returns-bind (i32-IsCanonical B bs b)
          λ (z, rest) (v, e). count_first i32_to_be_bytes (IsSigned m32) z bs rest v e b

    -- On every buffer of bytes, if `T` takes an encoding of what it reads, a `Vec16<T>` or a `Vec32<T>`
    -- is an error; or a count and an encoding of each of as many elements as it says are taken off the
    -- buffer, of none if the count is below zero; and what follows is left.
    pub vec-CountedBy :
        (bs : List ℕ)
        → All IsByte bs
        → Returns
            (Taken (CountedBy R i16_to_be_bytes (IsSigned m16)) bs)
            ((vec16 B w).deserialize bs)
          × Returns
              (Taken (CountedBy R i32_to_be_bytes (IsSigned m32)) bs)
              ((vec32 B w).deserialize bs)
    vec-CountedBy bs b = (vec16-Takes bs b, vec32-Takes bs b)
