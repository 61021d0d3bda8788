-- ===== src/Types/Counted/Wrapping.antt =====
-- `Vec16<T>` of any length: `len() as i16` wraps around.
use fakepostmaster.Prelude.{
  ℕ, zero, suc, ◌%◌, ◌≤◌, ◌≡◌, refl, ap, sym, ◌∙◌, List, [], ◌∷◌, ◌++◌, append_assoc, length,
  length-take, take, drop, take-append-drop, All, concat_map, ltb, if◌then◌else◌, arith,
}
use fakepostmaster.Int.{m16, IsSigned, as_i16, rounds}
use fakepostmaster.Outcome.{ok}
use fakepostmaster.Buffer.{BytesCrate}
use fakepostmaster.Wire.{Wire}
use fakepostmaster.Wire.Lawful.{IsSized, ReadsBack}
use fakepostmaster.Types.Scalar.Laws.{i16-ReadsBack}
use fakepostmaster.Types.Counted.{vec16, deserialize_elements}
use fakepostmaster.Types.Counted.Laws.{vec16-IsSized, vec16_encode, deserialize_elements-encode}

-- The rounds of a reader of a `Vec16` of so many elements.
abbrev pub counted : ℕ → ℕ
counted n = if ltb (n % 65536) 32768 then n % 65536 else 0

rounds-as_i16 : (n : ℕ) → rounds (as_i16 n) ≡ counted n
unfolding as_i16
rounds-as_i16 n = ground arith

as_i16-IsSigned : (n : ℕ) → IsSigned m16 (as_i16 n)
unfolding as_i16
as_i16-IsSigned n = ground arith

pub counted_le : (n : ℕ) → counted n ≤ n
counted_le n = ground arith

All-take : {A : Type 0} (P : A → Type 0) (n : ℕ) (xs : List A) → All P xs → All P (take n xs)
All-take P zero xs h = tt
All-take P (suc n) [] h = tt
All-take P (suc n) (x ∷ xs) h = (h.0, All-take P n xs h.1)

concat_map-append :
    {A : Type 0} (f : A → List ℕ) (xs ys : List A)
    → concat_map f (xs ++ ys) ≡ concat_map f xs ++ concat_map f ys
concat_map-append f [] ys = refl
concat_map-append f (x ∷ xs) ys =
    ap (λ t. f x ++ t) (concat_map-append f xs ys)
    ∙ sym (append_assoc (f x) (concat_map f xs) (concat_map f ys))

module _ (B : BytesCrate) {A : Type 0} (w : Wire A) {IsValid : A → Type 0} {encode : A → List ℕ}
    {least : ℕ} (sized : IsSized w IsValid encode least) (reads : ReadsBack w IsValid encode) where
  split :
      (k : ℕ) (xs : List A) (rest : List ℕ)
      → concat_map encode xs ++ rest
        ≡ concat_map encode (take k xs) ++ (concat_map encode (drop k xs) ++ rest)
  split k xs rest =
      ap (λ t. concat_map encode t ++ rest) (sym (take-append-drop k xs))
      ∙ ap (λ t. t ++ rest) (concat_map-append encode (take k xs) (drop k xs))
      ∙ append_assoc (concat_map encode (take k xs)) (concat_map encode (drop k xs)) rest

  reads_first :
      (xs : List A) (rest : List ℕ)
      → All IsValid xs
      → (vec16 B w).deserialize (vec16_encode encode xs ++ rest)
        ≡ ok (
          take (counted (length xs)) xs,
          concat_map encode (drop (counted (length xs)) xs) ++ rest,
        )
  unfolding vec16
  reads_first xs rest v =
      let n = counted (length xs) in
      let e : length (take n xs) ≡ n = omega (arith, length-take n xs, counted_le (length xs)) in
      rw
        (
          i16-ReadsBack B (as_i16 (length xs)) (concat_map encode xs ++ rest)
              (as_i16-IsSigned (length xs)),
          rounds-as_i16 (length xs),
          split n xs rest,
        )
        (ap
            (λ k.
              deserialize_elements w k []
                (concat_map encode (take n xs) ++ (concat_map encode (drop n xs) ++ rest)))
            (sym e)
          ∙ deserialize_elements-encode w sized reads (take n xs) []
              (concat_map encode (drop n xs) ++ rest) (All-take IsValid n xs v))

  -- A `Vec16<T>` of any number of valid elements is read back as its first elements only: as many as
  -- the number is modulo 2^16, or none where that is 2^15 or more. What was written for the other
  -- elements stays in the buffer, and there is no error.
  pub vec16_wraps :
      (xs : List A) (rest : List ℕ)
      → All IsValid xs
      → (vec16 B w).deserialize ((vec16 B w).serialize xs [] ++ rest)
        ≡ ok (
          take (counted (length xs)) xs,
          concat_map encode (drop (counted (length xs)) xs) ++ rest,
        )
  vec16_wraps xs rest v =
      ap (λ t. (vec16 B w).deserialize (t ++ rest))
        ((vec16-IsSized B w sized).serialize_appends xs [])
      ∙ reads_first xs rest v
