-- ===== src/Types/Counted/Laws.antt =====
-- `Vec16<T>` and `Vec32<T>` keep the promise of the traits if `T` does.
use fakepostmaster.Prelude.{
  ℕ, zero, suc, ◌+◌, ◌≤◌, ◌<◌, ◌≡◌, ap, sym, ◌∙◌, List, [], ◌∷◌, ◌++◌, append_assoc, append-nil,
  length, length-append, All, concat_map, arith,
}
use fakepostmaster.Int.{pos, negsuc, as_i16, as_i32, i16_to_be_bytes, i32_to_be_bytes, rounds}
use fakepostmaster.Int.Laws.{add_i32_small, as_i16_small, as_i32_small}
use fakepostmaster.Outcome.{ok}
use fakepostmaster.Outcome.Laws.{Returns, holds, Returns-bind, Returns-weaken}
use fakepostmaster.Buffer.{BytesCrate}
use fakepostmaster.Wire.{Wire}
use fakepostmaster.Wire.Lawful.{IsSized, ReadsBack}
use fakepostmaster.Types.Scalar.Laws.{i16-IsSized, i32-IsSized, i16-ReadsBack, i32-ReadsBack}
use fakepostmaster.Types.Counted.{serialize_elements, add_sizes, deserialize_elements, vec16, vec32}

module _ {A : Type 0} (w : Wire A) {IsValid : A → Type 0} {encode : A → List ℕ} {least : ℕ}
    (sized : IsSized w IsValid encode least) where
  open sized use {serialize_appends, size_exact, takes}

  pub serialize_elements_appends :
      (xs : List A) (buf : List ℕ) → serialize_elements w xs buf ≡ buf ++ concat_map encode xs
  unfolding serialize_elements
  serialize_elements_appends [] buf = sym (append-nil buf)
  serialize_elements_appends (x ∷ xs) buf =
      serialize_elements_appends xs (w.serialize x buf)
      ∙ rw (serialize_appends x buf, append_assoc buf (encode x) (concat_map encode xs))

  pub add_sizes_exact :
      (xs : List A) (n : ℕ)
      → All IsValid xs
      → n + length (concat_map encode xs) < 2147483648
      → add_sizes w (pos n) xs ≡ pos (n + length (concat_map encode xs))
  unfolding add_sizes
  add_sizes_exact [] n v h = ap pos (omega arith)
  add_sizes_exact (x ∷ xs) n v h =
      let e = length-append (encode x) (concat_map encode xs) in
      rw (size_exact x v.0 (omega arith), add_i32_small n (length (encode x)) (omega arith))
        (add_sizes_exact xs (n + length (encode x)) v.1 (omega arith) ∙ ap pos (omega arith))

  pub deserialize_elements_takes :
      (n : ℕ) (v : List A) (bs : List ℕ)
      → Returns (λ r. length r.1 ≤ length bs) (deserialize_elements w n v bs)
  unfolding deserialize_elements
  deserialize_elements_takes zero v bs = holds (omega arith)
  deserialize_elements_takes (suc n) v bs = Returns-bind (takes bs) λ (x, rest) h.
      Returns-weaken (λ r l. omega arith) (deserialize_elements_takes n (v ++ x ∷ []) rest)

  pub deserialize_elements-encode :
      (reads : ReadsBack w IsValid encode) (xs v : List A) (rest : List ℕ)
      → All IsValid xs
      → deserialize_elements w (length xs) v (concat_map encode xs ++ rest) ≡ ok (v ++ xs, rest)
  unfolding deserialize_elements
  deserialize_elements-encode reads [] v rest h = rw append-nil
  deserialize_elements-encode reads (x ∷ xs) v rest h =
      rw
        (
          append_assoc (encode x) (concat_map encode xs) rest,
          reads x (concat_map encode xs ++ rest) h.0,
        )
        (deserialize_elements-encode reads xs (v ++ x ∷ []) rest h.1
          ∙ ap (λ t. ok (t, rest)) (append_assoc v (x ∷ []) xs))

-- As many elements as the count can say, each of them valid.
abbrev pub IsVec16 : {A : Type 0} → (A → Type 0) → List A → Type 0
IsVec16 IsValid xs = (length xs < 32768) × All IsValid xs

abbrev pub IsVec32 : {A : Type 0} → (A → Type 0) → List A → Type 0
IsVec32 IsValid xs = (length xs < 2147483648) × All IsValid xs

-- The count, and the elements one after the other.
abbrev pub vec16_encode : {A : Type 0} → (A → List ℕ) → List A → List ℕ
vec16_encode encode xs = i16_to_be_bytes (as_i16 (length xs)) ++ concat_map encode xs

abbrev pub vec32_encode : {A : Type 0} → (A → List ℕ) → List A → List ℕ
vec32_encode encode xs = i32_to_be_bytes (as_i32 (length xs)) ++ concat_map encode xs

module _ (B : BytesCrate) {A : Type 0} (w : Wire A) {IsValid : A → Type 0} {encode : A → List ℕ}
    {least : ℕ} (sized : IsSized w IsValid encode least) where
  pub vec16-IsSized : IsSized (vec16 B w) (IsVec16 IsValid) (vec16_encode encode) 2
  unfolding vec16
  vec16-IsSized = record {
    serialize_appends = λ xs buf.
        serialize_elements_appends w sized xs _
        ∙ rw ((i16-IsSized B).serialize_appends (as_i16 (length xs)) buf)
            (append_assoc buf (i16_to_be_bytes (as_i16 (length xs))) (concat_map encode xs));
    size_exact = λ xs v h. add_sizes_exact w sized xs 2 v.1 (omega arith) ∙ ap pos (omega arith);
    takes = λ bs. Returns-bind ((i16-IsSized B).takes bs) λ (len, rest) h.
        Returns-weaken (λ r l. omega arith)
          (deserialize_elements_takes w sized (rounds len) [] rest);
    encode_least = λ xs v. omega arith;
  }

  pub vec16-ReadsBack :
      ReadsBack w IsValid encode → ReadsBack (vec16 B w) (IsVec16 IsValid) (vec16_encode encode)
  unfolding vec16
  vec16-ReadsBack reads xs rest (hn, h) =
      rw
        (
          as_i16_small (length xs) hn,
          i16-ReadsBack B (pos (length xs)) (concat_map encode xs ++ rest) hn,
        )
        (deserialize_elements-encode w sized reads xs [] rest h)

  pub vec32-IsSized : IsSized (vec32 B w) (IsVec32 IsValid) (vec32_encode encode) 4
  unfolding vec32
  vec32-IsSized = record {
    serialize_appends = λ xs buf.
        serialize_elements_appends w sized xs _
        ∙ rw ((i32-IsSized B).serialize_appends (as_i32 (length xs)) buf)
            (append_assoc buf (i32_to_be_bytes (as_i32 (length xs))) (concat_map encode xs));
    size_exact = λ xs v h. add_sizes_exact w sized xs 4 v.1 (omega arith) ∙ ap pos (omega arith);
    takes = λ bs. Returns-bind ((i32-IsSized B).takes bs) λ (len, rest) h.
        Returns-weaken (λ r l. omega arith)
          (deserialize_elements_takes w sized (rounds len) [] rest);
    encode_least = λ xs v. omega arith;
  }

  pub vec32-ReadsBack :
      ReadsBack w IsValid encode → ReadsBack (vec32 B w) (IsVec32 IsValid) (vec32_encode encode)
  unfolding vec32
  vec32-ReadsBack reads xs rest (hn, h) =
      rw
        (
          as_i32_small (length xs) hn,
          i32-ReadsBack B (pos (length xs)) (concat_map encode xs ++ rest) hn,
        )
        (deserialize_elements-encode w sized reads xs [] rest h)

module _ (B : BytesCrate) {A : Type 0} (w : Wire A) where
  -- A count below zero that an `i32` holds, such as the -1 of a NULL column, is read as no elements at
  -- all, and what follows it stays in the buffer.
  pub vec32_null :
      (n : ℕ) (rest : List ℕ)
      → n < 2147483648
      → (vec32 B w).deserialize (i32_to_be_bytes (negsuc n) ++ rest) ≡ ok ([], rest)
  unfolding vec32 deserialize_elements
  vec32_null n rest h = rw (i32-ReadsBack B (negsuc n) rest h)
