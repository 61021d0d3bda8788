-- ===== src/Types/Terminated/Laws.antt =====
-- `VecNull<T>` keeps the promise of the traits over a whole buffer, if `T` takes a byte or more.
use fakepostmaster.Prelude.{
  ℕ, zero, suc, ◌+◌, ◌≤◌, ◌<◌, ◌≡◌, ap, ◌∙◌, List, [], ◌∷◌, ◌++◌, append_assoc, append-nil, length,
  length-append, All, concat_map, test_pos, not_one, test_false, arith,
}
use fakepostmaster.Int.{pos}
use fakepostmaster.Outcome.{ok}
use fakepostmaster.Outcome.Laws.{Returns, holds, failed, Returns-bind, Returns-weaken}
use fakepostmaster.Buffer.{BytesCrate}
use fakepostmaster.Wire.{Wire}
use fakepostmaster.Wire.Lawful.{IsSized, ReadsBack, ReadsBackWhole}
use fakepostmaster.Types.Counted.Laws.{serialize_elements_appends, add_sizes_exact}
use fakepostmaster.Types.Terminated.{deserialize_until_last, vec_null}

-- The elements one after the other, and a zero byte.
abbrev pub vec_null_encode : {A : Type 0} → (A → List ℕ) → List A → List ℕ
vec_null_encode encode xs = concat_map encode xs ++ 0 ∷ []

module _ (B : BytesCrate) {A : Type 0} (w : Wire A) {IsValid : A → Type 0} {encode : A → List ℕ}
    {least : ℕ} (sized : IsSized w IsValid encode (suc least)) where
  open B use {put_u8_appends, try_get_u8_some}

  deserialize_until_last_takes :
      (f : ℕ) (v : List A) (bs : List ℕ)
      → length bs < f
      → Returns (λ r. length r.1 + 1 ≤ length bs) (deserialize_until_last B w f v bs)
  unfolding deserialize_until_last
  deserialize_until_last_takes zero v bs h = absurd (omega arith)
  deserialize_until_last_takes (suc f) v [] h = failed
  deserialize_until_last_takes (suc f) v (zero ∷ []) h =
      rw (try_get_u8_some 0 []) (holds (omega arith))
  deserialize_until_last_takes (suc f) v (suc a ∷ []) h =
      rw (try_get_u8_some (suc a) [], test_pos (suc a) (omega arith)) failed
  deserialize_until_last_takes (suc f) v (a ∷ b ∷ bs) h =
      rw (not_one (length bs), test_pos (suc (suc (length bs))) (omega arith))
        (Returns-bind (sized.takes (a ∷ b ∷ bs)) λ (x, rest) l.
          Returns-weaken (λ r m. omega arith)
            (deserialize_until_last_takes f (v ++ x ∷ []) rest (omega arith)))

  pub vec_null-IsSized : IsSized (vec_null B w) (All IsValid) (vec_null_encode encode) 1
  unfolding vec_null
  vec_null-IsSized = record {
    serialize_appends = λ xs buf.
        rw (put_u8_appends, serialize_elements_appends w sized xs buf)
          (append_assoc buf (concat_map encode xs) (0 ∷ []));
    size_exact = λ xs v h.
        let e = length-append (concat_map encode xs) (0 ∷ []) in
        add_sizes_exact w sized xs 1 v (omega arith) ∙ ap pos (omega arith);
    takes = λ bs. deserialize_until_last_takes (suc (length bs)) [] bs (omega arith);
    encode_least = λ xs v. omega (arith, length-append (concat_map encode xs) (0 ∷ []));
  }

  length-vec_null :
      (x : A) (xs : List A)
      → IsValid x
      → 1 + length (vec_null_encode encode xs) ≤ length (encode x ++ vec_null_encode encode xs)
  length-vec_null x xs v =
      omega (arith, sized.encode_least x v, length-append (encode x) (vec_null_encode encode xs))

  length-vec_null_pos : (xs : List A) → 1 ≤ length (vec_null_encode encode xs)
  length-vec_null_pos xs = omega (arith, length-append (concat_map encode xs) (0 ∷ []))

  -- A round on a buffer of two bytes or more reads an element.
  deserialize_until_last_step :
      (f : ℕ) (v : List A) (bs rest : List ℕ) (x : A)
      → 1 < length bs
      → w.deserialize bs ≡ ok (x, rest)
      → deserialize_until_last B w (suc f) v bs ≡ deserialize_until_last B w f (v ++ x ∷ []) rest
  unfolding deserialize_until_last
  deserialize_until_last_step f v bs rest x h e =
      rw (test_false (length bs) 1 (omega arith), test_false (length bs) 0 (omega arith), e)

  deserialize_until_last-encode :
      (reads : ReadsBack w IsValid encode) (xs : List A) (f : ℕ) (v : List A)
      → All IsValid xs
      → length xs < f
      → deserialize_until_last B w f v (vec_null_encode encode xs) ≡ ok (v ++ xs, [])
  deserialize_until_last-encode reads xs zero v h hf = absurd (omega arith)
  deserialize_until_last-encode reads [] (suc f) v h hf =
      unfold deserialize_until_last in rw (try_get_u8_some 0 [], append-nil)
  deserialize_until_last-encode reads (x ∷ xs) (suc f) v h hf =
      rw (append_assoc (encode x) (concat_map encode xs) (0 ∷ [])) (
        deserialize_until_last_step f v _ _ x
          (omega (arith, length-vec_null x xs h.0, length-vec_null_pos xs)) (reads x _ h.0)
        ∙ deserialize_until_last-encode reads xs f (v ++ x ∷ []) h.1 (omega arith)
        ∙ ap (λ t. ok (t, [])) (append_assoc v (x ∷ []) xs))

  length-le : (xs : List A) → All IsValid xs → length xs < length (vec_null_encode encode xs)
  length-le [] h = omega arith
  length-le (x ∷ xs) h =
      rw (append_assoc (encode x) (concat_map encode xs) (0 ∷ []))
        (omega (arith, length-le xs h.1, length-vec_null x xs h.0))

  -- The elements are read back from a buffer that holds nothing else, and no fuel is missing.
  pub vec_null-ReadsBackWhole :
      ReadsBack w IsValid encode
      → ReadsBackWhole (vec_null B w) (All IsValid) (vec_null_encode encode)
  unfolding vec_null
  vec_null-ReadsBackWhole reads xs h =
      deserialize_until_last-encode reads xs _ [] h (omega (arith, length-le xs h))
