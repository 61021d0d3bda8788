-- ===== src/Types/Terminated/Canonical.antt =====
-- `VecNull<T>` reads valid values only, and takes their encoding, if `T` does.
use fakepostmaster.Prelude.{
  ℕ, zero, suc, ◌<◌, ◌≡◌, refl, ap, sym, ◌∙◌, List, [], ◌∷◌, ◌++◌, append_assoc, append-nil, length,
  length-append, All, concat_map, test_pos, not_one, arith,
}
use mathlib.Core.Path.{subst}
use fakepostmaster.Int.{IsByte}
use fakepostmaster.Outcome.Laws.{Returns, holds, failed, Returns-bind, Returns-weaken}
use fakepostmaster.Buffer.{BytesCrate}
use fakepostmaster.Wire.{Wire}
use fakepostmaster.Wire.Lawful.{IsSized, IsCanonical, All-back}
use fakepostmaster.Types.Terminated.{deserialize_until_last, vec_null}
use fakepostmaster.Types.Terminated.Laws.{vec_null_encode}

module _ (B : BytesCrate) {A : Type 0} (w : Wire A) {IsValid : A → Type 0} {encode : A → List ℕ}
    {least : ℕ} (sized : IsSized w IsValid encode (suc least))
    (canonical : IsCanonical w IsValid encode) where
  open B use {try_get_u8_some}

  -- The elements of a result that follow `v`, and what they were read from.
  abbrev ReadAfter : List A → List ℕ → List A × List ℕ → Type 0
  ReadAfter v bs r =
      (xs : List A) × (r.0 ≡ v ++ xs) × All IsValid xs × (bs ≡ vec_null_encode encode xs ++ r.1)

  ReadAfter-cons :
      (v : List A) (bs rest : List ℕ) (x : A) (r : List A × List ℕ)
      → IsValid x
      → bs ≡ encode x ++ rest
      → ReadAfter (v ++ x ∷ []) rest r
      → ReadAfter v bs r
  ReadAfter-cons v bs rest x r vx e (xs, s, vs, e') = (
    x ∷ xs,
    s ∙ append_assoc v (x ∷ []) xs,
    (vx, vs),
    e
        ∙ ap (λ t. encode x ++ t) e'
        ∙ sym (append_assoc (encode x) (vec_null_encode encode xs) r.1)
        ∙ ap (λ t. t ++ r.1) (sym (append_assoc (encode x) (concat_map encode xs) (0 ∷ []))),
  )

  deserialize_until_last-ReadAfter :
      (f : ℕ) (v : List A) (bs : List ℕ)
      → length bs < f
      → All IsByte bs
      → Returns (ReadAfter v bs) (deserialize_until_last B w f v bs)
  unfolding deserialize_until_last
  deserialize_until_last-ReadAfter zero v bs h b = absurd (omega arith)
  deserialize_until_last-ReadAfter (suc f) v [] h b = failed
  deserialize_until_last-ReadAfter (suc f) v (zero ∷ []) h b =
      rw (try_get_u8_some 0 []) (holds ([], sym (append-nil v), tt, refl))
  deserialize_until_last-ReadAfter (suc f) v (suc a ∷ []) h b =
      rw (try_get_u8_some (suc a) [], test_pos (suc a) (omega arith)) failed
  deserialize_until_last-ReadAfter (suc f) v (a ∷ c ∷ bs) h b =
      rw (not_one (length bs), test_pos (suc (suc (length bs))) (omega arith))
        (Returns-bind (canonical (a ∷ c ∷ bs) b) λ (x, rest) (vx, e).
          Returns-weaken (λ r m. ReadAfter-cons v (a ∷ c ∷ bs) rest x r vx e m)
            (deserialize_until_last-ReadAfter f (v ++ x ∷ []) rest
              (omega (arith, ap length e, length-append (encode x) rest, sized.encode_least x vx))
              (All-back IsByte (encode x) rest (subst (All IsByte) e b))))

  pub vec_null-IsCanonical : IsCanonical (vec_null B w) (All IsValid) (vec_null_encode encode)
  unfolding vec_null
  vec_null-IsCanonical bs b =
      Returns-weaken
        (λ r (xs, s, v, e).
          (subst (All IsValid) (sym s) v, e ∙ ap (λ t. vec_null_encode encode t ++ r.1) (sym s)))
        (deserialize_until_last-ReadAfter (suc (length bs)) [] bs (omega arith) b)
