-- ===== src/Types/Canonical.antt =====
-- The types of libpq-serde-types read valid values only, and take their encoding.
use fakepostmaster.Prelude.{
  ℕ, zero, suc, ◌≡◌, refl, ap, sym, false, List, [], ◌∷◌, ◌++◌, append_assoc, length, take, drop,
  take-append-drop, length-take, All, arith, test_pos,
}
use mathlib.Core.Path.{subst}
use native.Mathlib.Decide.{dec_le}
use fakepostmaster.Int.{
  m8, m16, m32, IsSigned, IsByte, i8_to_be_bytes, i16_to_be_bytes, i32_to_be_bytes,
}
use fakepostmaster.Int.Canonical.{i8_bytes, i16_bytes, i32_bytes}
use fakepostmaster.Outcome.{Outcome}
use fakepostmaster.Outcome.Laws.{Returns, holds, failed}
use fakepostmaster.Buffer.{BytesCrate}
use fakepostmaster.Wire.Lawful.{IsCanonical, All-front}
use fakepostmaster.Types.Scalar.{i8, i16, i32, byte, byte4}
use fakepostmaster.Types.Scalar.Laws.{IsByte4, byte_encode, byte4_encode}
use fakepostmaster.Types.Text.{has_nul, cstring}
use fakepostmaster.Types.Text.Laws.{IsText, cstring_encode}
use fakepostmaster.Types.Text.Reading.{UpToNul, found, missing, cstring-UpToNul}

All-take : {A : Type 0} (P : A → Type 0) (n : ℕ) (xs : List A) → All P xs → All P (take n xs)
All-take P n xs h =
    All-front P (take n xs) (drop n xs) (subst (All P) (sym (take-append-drop n xs)) h)

has_nul-false : (s : List ℕ) → All IsByte s → has_nul s ≡ false → IsText s
unfolding has_nul
has_nul-false [] b h = tt
has_nul-false (zero ∷ s) b h = cc
has_nul-false (suc c ∷ s) b h =
    ((omega arith, b.0), has_nul-false s b.1 (rw (test_pos (suc c) (omega arith)) at h))

UpToNul-Returns :
    (bs : List ℕ) (r : Outcome (List ℕ × List ℕ))
    → UpToNul [] bs r
    → All IsByte bs
    → Returns (λ t. IsText t.0 × (bs ≡ cstring_encode t.0 ++ t.1)) r
UpToNul-Returns bs r (found s rest h) b =
    holds (has_nul-false s (All-front IsByte s (0 ∷ rest) b) h, sym (append_assoc s (0 ∷ []) rest))
UpToNul-Returns bs r (missing _ h) b = failed

module _ (B : BytesCrate) where
  open B use {
    try_get_u8_some, try_get_u8_none, try_get_i8_some, try_get_i8_none, try_get_i16_some,
    try_get_i16_none, try_get_i32_some, try_get_i32_none, try_copy_to_slice_some,
    try_copy_to_slice_none,
  }

  pub byte-IsCanonical : IsCanonical (byte B) IsByte byte_encode
  unfolding byte
  byte-IsCanonical [] h = rw try_get_u8_none failed
  byte-IsCanonical (a ∷ bs) h = rw (try_get_u8_some a bs) (holds (h.0, refl))

  pub i8-IsCanonical : IsCanonical (i8 B) (IsSigned m8) i8_to_be_bytes
  unfolding i8
  i8-IsCanonical [] h = rw try_get_i8_none failed
  i8-IsCanonical (a ∷ bs) h =
      rw (try_get_i8_some a bs)
        (holds ((i8_bytes a h.0).0, ap (λ t. t ++ bs) (sym (i8_bytes a h.0).1)))

  pub i16-IsCanonical : IsCanonical (i16 B) (IsSigned m16) i16_to_be_bytes
  unfolding i16
  i16-IsCanonical [] h = rw (try_get_i16_none [] (omega arith)) failed
  i16-IsCanonical (a ∷ []) h = rw (try_get_i16_none (a ∷ []) (omega arith)) failed
  i16-IsCanonical (a ∷ b ∷ bs) (ha, (hb, h)) =
      let (v, e) = i16_bytes a ha b hb in
      rw (try_get_i16_some a b bs) (holds (v, ap (λ t. t ++ bs) (sym e)))

  pub i32-IsCanonical : IsCanonical (i32 B) (IsSigned m32) i32_to_be_bytes
  unfolding i32
  i32-IsCanonical [] h = rw (try_get_i32_none [] (omega arith)) failed
  i32-IsCanonical (a ∷ []) h = rw (try_get_i32_none (a ∷ []) (omega arith)) failed
  i32-IsCanonical (a ∷ b ∷ []) h = rw (try_get_i32_none (a ∷ b ∷ []) (omega arith)) failed
  i32-IsCanonical (a ∷ b ∷ c ∷ []) h = rw (try_get_i32_none (a ∷ b ∷ c ∷ []) (omega arith)) failed
  i32-IsCanonical (a ∷ b ∷ c ∷ d ∷ bs) (ha, (hb, (hc, (hd, h)))) =
      let (v, e) = i32_bytes a ha b hb c hc d hd in
      rw (try_get_i32_some a b c d bs) (holds (v, ap (λ t. t ++ bs) (sym e)))

  pub byte4-IsCanonical : IsCanonical (byte4 B) IsByte4 byte4_encode
  unfolding byte4
  byte4-IsCanonical bs h = elim (dec_le 4 (length bs)) [
    | yes l ↦ rw (try_copy_to_slice_some 4 bs l) (
        holds
          ((omega (arith, length-take 4 bs), All-take IsByte 4 bs h), sym (take-append-drop 4 bs)))
    | no l ↦ rw (try_copy_to_slice_none 4 bs (omega arith)) failed
  ]

  pub cstring-IsCanonical : IsCanonical (cstring B) IsText cstring_encode
  cstring-IsCanonical bs h = UpToNul-Returns bs _ (cstring-UpToNul B bs) h
