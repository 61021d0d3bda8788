-- ===== src/Types/Text/Reading.antt =====
-- What `CString` reads off any buffer.
use mathlib.Core.Path.{subst}
use fakepostmaster.Prelude.{
  ℕ, zero, suc, ◌<◌, ◌≡◌, refl, List, [], ◌∷◌, ◌++◌, append-nil, append_assoc, length, arith,
  test_pos, false,
}
use fakepostmaster.Outcome.{Outcome, ok, err, try_get_error}
use fakepostmaster.Buffer.{BytesCrate}
use fakepostmaster.Types.Text.{has_nul, read_until_nul, cstring}

-- A text behind `v` is read up to the first zero byte of a buffer, or there is none.
pub data UpToNul (v : List ℕ) : List ℕ → Outcome (List ℕ × List ℕ) → Type 0 where
  found : (s rest : List ℕ) → has_nul s ≡ false → UpToNul v (s ++ 0 ∷ rest) (ok (v ++ s, rest))
  missing : (buffer : List ℕ) → has_nul buffer ≡ false → UpToNul v buffer (err try_get_error)

has_nul-cons : (c : ℕ) (s : List ℕ) → has_nul s ≡ false → has_nul (suc c ∷ s) ≡ false
unfolding has_nul
has_nul-cons c s h = rw (test_pos (suc c) (omega arith)) h

UpToNul-cons :
    (c : ℕ) (v buffer : List ℕ) (r : Outcome (List ℕ × List ℕ))
    → UpToNul (v ++ suc c ∷ []) buffer r
    → UpToNul v (suc c ∷ buffer) r
UpToNul-cons c v buffer r (found s rest h) =
    rw (append_assoc v (suc c ∷ []) s) (found (suc c ∷ s) rest (has_nul-cons c s h))
UpToNul-cons c v buffer r (missing _ h) = missing (suc c ∷ buffer) (has_nul-cons c buffer h)

module _ (B : BytesCrate) where
  open B use {try_get_u8_some, try_get_u8_none}

  read_until_nul-UpToNul :
      (f c : ℕ) (v buffer : List ℕ)
      → length buffer < f
      → UpToNul v (c ∷ buffer) (read_until_nul B f c v buffer)
  unfolding read_until_nul has_nul
  read_until_nul-UpToNul zero c v buffer h = absurd (omega arith)
  read_until_nul-UpToNul (suc f) zero v buffer h =
      subst (λ t. UpToNul v (0 ∷ buffer) (ok (t, buffer))) (append-nil v) (found [] buffer refl)
  read_until_nul-UpToNul (suc f) (suc c) v [] h =
      rw (test_pos (suc c) (omega arith), try_get_u8_none)
        (missing (suc c ∷ []) (has_nul-cons c [] refl))
  read_until_nul-UpToNul (suc f) (suc c) v (b ∷ buffer) h =
      rw (test_pos (suc c) (omega arith), try_get_u8_some b buffer)
        (UpToNul-cons c v (b ∷ buffer) _
          (read_until_nul-UpToNul f b (v ++ suc c ∷ []) buffer (omega arith)))

  -- On every buffer, `CString` returns the bytes up to the first zero byte, which none of them is,
  -- and leaves what is behind it; or no byte of the buffer is zero, and it is an error.
  pub cstring-UpToNul : (bs : List ℕ) → UpToNul [] bs ((cstring B).deserialize bs)
  unfolding cstring has_nul
  cstring-UpToNul [] = rw try_get_u8_none (missing [] refl)
  cstring-UpToNul (b ∷ bs) =
      rw (try_get_u8_some b bs) (read_until_nul-UpToNul (suc (length bs)) b [] bs (omega arith))
