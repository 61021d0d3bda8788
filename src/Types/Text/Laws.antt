-- ===== src/Types/Text/Laws.antt =====
-- `CString` keeps the promise of the traits.
use fakepostmaster.Prelude.{
  ℕ, zero, suc, ◌+◌, ◌≤◌, ◌<◌, ◌≡◌, refl, ap, sym, ◌∙◌, List, [], ◌∷◌, ◌++◌, append_assoc, length,
  length-append, All, arith, test_pos, false,
}
use fakepostmaster.Int.{pos}
use fakepostmaster.Int.Laws.{as_i32_small, add_i32_small}
use fakepostmaster.Outcome.{ok}
use fakepostmaster.Outcome.Laws.{Returns, holds, failed, Returns-weaken}
use fakepostmaster.Buffer.{BytesCrate}
use fakepostmaster.Wire.Lawful.{IsSized, ReadsBack}
use fakepostmaster.Types.Text.{has_nul, cstring_new, read_until_nul, cstring}

-- A byte that is not the terminator.
abbrev pub IsTextByte : ℕ → Type 0
IsTextByte c = (0 < c) × (c < 256)

abbrev pub IsText : List ℕ → Type 0
IsText = All IsTextByte

abbrev pub cstring_encode : List ℕ → List ℕ
cstring_encode s = s ++ 0 ∷ []

pub has_nul-IsText : (s : List ℕ) → IsText s → has_nul s ≡ false
unfolding has_nul
has_nul-IsText [] h = refl
has_nul-IsText (c ∷ s) h = ground (arith, has_nul-IsText s)

-- Text with no zero byte makes a `CString` of the same bytes.
pub cstring_new-IsText : (s : List ℕ) → IsText s → cstring_new s ≡ ok s
unfolding cstring_new
cstring_new-IsText s h = rw (has_nul-IsText s h)

module _ (B : BytesCrate) where
  open B use {put_u8_appends, put_slice_appends, try_get_u8_some, try_get_u8_none}

  read_until_nul_takes :
      (f c : ℕ) (v buffer : List ℕ)
      → length buffer < f
      → Returns (λ r. length r.1 ≤ length buffer) (read_until_nul B f c v buffer)
  unfolding read_until_nul
  read_until_nul_takes zero c v buffer h = absurd (omega arith)
  read_until_nul_takes (suc f) zero v buffer h = holds (omega arith)
  read_until_nul_takes (suc f) (suc c) v [] h =
      rw (test_pos (suc c) (omega arith), try_get_u8_none) failed
  read_until_nul_takes (suc f) (suc c) v (b ∷ buffer) h =
      rw (test_pos (suc c) (omega arith), try_get_u8_some b buffer)
        (Returns-weaken (λ r l. omega arith)
          (read_until_nul_takes f b (v ++ suc c ∷ []) buffer (omega arith)))

  cstring_takes :
      (bs : List ℕ) → Returns (λ r. length r.1 + 1 ≤ length bs) ((cstring B).deserialize bs)
  unfolding cstring
  cstring_takes [] = rw try_get_u8_none failed
  cstring_takes (b ∷ bs) = rw (try_get_u8_some b bs) (
      Returns-weaken (λ r l. omega arith)
        (read_until_nul_takes (suc (length bs)) b [] bs (omega arith)))

  cstring_size :
      (s : List ℕ)
      → length (cstring_encode s) < 2147483648
      → (cstring B).byte_size s ≡ pos (length (cstring_encode s))
  unfolding cstring
  cstring_size s h =
      let e = length-append s (0 ∷ []) in
      rw (as_i32_small (length s) (omega arith), add_i32_small (length s) 1 (omega arith))
        (ap pos (sym e))

  pub cstring-IsSized : IsSized (cstring B) IsText cstring_encode 1
  unfolding cstring
  cstring-IsSized = record {
    serialize_appends =
        λ s buf. rw (put_u8_appends, put_slice_appends) (append_assoc buf s (0 ∷ []));
    size_exact = λ s v h. cstring_size s h;
    takes = cstring_takes;
    encode_least = λ s v. omega (arith, length-append s (0 ∷ []));
  }

  read_until_nul-encode :
      (f c : ℕ) (v s rest : List ℕ)
      → length s < f
      → 0 < c
      → IsText s
      → read_until_nul B (suc f) c v (s ++ 0 ∷ rest) ≡ ok (v ++ c ∷ s, rest)
  unfolding read_until_nul
  read_until_nul-encode zero c v s rest hf hc h = absurd (omega arith)
  read_until_nul-encode (suc f) zero v s rest hf hc h = absurd (omega arith)
  read_until_nul-encode (suc f) (suc c) v [] rest hf hc h =
      rw (test_pos (suc c) (omega arith), try_get_u8_some 0 rest)
  read_until_nul-encode (suc f) (suc c) v (d ∷ s) rest hf hc (hd, hs) =
      rw (test_pos (suc c) (omega arith), try_get_u8_some d (s ++ 0 ∷ rest))
        (read_until_nul-encode f d (v ++ suc c ∷ []) s rest (omega arith) hd.0 hs
          ∙ ap (λ t. ok (t, rest)) (append_assoc v (suc c ∷ []) (d ∷ s)))

  pub cstring-ReadsBack : ReadsBack (cstring B) IsText cstring_encode
  unfolding cstring
  cstring-ReadsBack [] rest h = unfold read_until_nul in rw (try_get_u8_some 0 rest)
  cstring-ReadsBack (c ∷ s) rest (hc, hs) =
      rw (append_assoc s (0 ∷ []) rest, try_get_u8_some c _)
        (read_until_nul-encode _ c [] s rest (omega (arith, length-append s (0 ∷ rest))) hc.0 hs)
