-- ===== src/Types/Utf8.antt =====
-- `CString::into_string`: the bytes have to be UTF-8.
use fakepostmaster.Prelude.{
  ℕ, zero, suc, Bool, true, false, ◌&&◌, List, [], ◌∷◌, leb, le→leb, All, ◌<◌, ◌≡◌, refl, ap, ◌∙◌,
  arith, if◌then◌else◌,
}
use fakepostmaster.Outcome.{Outcome, ok, err, into_string_error}

abbrev within : ℕ → ℕ → ℕ → Bool
within lo hi b = leb lo b && leb b hi

-- What may come next: `more` continuation bytes, the first of them from `lo` to `hi`.
pub record Pending : Type 0 where
  pub more : ℕ
  pub lo : ℕ
  pub hi : ℕ

abbrev pending : ℕ → ℕ → ℕ → Pending
pending more lo hi = record { more = more; lo = lo; hi = hi }

-- What a first byte announces; a bound that no byte meets where it can be no first byte.
lead : ℕ → Pending
lead b =
    if leb b 0x7f
    then pending 0 0 0
    else if within 0xc2 0xdf b
    then pending 1 0x80 0xbf
    else if within 0xe0 0xe0 b
    then pending 2 0xa0 0xbf
    else if within 0xed 0xed b
    then pending 2 0x80 0x9f
    else if within 0xe1 0xef b
    then pending 2 0x80 0xbf
    else if within 0xf0 0xf0 b
    then pending 3 0x90 0xbf
    else if within 0xf1 0xf3 b
    then pending 3 0x80 0xbf
    else if within 0xf4 0xf4 b
    then pending 3 0x80 0x8f
    else pending 1 1 0

utf8_from : ℕ → ℕ → ℕ → List ℕ → Bool
unfolding lead
utf8_from zero lo hi [] = true
utf8_from (suc n) lo hi [] = false
utf8_from zero lo hi (b ∷ bs) = utf8_from (lead b).more (lead b).lo (lead b).hi bs
utf8_from (suc n) lo hi (b ∷ bs) = within lo hi b && utf8_from n 0x80 0xbf bs

unfoldable pub is_utf8 : List ℕ → Bool
unfolding utf8_from
is_utf8 bs = utf8_from 0 0 0 bs

unfoldable pub into_string : List ℕ → Outcome (List ℕ)
unfolding is_utf8
into_string s = if is_utf8 s then ok s else err into_string_error

lead-ascii : (b : ℕ) → b < 128 → lead b ≡ pending 0 0 0
unfolding lead
lead-ascii b h = rw (le→leb b 0x7f (omega arith))

utf8_from-ascii : (bs : List ℕ) (lo hi : ℕ) → All (λ b. b < 128) bs → utf8_from 0 lo hi bs ≡ true
unfolding utf8_from
utf8_from-ascii [] lo hi h = refl
utf8_from-ascii (b ∷ bs) lo hi h =
    ap (λ p. utf8_from p.more p.lo p.hi bs) (lead-ascii b h.0) ∙ utf8_from-ascii bs 0 0 h.1

-- ASCII text is UTF-8.
pub is_utf8-ascii : (bs : List ℕ) → All (λ b. b < 128) bs → is_utf8 bs ≡ true
unfolding is_utf8
is_utf8-ascii bs h = utf8_from-ascii bs 0 0 h
