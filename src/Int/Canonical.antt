-- ===== src/Int/Canonical.antt =====
-- Every byte pattern of a machine integer is that of the number it is read as.
use fakepostmaster.Prelude.{ℕ, ◌+◌, ◌*◌, ◌/◌, ◌%◌, ◌<◌, ◌≡◌, refl, ap, [], ◌∷◌, arith}
use fakepostmaster.Int.{
  to_bits, of_bits, m8, m16, m32, IsSigned, IsByte, i8_to_be_bytes, i16_to_be_bytes,
  i32_to_be_bytes, i8_from_be_bytes, i16_from_be_bytes, i32_from_be_bytes,
}

to_bits-of_bits_8 : (u : ℕ) → u < m8 → to_bits m8 (of_bits m8 u) ≡ u
to_bits-of_bits_8 u h = ground arith

to_bits-of_bits_16 : (u : ℕ) → u < m16 → to_bits m16 (of_bits m16 u) ≡ u
to_bits-of_bits_16 u h = ground arith

to_bits-of_bits_32 : (u : ℕ) → u < m32 → to_bits m32 (of_bits m32 u) ≡ u
to_bits-of_bits_32 u h = ground arith

of_bits_8-IsSigned : (u : ℕ) → u < m8 → IsSigned m8 (of_bits m8 u)
of_bits_8-IsSigned u h = ground arith

of_bits_16-IsSigned : (u : ℕ) → u < m16 → IsSigned m16 (of_bits m16 u)
of_bits_16-IsSigned u h = ground arith

of_bits_32-IsSigned : (u : ℕ) → u < m32 → IsSigned m32 (of_bits m32 u)
of_bits_32-IsSigned u h = ground arith

module _ (a : ℕ) (ha : IsByte a) where
  pub i8_bytes : (IsSigned m8 (i8_from_be_bytes a)) × (i8_to_be_bytes (i8_from_be_bytes a) ≡ a ∷ [])
  i8_bytes = (of_bits_8-IsSigned a ha, ap (λ u. u ∷ []) (to_bits-of_bits_8 a ha))

  module _ (b : ℕ) (hb : IsByte b) where
    pub i16_bytes :
        IsSigned m16 (i16_from_be_bytes a b)
        × (i16_to_be_bytes (i16_from_be_bytes a b) ≡ a ∷ b ∷ [])
    i16_bytes =
        let u : ℕ = a * 256 + b in
        let e : to_bits m16 (of_bits m16 u) ≡ u = to_bits-of_bits_16 u (omega arith) in
        let x : u / 256 ≡ a = omega arith in
        let y : u % 256 ≡ b = omega arith in
        (of_bits_16-IsSigned u (omega arith), rw (e, x, y) refl)

    module _ (c : ℕ) (hc : IsByte c) (d : ℕ) (hd : IsByte d) where
      pub i32_bytes :
          IsSigned m32 (i32_from_be_bytes a b c d)
          × (i32_to_be_bytes (i32_from_be_bytes a b c d) ≡ a ∷ b ∷ c ∷ d ∷ [])
      i32_bytes =
          let u : ℕ = a * 16777216 + b * 65536 + c * 256 + d in
          let e : to_bits m32 (of_bits m32 u) ≡ u = to_bits-of_bits_32 u (omega arith) in
          let x : u / 16777216 ≡ a = omega arith in
          let y : u / 65536 % 256 ≡ b = omega arith in
          let z : u / 256 % 256 ≡ c = omega arith in
          let t : u % 256 ≡ d = omega arith in
          (of_bits_32-IsSigned u (omega arith), rw (e, x, y, z, t) refl)
