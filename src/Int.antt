-- ===== src/Int.antt =====
-- Rust's machine integers. A signed integer is a `ℤ`; its width is that of the operation.
-- A `u8` and a `usize` are natural numbers.
pub mod Laws
pub mod Canonical
use fakepostmaster.Prelude.{
  ℕ, suc, ◌+◌, ◌-◌, ◌*◌, ◌/◌, ◌%◌, ◌^◌, ◌<◌, List, [], ◌∷◌, ltb, if◌then◌else◌,
}

-- `negsuc n` is -(n + 1).
pub data ℤ : Type 0 where
  pos : ℕ → ℤ
  negsuc : ℕ → ℤ

-- The two's complement bit pattern of a number in a word of `m` patterns, and back.
abbrev pub to_bits : ℕ → ℤ → ℕ
to_bits m (pos n) = n % m
to_bits m (negsuc n) = m - 1 - n % m

abbrev pub of_bits : ℕ → ℕ → ℤ
of_bits m u = if ltb u (m / 2) then pos u else negsuc (m - 1 - u)

abbrev pub m8 : ℕ
m8 = 256

abbrev pub m16 : ℕ
m16 = 65536

abbrev pub m32 : ℕ
m32 = 4294967296

-- The values of an integer type with `m` bit patterns.
abbrev pub IsSigned : ℕ → ℤ → Type 0
IsSigned m (pos n) = n < m / 2
IsSigned m (negsuc n) = n < m / 2

abbrev pub IsByte : ℕ → Type 0
IsByte b = b < 256

-- `x as i16` and `x as i32` for an unsigned `x`, and `x as usize` for an `i32`.
unfoldable pub as_i16 : ℕ → ℤ
as_i16 n = of_bits m16 (n % m16)

unfoldable pub as_i32 : ℕ → ℤ
as_i32 n = of_bits m32 (n % m32)

unfoldable pub as_usize : ℤ → ℕ
as_usize z = to_bits (2 ^ 64) z

-- `+` and `-` of two `i32`: they wrap around.
unfoldable pub add_i32 : ℤ → ℤ → ℤ
add_i32 a b = of_bits m32 ((to_bits m32 a + to_bits m32 b) % m32)

unfoldable pub sub_i32 : ℤ → ℤ → ℤ
sub_i32 a b = of_bits m32 ((to_bits m32 a + m32 - to_bits m32 b) % m32)

-- The rounds of `for _ in 0..len`.
abbrev pub rounds : ℤ → ℕ
rounds (pos n) = n
rounds (negsuc n) = 0

-- `to_be_bytes` and `from_be_bytes`.
abbrev pub i8_to_be_bytes : ℤ → List ℕ
i8_to_be_bytes z = to_bits m8 z ∷ []

abbrev pub i16_to_be_bytes : ℤ → List ℕ
i16_to_be_bytes z = (to_bits m16 z / 256) ∷ (to_bits m16 z % 256) ∷ []

abbrev pub i32_to_be_bytes : ℤ → List ℕ
i32_to_be_bytes z =
    (to_bits m32 z / 16777216)
    ∷ (to_bits m32 z / 65536 % 256)
    ∷ (to_bits m32 z / 256 % 256)
    ∷ (to_bits m32 z % 256)
    ∷ []

abbrev pub i8_from_be_bytes : ℕ → ℤ
i8_from_be_bytes a = of_bits m8 a

abbrev pub i16_from_be_bytes : ℕ → ℕ → ℤ
i16_from_be_bytes a b = of_bits m16 (a * 256 + b)

abbrev pub i32_from_be_bytes : ℕ → ℕ → ℕ → ℕ → ℤ
i32_from_be_bytes a b c d = of_bits m32 (a * 16777216 + b * 65536 + c * 256 + d)
