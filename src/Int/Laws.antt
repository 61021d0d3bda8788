-- ===== src/Int/Laws.antt =====
-- Laws of the machine integers.
use fakepostmaster.Prelude.{
  ℕ, ◌+◌, ◌-◌, ◌/◌, ◌%◌, ◌^◌, ◌≤◌, ◌<◌, ◌≡◌, arith, Option, none, some, ltb, if◌then◌else◌,
}
use fakepostmaster.Int.{
  ℤ, pos, negsuc, to_bits, of_bits, m8, m16, m32, IsSigned, as_i16, as_i32, as_usize, add_i32,
  sub_i32, i16_from_be_bytes, i32_from_be_bytes,
}

pub of_bits-to_bits_8 : (z : ℤ) → IsSigned m8 z → of_bits m8 (to_bits m8 z) ≡ z
of_bits-to_bits_8 (pos n) h = ground arith
of_bits-to_bits_8 (negsuc n) h = ground arith

pub i16_round_trip :
    (z : ℤ) → IsSigned m16 z → i16_from_be_bytes (to_bits m16 z / 256) (to_bits m16 z % 256) ≡ z
i16_round_trip (pos n) h = ground arith
i16_round_trip (negsuc n) h = ground arith

pub i32_round_trip :
    (z : ℤ)
    → IsSigned m32 z
    → i32_from_be_bytes
        (to_bits m32 z / 16777216)
        (to_bits m32 z / 65536 % 256)
        (to_bits m32 z / 256 % 256)
        (to_bits m32 z % 256)
      ≡ z
i32_round_trip (pos n) h = ground arith
i32_round_trip (negsuc n) h = ground arith

pub as_i16_small : (n : ℕ) → n < 32768 → as_i16 n ≡ pos n
unfolding as_i16
as_i16_small n h = ground arith

pub as_i32_small : (n : ℕ) → n < 2147483648 → as_i32 n ≡ pos n
unfolding as_i32
as_i32_small n h = ground arith

pub add_i32_small : (a b : ℕ) → a + b < 2147483648 → add_i32 (pos a) (pos b) ≡ pos (a + b)
unfolding add_i32
add_i32_small a b h = ground arith

pub sub_i32_small : (a b : ℕ) → b ≤ a → a < 2147483648 → sub_i32 (pos a) (pos b) ≡ pos (a - b)
unfolding sub_i32
sub_i32_small a b l h = ground arith

-- A count that is below zero turns into more than any buffer holds.
pub as_usize_negsuc : (n : ℕ) → n < 2147483648 → 2 ^ 63 ≤ as_usize (negsuc n)
unfolding as_usize
as_usize_negsuc n h = omega arith

-- The size of a body, from a length that counts itself.
pub body_size : (n : ℕ) → n + 4 < 2147483648 → as_usize (sub_i32 (pos (n + 4)) (pos 4)) ≡ n
unfolding as_usize
body_size n h = rw (sub_i32_small (n + 4) 4 (omega arith) h) (omega arith)

-- The size of the body that a length field announces, if there can be a vector of that size. The
-- subtraction of 4 wraps around for the four least numbers.
abbrev pub announced : ℤ → Option ℕ
announced (pos n) = if ltb n 4 then none else some (n - 4)
announced (negsuc n) = if ltb n 2147483644 then none else some (4294967291 - n)

pub size_announced :
    (z : ℤ) (n : ℕ)
    → IsSigned m32 z
    → announced z ≡ some n
    → (as_usize (sub_i32 z (pos 4)) ≡ n) × (n < 2 ^ 63)
unfolding as_usize sub_i32
size_announced (pos k) n v h = ground arith
size_announced (negsuc k) n v h = ground arith

pub size_not_announced :
    (z : ℤ) → IsSigned m32 z → announced z ≡ none → 2 ^ 63 ≤ as_usize (sub_i32 z (pos 4))
unfolding as_usize sub_i32
size_not_announced (pos k) v h = ground arith
size_not_announced (negsuc k) v h = ground arith
