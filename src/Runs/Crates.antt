-- ===== src/Runs/Crates.antt =====
-- A `bytes` crate and an `md5` crate that keep what the program relies on; the digest is no real MD5.
use fakepostmaster.Prelude.{
  ℕ, zero, suc, ◌+◌, ◌-◌, ◌%◌, ◌/◌, ◌<◌, ◌≡◌, refl, Option, none, some, List, [], ◌∷◌, ◌++◌,
  append_assoc, length, take, drop, leb, ltb, le→leb, lt→leb, if◌then◌else◌, All, arith,
}
use fakepostmaster.Int.{
  ℤ, i8_to_be_bytes, i16_to_be_bytes, i32_to_be_bytes, i8_from_be_bytes, i16_from_be_bytes,
  i32_from_be_bytes,
}
use fakepostmaster.Buffer.{BytesCrate}
use fakepostmaster.Md5.{Md5Crate, IsHexDigit}

abbrev try_u8 : List ℕ → Option (ℕ × List ℕ)
try_u8 [] = none
try_u8 (a ∷ rest) = some (a, rest)

abbrev try_i8 : List ℕ → Option (ℤ × List ℕ)
try_i8 [] = none
try_i8 (a ∷ rest) = some (i8_from_be_bytes a, rest)

abbrev try_i16 : List ℕ → Option (ℤ × List ℕ)
try_i16 [] = none
try_i16 (a ∷ []) = none
try_i16 (a ∷ b ∷ rest) = some (i16_from_be_bytes a b, rest)

abbrev try_i32 : List ℕ → Option (ℤ × List ℕ)
try_i32 (a ∷ b ∷ c ∷ d ∷ rest) = some (i32_from_be_bytes a b c d, rest)
try_i32 bs = none

abbrev try_slice : ℕ → List ℕ → Option (List ℕ × List ℕ)
try_slice n bs = if leb n (length bs) then some (take n bs, drop n bs) else none

pub try_i16-none : (bs : List ℕ) → length bs < 2 → try_i16 bs ≡ none
try_i16-none [] h = refl
try_i16-none (a ∷ []) h = refl
try_i16-none (a ∷ b ∷ bs) h = absurd (omega arith)

pub try_i32-none : (bs : List ℕ) → length bs < 4 → try_i32 bs ≡ none
try_i32-none [] h = refl
try_i32-none (a ∷ []) h = refl
try_i32-none (a ∷ b ∷ []) h = refl
try_i32-none (a ∷ b ∷ c ∷ []) h = refl
try_i32-none (a ∷ b ∷ c ∷ d ∷ bs) h = absurd (omega arith)

abbrev pub bytes : BytesCrate
bytes = record {
  put_u8 = λ buf b. buf ++ b ∷ [];
  put_i8 = λ buf z. buf ++ i8_to_be_bytes z;
  put_i16 = λ buf z. buf ++ i16_to_be_bytes z;
  put_i32 = λ buf z. buf ++ i32_to_be_bytes z;
  put_slice = λ buf bs. buf ++ bs;
  try_get_u8 = try_u8;
  try_get_i8 = try_i8;
  try_get_i16 = try_i16;
  try_get_i32 = try_i32;
  try_copy_to_slice = try_slice;
  put_u8_appends = λ buf b. refl;
  put_i8_appends = λ buf z. refl;
  put_i16_appends = λ buf z. refl;
  put_i32_appends = λ buf z. refl;
  put_slice_appends = λ buf bs. refl;
  try_get_u8_some = λ a rest. refl;
  try_get_u8_none = refl;
  try_get_i8_some = λ a rest. refl;
  try_get_i8_none = refl;
  try_get_i16_some = λ a b rest. refl;
  try_get_i16_none = try_i16-none;
  try_get_i32_some = λ a b c d rest. refl;
  try_get_i32_none = try_i32-none;
  try_copy_to_slice_some = λ n bs h. rw (le→leb n (length bs) h);
  try_copy_to_slice_none = λ n bs h. rw (lt→leb n (length bs) h);
}

abbrev digit : ℕ → ℕ
digit d = if ltb d 10 then b'0' + d else b'a' + (d - 10)

digit-IsHexDigit : (d : ℕ) → d < 16 → IsHexDigit (digit d)
digit-IsHexDigit d h = ground arith

abbrev lower_hex : List ℕ → List ℕ
lower_hex [] = []
lower_hex (b ∷ bs) = digit (b / 16 % 16) ∷ digit (b % 16) ∷ lower_hex bs

pub lower_hex_digits : (h : List ℕ) → All IsHexDigit (lower_hex h)
lower_hex_digits [] = tt
lower_hex_digits (b ∷ bs) = (
  digit-IsHexDigit (b / 16 % 16) (omega arith),
  (digit-IsHexDigit (b % 16) (omega arith), lower_hex_digits bs),
)

abbrev repeat : ℕ → ℕ → List ℕ
repeat zero b = []
repeat (suc n) b = b ∷ repeat n b

abbrev pub md5 : Md5Crate
md5 = record {
  Md5 = List ℕ;
  new = [];
  update = λ s bs. s ++ bs;
  finalize = λ s. repeat 16 (length s % 256);
  lower_hex = lower_hex;
  update-update = λ s a b. append_assoc s a b;
  lower_hex_digits = lower_hex_digits;
  length-lower_hex = λ s. refl;
}
