-- ===== src/Md5.antt =====
-- The interface of the `md5` crate and of the hexadecimal print of its digest, as far as the
-- program calls them.
use fakepostmaster.Prelude.{ℕ, ◌≤◌, ◌≡◌, ◌⊎◌, List, ◌++◌, length, All}

-- '0' to '9' and 'a' to 'f'.
abbrev pub IsHexDigit : ℕ → Type 0
IsHexDigit c = ((b'0' ≤ c) × (c ≤ b'9')) ⊎ ((b'a' ≤ c) × (c ≤ b'f'))

-- A hasher takes its input in parts, and the digest is that of the parts one after the other. The
-- digest has 16 bytes, so its print has 32 digits.
pub record Md5Crate : Type 1 where
  pub Md5 : Type 0
  pub new : Md5
  pub update : Md5 → List ℕ → Md5
  pub finalize : Md5 → List ℕ
  pub lower_hex : List ℕ → List ℕ
  pub update-update : (s : Md5) (a b : List ℕ) → update (update s a) b ≡ update s (a ++ b)
  pub lower_hex_digits : (h : List ℕ) → All IsHexDigit (lower_hex h)
  pub length-lower_hex : (s : Md5) → length (lower_hex (finalize s)) ≡ 32
