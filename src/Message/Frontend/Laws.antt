-- ===== src/Message/Frontend/Laws.antt =====
-- The password that answers a salt.
use fakepostmaster.Prelude.{ℕ, ◌≡◌, List, [], ◌∷◌, ◌++◌, length, All, All-append, codes, arith}
use fakepostmaster.Outcome.{ok}
use fakepostmaster.Md5.{Md5Crate, IsHexDigit}
use fakepostmaster.Types.Text.Laws.{IsTextByte, IsText, cstring_new-IsText}
use fakepostmaster.Message.Frontend.{new_password, new_from_user_password}

IsHexDigit-IsText : (s : List ℕ) → All IsHexDigit s → IsText s
IsHexDigit-IsText [] h = tt
IsHexDigit-IsText (c ∷ s) h = ((omega (arith, h.0), omega (arith, h.0)), IsHexDigit-IsText s h.1)

module _ (D : Md5Crate) where
  open D use {new, update, finalize, lower_hex, update-update, lower_hex_digits, length-lower_hex}

  -- The hexadecimal MD5 digest of some bytes.
  abbrev pub md5_hex : List ℕ → List ℕ
  md5_hex bs = lower_hex (finalize (update new bs))

  -- PostgreSQL's answer to a salt: "md5", and the digest of the digest of password and user, and
  -- of the salt.
  abbrev pub md5_answer : List ℕ → List ℕ → List ℕ → List ℕ
  md5_answer user password salt = codes "md5" ++ md5_hex (md5_hex (password ++ user) ++ salt)

  pub md5_answer-IsText : (user password salt : List ℕ) → IsText (md5_answer user password salt)
  md5_answer-IsText user password salt =
      All-append IsTextByte (codes "md5") _ (omega arith) (IsHexDigit-IsText _ (lower_hex_digits _))

  -- The password message for a salt is made without an error, holds PostgreSQL's answer to the
  -- salt, and the answer is 35 bytes long.
  pub new_from_user_password_lem :
      (user password salt : List ℕ)
      → (new_from_user_password D user password salt
          ≡ ok (record { password = md5_answer user password salt }))
        × (length (md5_answer user password salt) ≡ 35)
  unfolding new_from_user_password new_password
  new_from_user_password_lem user password salt = (
    rw (update-update, update-update, cstring_new-IsText _ (md5_answer-IsText user password salt)),
    omega (arith, length-lower_hex (update new (md5_hex (password ++ user) ++ salt))),
  )
