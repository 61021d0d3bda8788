-- ===== src/Message/Canonical/Authentication.antt =====
-- An authentication message that is read is the one that its code says.
use fakepostmaster.Prelude.{
  ℕ, ◌≡◌, ◌<◌, refl, ap, sym, ◌∙◌, Option, none, some, List, [], ◌∷◌, ◌++◌, length, All, arith,
}
use fakepostmaster.Int.{ℤ, m32, IsSigned, IsByte, i32_to_be_bytes}
use fakepostmaster.Int.Laws.{i32_round_trip}
use fakepostmaster.Outcome.{
  Outcome, ok, err, panicked, out_of_fuel, ◌>>=◌, slice_out_of_range, impossible_from_backend,
}
use fakepostmaster.Outcome.Laws.{
  Decides-Returns, Returns, holds, failed, Returns-ok, Returns-weaken,
}
use fakepostmaster.Buffer.{BytesCrate}
use fakepostmaster.Types.Scalar.Laws.{IsByte4}
use fakepostmaster.Kind.Backend.{BackendMessageKind, authentication, backend_code, backend_kind_of}
use fakepostmaster.Kind.Authentication.{
  AuthenticationMessageKind, authentication_ok, md5_password, authentication_code,
}
use fakepostmaster.Kind.Codes.{
  backend_kind_of-Decides, authentication_kind_of-Decides, backend_kind_of_iff,
  authentication_kind_of_iff,
}
use fakepostmaster.Message.Raw.{
  RawBackendMessage, first_i32, to_option, backend_message_kind, auth_kind_of_body,
  auth_message_kind,
}
use fakepostmaster.Message.Authentication.{
  AuthenticationOk, AuthenticationMd5Password, new_authentication_ok, new_md5_password,
  when_authentication, read_ok, read_md5, try_authentication_ok, try_md5_password,
}
use fakepostmaster.Message.Canonical.Bodies.{
  authentication_ok_body-IsCanonical, md5_password_body-IsCanonical,
}
use fakepostmaster.Message.Reliable.Backend.{authentication_ok_encode, md5_password_encode}

-- A value that satisfies `P`; an error; or a panic, where the body is shorter than its code.
pub data ReadOrShort {A : Type 0} (P : A → Type 0) (raw_body : List ℕ) : Outcome A → Type 0 where
  is_read : {r : Outcome A} → Returns P r → ReadOrShort P raw_body r
  is_short : length raw_body < 4 → ReadOrShort P raw_body (panicked slice_out_of_range)

pub ReadOrShort-ok :
    {A : Type 0} {P : A → Type 0} {raw_body : List ℕ} {r : Outcome A} {a : A}
    → ReadOrShort P raw_body r
    → r ≡ ok a
    → P a
ReadOrShort-ok (is_read h) e = Returns-ok h e
ReadOrShort-ok (is_short h) e = cc

first_i32_lem :
    (z : ℤ) (rest : List ℕ) → IsSigned m32 z → first_i32 (i32_to_be_bytes z ++ rest) ≡ ok z
unfolding first_i32
first_i32_lem z rest h = ap ok (i32_round_trip z h)

-- The codes of a body and of what it is read as.
same_code :
    (z code : ℤ) (raw_body rest : List ℕ)
    → first_i32 raw_body ≡ ok z
    → IsSigned m32 code
    → raw_body ≡ i32_to_be_bytes code ++ rest
    → code ≡ z
same_code z code raw_body rest f v e =
    let both : ok code ≡ ok z = sym (first_i32_lem code rest v) ∙ ap first_i32 (sym e) ∙ f in cc

module _ {S : Type 0} (P : S × List ℕ → Type 0)
    (read : AuthenticationMessageKind → Outcome (S × List ℕ)) where
  kind_read :
      (r : Outcome AuthenticationMessageKind)
      → Returns (λ k. Returns P (read k)) r
      → Returns P (to_option r >>= elim [ none ↦ err impossible_from_backend | some k ↦ read k ])
  kind_read r (holds h) = h
  kind_read r failed = failed

  code_read :
      (raw_body : List ℕ)
      → ((z : ℤ) (k : AuthenticationMessageKind)
          → first_i32 raw_body ≡ ok z
          → authentication_code k ≡ z
          → Returns P (read k))
      → ReadOrShort P raw_body (
          when_authentication
            (some authentication)
            (auth_kind_of_body raw_body (some authentication))
            read)
  unfolding when_authentication auth_kind_of_body first_i32
  code_read [] h = is_short (omega arith)
  code_read (a ∷ []) h = is_short (omega arith)
  code_read (a ∷ b ∷ []) h = is_short (omega arith)
  code_read (a ∷ b ∷ c ∷ []) h = is_short (omega arith)
  code_read (a ∷ b ∷ c ∷ d ∷ rest) h = is_read (
      kind_read _ (
        Decides-Returns _ (authentication_kind_of-Decides _)
          (λ k e. h _ k refl ((authentication_kind_of_iff _ k).0 e))))

  authentication_read :
      (raw_body : List ℕ) (r : Outcome BackendMessageKind)
      → Returns (λ k. Unit {0}) r
      → ((z : ℤ) (k : AuthenticationMessageKind)
          → first_i32 raw_body ≡ ok z
          → authentication_code k ≡ z
          → Returns P (read k))
      → ReadOrShort P raw_body (
          to_option r >>= λ kind.
          when_authentication kind (to_option r >>= auth_kind_of_body raw_body) read)
  unfolding when_authentication
  authentication_read raw_body r (holds {a = authentication} u) h = code_read raw_body h
  authentication_read raw_body r (holds u) h = is_read failed
  authentication_read raw_body r failed h = is_read failed

-- A value comes of an authentication message only.
when_authentication-kind :
    {S : Type 0} (r : Outcome BackendMessageKind)
    (auth : Outcome (Option AuthenticationMessageKind))
    (read : AuthenticationMessageKind → Outcome (S × List ℕ)) (v : S × List ℕ)
    → to_option r >>= (λ kind. when_authentication kind auth read) ≡ ok v
    → r ≡ ok authentication
unfolding when_authentication
when_authentication-kind (ok authentication) auth read v e = refl
when_authentication-kind (ok k) auth read v e = cc
when_authentication-kind (err x) auth read v e = cc
when_authentication-kind (panicked p) auth read v e = cc
when_authentication-kind out_of_fuel auth read v e = cc

module _ (B : BytesCrate) where
  -- The one message with code 0.
  abbrev pub IsOk : List ℕ → AuthenticationOk × List ℕ → Type 0
  IsOk raw_body r =
      (r.0 ≡ new_authentication_ok) × (raw_body ≡ authentication_ok_encode B r.0 ++ r.1)

  -- The challenge with a salt.
  abbrev pub IsChallenge : List ℕ → AuthenticationMd5Password × List ℕ → Type 0
  IsChallenge raw_body r =
      (salt : List ℕ) × IsByte4 salt
      × (r.0 ≡ new_md5_password salt)
      × (raw_body ≡ md5_password_encode B r.0 ++ r.1)

  module _ (raw_body : List ℕ) (b : All IsByte raw_body) (z : ℤ)
      (code : first_i32 raw_body ≡ ok z) where
    read_ok-Returns :
        (k : AuthenticationMessageKind)
        → authentication_code k ≡ z
        → Returns (IsOk raw_body) (read_ok B raw_body k)
    unfolding read_ok authentication_code
    read_ok-Returns authentication_ok e =
        Returns-weaken
          (λ r (v, e'). (
            ap (λ c. record { code = c }) (same_code z r.0.code raw_body r.1 code v.0 e' ∙ sym e),
            e',
          ))
          (authentication_ok_body-IsCanonical B raw_body b)
    read_ok-Returns k e = failed

    read_md5-Returns :
        (k : AuthenticationMessageKind)
        → authentication_code k ≡ z
        → Returns (IsChallenge raw_body) (read_md5 B raw_body k)
    unfolding read_md5 authentication_code new_md5_password
    read_md5-Returns md5_password e =
        Returns-weaken
          (λ r (v, e'). (
            r.0.salt,
            v.1.0,
            ap (λ c. record { code = c; salt = r.0.salt })
                (same_code z r.0.code raw_body _ code v.0 e' ∙ sym e),
            e',
          ))
          (md5_password_body-IsCanonical B raw_body b)
    read_md5-Returns k e = failed

  backend_kind_of-Returns : (c : ℕ) → Returns (λ k. Unit {0}) (backend_kind_of c)
  backend_kind_of-Returns c = Decides-Returns _ (backend_kind_of-Decides c) (λ k e. tt)

  -- Whatever a server's message is, made of bytes, turning it into an `AuthenticationOk` or an
  -- `AuthenticationMD5Password` is an error, or panics on a body that is shorter than its code, or
  -- gives the acceptance or a challenge with a salt; and what has been taken off its body is the
  -- encoding of that.
  pub authentication-ReadsOnly :
      (m : RawBackendMessage)
      → All IsByte m.raw_body
      → ReadOrShort (IsOk m.raw_body) m.raw_body (try_authentication_ok B m)
        × ReadOrShort (IsChallenge m.raw_body) m.raw_body (try_md5_password B m)
  unfolding try_authentication_ok try_md5_password auth_message_kind backend_message_kind
  authentication-ReadsOnly m b = (
    authentication_read (IsOk m.raw_body) (read_ok B m.raw_body) m.raw_body _
        (backend_kind_of-Returns m.header.message_type)
        (λ z k e. read_ok-Returns m.raw_body b z e k),
    authentication_read (IsChallenge m.raw_body) (read_md5 B m.raw_body) m.raw_body _
        (backend_kind_of-Returns m.header.message_type)
        (λ z k e. read_md5-Returns m.raw_body b z e k),
  )

  pub try_authentication_ok-kind :
      (m : RawBackendMessage) (v : AuthenticationOk × List ℕ)
      → try_authentication_ok B m ≡ ok v
      → m.header.message_type ≡ b'R'
  unfolding try_authentication_ok backend_message_kind backend_code
  try_authentication_ok-kind m v e = sym (
      (backend_kind_of_iff m.header.message_type authentication).0
        (when_authentication-kind (backend_kind_of m.header.message_type) _ _ v e))

  pub try_md5_password-kind :
      (m : RawBackendMessage) (v : AuthenticationMd5Password × List ℕ)
      → try_md5_password B m ≡ ok v
      → m.header.message_type ≡ b'R'
  unfolding try_md5_password backend_message_kind backend_code
  try_md5_password-kind m v e = sym (
      (backend_kind_of_iff m.header.message_type authentication).0
        (when_authentication-kind (backend_kind_of m.header.message_type) _ _ v e))
