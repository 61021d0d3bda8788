-- ===== src/Handler/Io/Ends.antt =====
-- The reading and the writing of messages ends, whatever the peer sends and the socket answers.
use fakepostmaster.Prelude.{
  ℕ, ◌+◌, ◌≤◌, ◌^◌, Option, some, List, length, length-drop, leb, leb→le, ltb, Bool-cases, inl, inr,
  arith,
}
use fakepostmaster.Int.{ℤ, pos, as_usize, sub_i32}
use fakepostmaster.Outcome.{Outcome, ok, err, panicked, out_of_fuel}
use fakepostmaster.Exec.Ends.{
  Ends, Consumes, Returns-Ends, value_of-Ends, Consumes-Ends, continue-Ends, continue-Consumes,
  Ends-Consumes,
}
use fakepostmaster.Buffer.{BytesCrate}
use fakepostmaster.Wire.{Wire}
use fakepostmaster.Stream.Reader.{BufReader, read_exact, allocate}
use fakepostmaster.Stream.Writer.{BufWriter, write, flush}
use fakepostmaster.Stream.Writer.Laws.{Wrote, Flushed, took, done, write-Wrote, flush-Flushed}
use fakepostmaster.Derive.Laws.{serde_libpq_data-IsSized}
use fakepostmaster.Derive.{no_fields, field}
use fakepostmaster.Types.Formats.{i32_format, byte_format}
use fakepostmaster.Types.Scalar.{i32, byte}
use fakepostmaster.Kind.Request.{request_kind_of}
use fakepostmaster.Kind.Backend.{BackendMessageKind}
use fakepostmaster.Message.Header.{MessageBody, request_header, message_header}
use fakepostmaster.Message.Raw.{RawBackendMessage, first_i32, backend_message_kind}
use fakepostmaster.Message.Get.{
  value_of, read_body, get_request, get_backend_message, get_frontend_message,
}
use fakepostmaster.Message.Errors.{try_error_response}
use fakepostmaster.Message.Ends.{
  try_error_response-Ends, first_i32-Ends, request_kind_of-Ends, backend_message_kind-Ends,
}
use fakepostmaster.Handler.Io.{
  unless_error, get_raw_backend_message, get_raw_frontend_message, put_message,
  put_message_and_flush, put_request,
}

read_exact-Consumes :
    (n k : ℕ) (input : List ℕ)
    → k ≤ n
    → Consumes k input (read_exact n input).0 (read_exact n input).1
unfolding read_exact
read_exact-Consumes n k input h = elim (Bool-cases (leb n (length input))) [
  | inl l ↦ rw l (omega (arith, length-drop n input, leb→le n (length input) l))
  | inr l ↦ rw l tt
]

allocate-Ends : (n : ℕ) → Ends (allocate n)
unfolding allocate
allocate-Ends n = elim (Bool-cases (ltb n (2 ^ 63))) [ inl l ↦ rw l tt | inr l ↦ rw l tt ]

read_body-Consumes :
    (z : ℤ) (input : List ℕ) → Consumes 0 input (read_body z input).0 (read_body z input).1
unfolding read_body
read_body-Consumes z input =
    let size = as_usize (sub_i32 z (pos 4)) in
    continue-Consumes 0 0 input input (allocate size) _ input
      (Ends-Consumes (allocate size) input (allocate-Ends size))
      (λ u h. read_exact-Consumes size 0 input (omega arith))

Wrote-Ends : {bs : List ℕ} {w : BufWriter} {r : Outcome ℕ × BufWriter} → Wrote bs w r → Ends r.0
Wrote-Ends (took n w' e all) = tt
Wrote-Ends (Wrote.refused e w' h) = tt

Flushed-Ends : {w : BufWriter} {r : Outcome (Unit {0}) × BufWriter} → Flushed w r → Ends r.0
Flushed-Ends (done w' b e) = tt
Flushed-Ends (Flushed.refused e w' h) = tt

write-Ends : (bs : List ℕ) (w : BufWriter) → Ends (write bs w).0
write-Ends bs w = Wrote-Ends (write-Wrote bs w)

flush-Ends : (w : BufWriter) → Ends (flush w).0
flush-Ends w = Flushed-Ends (flush-Flushed w)

-- What has been taken before a step is taken after it.
Consumes-more {ℓ} :
    {A : Type ℓ} (k : ℕ) (i input : List ℕ) (r : Outcome A) (left : List ℕ)
    → length i + k ≤ length input
    → Consumes 0 i r left
    → Consumes k input r left
Consumes-more k i input (ok a) left h c = omega arith
Consumes-more k i input (err e) left h c = tt
Consumes-more k i input (panicked p) left h c = tt
Consumes-more k i input out_of_fuel left h c = c

module _ (B : BytesCrate) where
  message_header-Ends : (bs : List ℕ) → Ends ((message_header B).deserialize bs)
  unfolding message_header
  message_header-Ends bs = Returns-Ends _ (
      (serde_libpq_data-IsSized (field ℕ (byte B) (field ℤ (i32 B) no_fields))
          (byte_format B, (i32_format B, tt)) (λ h. (h.message_type, (h.length, tt)))
          (λ v. record { message_type = v.0; length = v.1.0 })).takes
        bs)

  request_header-Ends : (bs : List ℕ) → Ends ((request_header B).deserialize bs)
  unfolding request_header
  request_header-Ends bs = Returns-Ends _ (
      (serde_libpq_data-IsSized (field ℤ (i32 B) no_fields) (i32_format B, tt) (λ h. (h.length, tt))
          (λ v. record { length = v.0 })).takes
        bs)

  pub get_backend_message-Consumes :
      (input : List ℕ)
      → Consumes 5 input (get_backend_message B input).0 (get_backend_message B input).1
  unfolding get_backend_message
  get_backend_message-Consumes input =
      let (r, left) = read_exact 5 input in
      continue-Consumes 5 5 input input r _ left (read_exact-Consumes 5 5 input (omega arith))
        (λ buffer h.
          let e = value_of-Ends _ (message_header-Ends buffer) in
          continue-Consumes 0 5 left input (value_of ((message_header B).deserialize buffer)) _ left
            (Ends-Consumes _ left e)
            (λ header h'.
              let (r', left') = read_body header.length left in
              continue-Consumes 0 5 left input r' _ left' (read_body-Consumes header.length left)
                (λ body h''. omega arith)))

  pub get_frontend_message-Consumes :
      (input : List ℕ)
      → Consumes 5 input (get_frontend_message B input).0 (get_frontend_message B input).1
  unfolding get_frontend_message
  get_frontend_message-Consumes input =
      let (r, left) = read_exact 5 input in
      continue-Consumes 5 5 input input r _ left (read_exact-Consumes 5 5 input (omega arith))
        (λ buffer h.
          let e = value_of-Ends _ (message_header-Ends buffer) in
          continue-Consumes 0 5 left input (value_of ((message_header B).deserialize buffer)) _ left
            (Ends-Consumes _ left e)
            (λ header h'.
              let (r', left') = read_body header.length left in
              continue-Consumes 0 5 left input r' _ left' (read_body-Consumes header.length left)
                (λ body h''. omega arith)))

  pub get_request-Ends : (input : List ℕ) → Ends (get_request B input).0
  unfolding get_request
  get_request-Ends input =
      let (r, left) = read_exact 4 input in
      continue-Ends r _ left
        (Consumes-Ends 4 input r left (read_exact-Consumes 4 4 input (omega arith)))
        (λ buffer.
          continue-Ends (value_of ((request_header B).deserialize buffer)) _ left
            (value_of-Ends _ (request_header-Ends buffer))
            (λ header.
              let (r', left') = read_body header.length left in
              continue-Ends r' _ left'
                (Consumes-Ends 0 left r' left' (read_body-Consumes header.length left))
                (λ body. continue-Ends (first_i32 body) _ left' (first_i32-Ends body) (λ code.
                  continue-Ends (request_kind_of code) _ left' (request_kind_of-Ends code)
                    (λ kind. tt)))))

  unless_error-Consumes :
      (m : RawBackendMessage) (k : Option BackendMessageKind) (input : BufReader)
      → Consumes 0 input (unless_error B m k input).0 (unless_error B m k input).1
  unfolding unless_error
  unless_error-Consumes m (some BackendMessageKind.error_response) input =
      continue-Consumes 0 0 input input (value_of (try_error_response B m)) _ input
        (Ends-Consumes _ input (value_of-Ends _ (try_error_response-Ends B m))) (λ e h. tt)
  unless_error-Consumes m k input = omega arith

  pub get_raw_backend_message-Consumes :
      (input : List ℕ)
      → Consumes 5 input (get_raw_backend_message B input).0 (get_raw_backend_message B input).1
  unfolding get_raw_backend_message
  get_raw_backend_message-Consumes input =
      let (r, left) = get_backend_message B input in
      continue-Consumes 5 5 input input r _ left (get_backend_message-Consumes input) (λ m h.
        continue-Consumes 0 5 left input (backend_message_kind m) _ left
          (Ends-Consumes _ left (backend_message_kind-Ends m))
          (λ k h'.
            let (r', left') = unless_error B m k left in
            Consumes-more 5 left input r' left' (omega arith) (unless_error-Consumes m k left)))

  pub get_raw_frontend_message-Consumes :
      (input : List ℕ)
      → Consumes 5 input (get_raw_frontend_message B input).0 (get_raw_frontend_message B input).1
  unfolding get_raw_frontend_message
  get_raw_frontend_message-Consumes = get_frontend_message-Consumes

  pub get_raw_frontend_message-Ends : (input : List ℕ) → Ends (get_raw_frontend_message B input).0
  unfolding get_raw_frontend_message
  get_raw_frontend_message-Ends input =
      Consumes-Ends 5 input _ _ (get_frontend_message-Consumes input)

  module _ {A : Type 0} (m : MessageBody A) (a : A) (w : BufWriter) where
    pub put_message-Ends : Ends (put_message B m a w).0
    unfolding put_message
    put_message-Ends = continue-Ends _ _ _ (write-Ends _ w) (λ n. tt)

    pub put_message_and_flush-Ends : Ends (put_message_and_flush B m a w).0
    unfolding put_message_and_flush
    put_message_and_flush-Ends =
        continue-Ends (put_message B m a w).0 _ (put_message B m a w).1 put_message-Ends
          (λ u. flush-Ends (put_message B m a w).1)

  pub put_request-Ends :
      {A : Type 0} (wire : Wire A) (a : A) (w : BufWriter) → Ends (put_request B wire a w).0
  unfolding put_request
  put_request-Ends wire a w = continue-Ends _ _ _ (write-Ends _ w) (λ n. flush-Ends _)
