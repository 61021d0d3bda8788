-- ===== src/Message/Frame/General.antt =====
-- Messages and requests in general, also those that are cut short or whose length field is wrong.
use fakepostmaster.Prelude.{
  ℕ, ◌<◌, ◌≡◌, refl, Option, none, some, List, [], ◌∷◌, ◌++◌, length, leb, take, drop,
  if◌then◌else◌, inl, inr, Option-cases, arith,
}
use fakepostmaster.Int.{ℤ, m32, IsSigned, IsByte, i32_to_be_bytes}
use fakepostmaster.Int.Laws.{announced, size_announced, size_not_announced}
use fakepostmaster.Outcome.{
  Outcome, ok, err, panicked, unexpected_eof, capacity_overflow, slice_out_of_range,
}
use fakepostmaster.Exec.{◌>>=◌}
use fakepostmaster.Buffer.{BytesCrate}
use fakepostmaster.Stream.Reader.{read_exact, read_exact-append, allocate_small, allocate_large}
use fakepostmaster.Message.Raw.{first_i32}
use fakepostmaster.Message.Get.{read_body, get_request, get_backend_message, get_frontend_message}
use fakepostmaster.Message.Frame.{
  request_frame, read_body-frame, frame_length, request_header-frame, message_header-frame,
}

-- What becomes of a message after its header: a panic if no vector has the size that the length
-- field announces, an error if fewer bytes follow, and else a body of that size.
abbrev pub receive {ℓ} : {M : Type ℓ} → (List ℕ → M) → Option ℕ → List ℕ → Outcome M × List ℕ
receive make none input = (panicked capacity_overflow, input)
receive make (some n) input =
    if leb n (length input)
    then (ok (make (take n input)), drop n input)
    else (err unexpected_eof, [])

pub read_body_lem :
    (z : ℤ) (input : List ℕ)
    → IsSigned m32 z
    → read_body z input ≡ receive (λ body. body) (announced z) input
unfolding read_body read_exact
read_body_lem z input h = elim (Option-cases (announced z)) [
  | inl e ↦ rw (e, allocate_large _ (size_not_announced z h e))
  | inr (n, e) ↦ let (s, l) = size_announced z n h e in rw (e, s, allocate_small n l)
]

receive_map :
    {M : Type 0} (make : List ℕ → M) (o : Option ℕ) (input : List ℕ)
    → ((λ i. receive (λ body. body) o i) >>= (λ body i. (ok (make body), i))) input
      ≡ receive make o input
receive_map make none input = refl
receive_map make (some n) input = ground arith

first_i32_short : (bs : List ℕ) → length bs < 4 → first_i32 bs ≡ panicked slice_out_of_range
unfolding first_i32
first_i32_short [] h = refl
first_i32_short (a ∷ []) h = refl
first_i32_short (a ∷ b ∷ []) h = refl
first_i32_short (a ∷ b ∷ c ∷ []) h = refl
first_i32_short (a ∷ b ∷ c ∷ d ∷ bs) h = absurd (omega arith)

module _ (B : BytesCrate) where
  -- Whatever the length field says and whatever follows the header, `RawFrontendMessage::get` panics,
  -- fails or returns as `receive` says.
  pub get_frontend_message_lem :
      (kind : ℕ) (z : ℤ) (input : List ℕ)
      → IsByte kind
      → IsSigned m32 z
      → get_frontend_message B (kind ∷ i32_to_be_bytes z ++ input)
        ≡ receive
            (λ body. record {
              header = record { message_type = kind; length = z };
              raw_body = body;
            })
            (announced z)
            input
  unfolding get_frontend_message
  get_frontend_message_lem kind z input k h =
      rw
        (
          read_exact-append (kind ∷ i32_to_be_bytes z) input,
          message_header-frame B kind z k h,
          read_body_lem z input h,
        )
        (receive_map _ (announced z) input)

  -- Whatever the length field says and whatever follows the header, `RawBackendMessage::get` panics,
  -- fails or returns as `receive` says.
  pub get_backend_message_lem :
      (kind : ℕ) (z : ℤ) (input : List ℕ)
      → IsByte kind
      → IsSigned m32 z
      → get_backend_message B (kind ∷ i32_to_be_bytes z ++ input)
        ≡ receive
            (λ body. record {
              header = record { message_type = kind; length = z };
              raw_body = body;
            })
            (announced z)
            input
  unfolding get_backend_message
  get_backend_message_lem kind z input k h =
      rw
        (
          read_exact-append (kind ∷ i32_to_be_bytes z) input,
          message_header-frame B kind z k h,
          read_body_lem z input h,
        )
        (receive_map _ (announced z) input)

  -- A request whose body is shorter than its code makes `RawRequest::get` panic.
  pub get_request_panics :
      (body rest : List ℕ)
      → length body < 4
      → get_request B (request_frame body ++ rest) ≡ (panicked slice_out_of_range, rest)
  unfolding get_request
  get_request_panics body rest h = rw (
    read_exact-append (i32_to_be_bytes (frame_length body)) (body ++ rest),
    request_header-frame B (frame_length body) (omega arith),
    read_body-frame body rest (omega arith),
    first_i32_short body h,
  )
