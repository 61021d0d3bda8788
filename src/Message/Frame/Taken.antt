-- ===== src/Message/Frame/Taken.antt =====
-- What is taken off the wire as a message or a request is its frame.
use fakepostmaster.Prelude.{
  ℕ, ◌+◌, ◌%◌, ◌<◌, ◌≡◌, ◌≢◌, refl, ap, sym, ◌∙◌, Option, none, some, List, [], ◌∷◌, ◌++◌, length,
  leb, leb→le, take, drop, take-append-drop, length-take, Bool-cases, inl, inr, All, arith,
}
use fakepostmaster.Int.{
  ℤ, pos, negsuc, m32, to_bits, IsSigned, IsByte, i32_to_be_bytes, i32_from_be_bytes,
}
use fakepostmaster.Int.Laws.{announced}
use fakepostmaster.Int.Canonical.{i32_bytes}
use fakepostmaster.Outcome.{Outcome, ok, err, unexpected_eof}
use fakepostmaster.Exec.{Exec, ◌>>=◌, lift, pure}
use fakepostmaster.Exec.Laws.{continue-eq-ok}
use fakepostmaster.Buffer.{BytesCrate}
use fakepostmaster.Stream.Reader.{BufReader, read_exact_short, read_exact-append}
use fakepostmaster.Kind.Request.{request_code, request_kind_of}
use fakepostmaster.Kind.Codes.{request_kind_of_iff}
use fakepostmaster.Message.Raw.{RawRequest, RawBackendMessage, RawFrontendMessage, first_i32}
use fakepostmaster.Message.Get.{get_request, get_backend_message, get_frontend_message}
use fakepostmaster.Message.Frame.{frame, request_frame, frame_length, request_header-frame}
use fakepostmaster.Message.Frame.General.{
  receive, read_body_lem, get_backend_message_lem, get_frontend_message_lem,
}

-- The length field that announces a size is the one of a body of that size.
announced-frame_length :
    (z : ℤ) (n : ℕ) → IsSigned m32 z → announced z ≡ some n → to_bits m32 z ≡ (n + 4) % m32
announced-frame_length (pos k) n v e = ground arith
announced-frame_length (negsuc k) n v e = ground arith

announced_bytes :
    (z : ℤ) (body : List ℕ)
    → IsSigned m32 z
    → announced z ≡ some (length body)
    → i32_to_be_bytes z ≡ i32_to_be_bytes (frame_length body)
announced_bytes z body v e = rw (announced-frame_length z (length body) v e) refl

pub returned-eq {ℓ κ} :
    {A : Type ℓ} {S : Type κ} (a b : A) (s t : S)
    → ◌≡◌ {A = Outcome A × S} (ok a, s) (ok b, t)
    → (a ≡ b) × (s ≡ t)
returned-eq a b s t e = (cc, ap (λ p. p.1) e)

-- A body that has been received is what the length field announced, off the front.
receive-ok :
    {M : Type 0} (make : List ℕ → M) (o : Option ℕ) (input left : List ℕ) (m : M)
    → receive make o input ≡ (ok m, left)
    → (body : List ℕ) × (o ≡ some (length body)) × (input ≡ body ++ left) × (make body ≡ m)
receive-ok make none input left m e = cc
receive-ok {M} make (some n) input left m e = elim (Bool-cases (leb n (length input))) [
  | inl l ↦
      let h = leb→le n (length input) l in
      let (made, rest) = returned-eq (make (take n input)) m (drop n input) left (rw l at e) in
      (
        take n input,
        ap some (omega (arith, length-take n input)),
        sym (take-append-drop n input) ∙ ap (λ t. take n input ++ t) rest,
        made,
      )
  | inr l ↦
      let e' : ◌≡◌ {A = Outcome M × List ℕ} (err unexpected_eof, []) (ok m, left) = rw l at e in cc
]

-- A length field, and the body that it announces.
rejoin :
    (a b c d : ℕ) (z : ℤ) (rest body left : List ℕ)
    → i32_to_be_bytes z ≡ a ∷ b ∷ c ∷ d ∷ []
    → IsSigned m32 z
    → announced z ≡ some (length body)
    → rest ≡ body ++ left
    → a ∷ b ∷ c ∷ d ∷ rest ≡ request_frame body ++ left
rejoin a b c d z rest body left i v o s =
    ap (λ t. t ++ rest) (sym i ∙ announced_bytes z body v o)
    ∙ ap (λ t. i32_to_be_bytes (frame_length body) ++ t) s

-- A reader of a type byte, a length field and a body.
module _ {M : Type 0} (make : ℕ → ℤ → List ℕ → M) (get : Exec BufReader M)
    (get_lem : (kind : ℕ) (z : ℤ) (input : List ℕ)
      → IsByte kind
      → IsSigned m32 z
      → get (kind ∷ i32_to_be_bytes z ++ input) ≡ receive (make kind z) (announced z) input)
    (short : (bs left : List ℕ) (m : M) → length bs < 5 → get bs ≢ (ok m, left)) where
  get_taken :
      (bs left : List ℕ) (m : M)
      → All IsByte bs
      → get bs ≡ (ok m, left)
      → (kind : ℕ) × (z : ℤ) × (body : List ℕ) × (bs ≡ frame kind body ++ left)
        × (make kind z body ≡ m)
  get_taken (k ∷ a ∷ b ∷ c ∷ d ∷ rest) left m (hk, (ha, (hb, (hc, (hd, h))))) e =
      let z = i32_from_be_bytes a b c d in
      let (v, i) = i32_bytes a ha b hb c hc d hd in
      let (body, o, s, w) =
        receive-ok (make k z) (announced z) rest left m
          (sym (get_lem k z rest hk v) ∙ ap (λ t. get (k ∷ t ++ rest)) i ∙ e) in
      (k, z, body, ap (λ t. k ∷ t) (rejoin a b c d z rest body left i v o s), w)
  get_taken bs left m h e = absurd (short bs left m (omega arith) e)

module _ (B : BytesCrate) where
  frontend_short :
      (bs left : List ℕ) (m : RawFrontendMessage)
      → length bs < 5
      → get_frontend_message B bs ≢ (ok m, left)
  unfolding get_frontend_message
  frontend_short bs left m l e = let e' = rw (read_exact_short 5 bs l) at e in cc

  backend_short :
      (bs left : List ℕ) (m : RawBackendMessage)
      → length bs < 5
      → get_backend_message B bs ≢ (ok m, left)
  unfolding get_backend_message
  backend_short bs left m l e = let e' = rw (read_exact_short 5 bs l) at e in cc

  -- A message that `RawFrontendMessage::get` returns is one whose frame has been taken off the wire.
  pub get_frontend_message_taken :
      (bs left : List ℕ) (m : RawFrontendMessage)
      → All IsByte bs
      → get_frontend_message B bs ≡ (ok m, left)
      → bs ≡ frame m.header.message_type m.raw_body ++ left
  get_frontend_message_taken bs left m b e =
      let (k, z, body, s, w) =
        get_taken
          (λ k z body. record { header = record { message_type = k; length = z }; raw_body = body })
          (get_frontend_message B) (get_frontend_message_lem B) frontend_short bs left m b e in
      s ∙ ap (λ (t : RawFrontendMessage). frame t.header.message_type t.raw_body ++ left) w

  -- A message that `RawBackendMessage::get` returns is one whose frame has been taken off the wire.
  pub get_backend_message_taken :
      (bs left : List ℕ) (m : RawBackendMessage)
      → All IsByte bs
      → get_backend_message B bs ≡ (ok m, left)
      → bs ≡ frame m.header.message_type m.raw_body ++ left
  get_backend_message_taken bs left m b e =
      let (k, z, body, s, w) =
        get_taken
          (λ k z body. record { header = record { message_type = k; length = z }; raw_body = body })
          (get_backend_message B) (get_backend_message_lem B) backend_short bs left m b e in
      s ∙ ap (λ (t : RawBackendMessage). frame t.header.message_type t.raw_body ++ left) w

  -- What becomes of a request's body.
  abbrev after_body : ℤ → List ℕ → Exec BufReader RawRequest
  after_body z body = do
    code ← lift (first_i32 body)
    request_kind ← lift (request_kind_of code)
    pure (record { header = record { length = z }; request_kind = request_kind; raw_body = body })

  get_request_lem :
      (z : ℤ) (input : List ℕ)
      → IsSigned m32 z
      → get_request B (i32_to_be_bytes z ++ input)
        ≡ (receive (λ body. body) (announced z) >>= after_body z) input
  unfolding get_request
  get_request_lem z input v = rw (
    read_exact-append (i32_to_be_bytes z) input,
    request_header-frame B z v,
    read_body_lem z input v,
  )

  request_short :
      (bs left : List ℕ) (m : RawRequest) → length bs < 4 → get_request B bs ≢ (ok m, left)
  unfolding get_request
  request_short bs left m l e = let e' = rw (read_exact_short 4 bs l) at e in cc

  -- A request that `RawRequest::get` returns is one whose frame has been taken off the wire, and its
  -- kind is the one of the code in its body.
  pub get_request_taken :
      (bs left : List ℕ) (m : RawRequest)
      → All IsByte bs
      → get_request B bs ≡ (ok m, left)
      → (bs ≡ request_frame m.raw_body ++ left)
        × (first_i32 m.raw_body ≡ ok (request_code m.request_kind))
  get_request_taken (a ∷ b ∷ c ∷ d ∷ rest) left m (ha, (hb, (hc, (hd, h)))) e =
      let z = i32_from_be_bytes a b c d in
      let (v, i) = i32_bytes a ha b hb c hc d hd in
      let (r, left') = receive (λ (t : List ℕ). t) (announced z) rest in
      let (body, e₁, e₂) =
        continue-eq-ok r (after_body z) left' m left
          (sym (get_request_lem z rest v) ∙ ap (λ t. get_request B (t ++ rest)) i ∙ e) in
      let (code, e₃, e₄) = continue-eq-ok (first_i32 body) _ left' m left e₂ in
      let (kind, e₅, e₆) = continue-eq-ok (request_kind_of code) _ left' m left e₄ in
      let (body', o, s, w) =
        receive-ok (λ (t : List ℕ). t) (announced z) rest left' body (λ i. (e₁ i, left')) in
      let made : RawRequest = record {
        header = record { length = z };
        request_kind = kind;
        raw_body = body;
      } in
      let (m_eq, left_eq) = returned-eq made m left' left e₆ in
      (
        rejoin a b c d z rest body' left' i v o s
            ∙ ap (λ t. request_frame t ++ left') (w ∙ ap (λ (t : RawRequest). t.raw_body) m_eq)
            ∙ ap (λ t. request_frame m.raw_body ++ t) left_eq,
        ap first_i32 (sym (ap (λ (t : RawRequest). t.raw_body) m_eq))
            ∙ e₃
            ∙ ap ok (sym ((request_kind_of_iff code kind).0 e₅))
            ∙ ap (λ (t : RawRequest). ok (request_code t.request_kind)) m_eq,
      )
  get_request_taken bs left m h e = absurd (request_short bs left m (omega arith) e)
