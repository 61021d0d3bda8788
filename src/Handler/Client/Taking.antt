-- ===== src/Handler/Client/Taking.antt =====
-- What a server has sent that the client's handlers take, one message at a time.
use fakepostmaster.Prelude.{
  Bool, true, false, refl, ℕ, zero, suc, ◌≡◌, ◌≢◌, ap, sym, ◌∙◌, Option, some, List, [], ◌∷◌, ◌++◌,
  append_assoc, All, concat_map, Bool-cases, inl, inr,
}
use mathlib.Core.Path.{subst}
use fakepostmaster.Int.{IsByte}
use fakepostmaster.Outcome
use fakepostmaster.Outcome.{Outcome, Error, ok, err, panicked, out_of_fuel}
use fakepostmaster.Exec.{Exec, continue, ◌>>=◌, throw, lift, map_err}
use fakepostmaster.Exec.Laws.{continue-eq-ok, map_err_value}
use fakepostmaster.Buffer.{BytesCrate}
use fakepostmaster.Types.Counted.Reading.{Encodes}
use fakepostmaster.Wire.Lawful.{All-back}
use fakepostmaster.Kind.Backend.{BackendMessageKind, backend_code, backend_kind_of}
use fakepostmaster.Kind.Codes.{backend_kind_of_iff}
use fakepostmaster.Message.Raw.{RawBackendMessage, backend_message_kind, to_option}
use fakepostmaster.Message.Get.{value_of, get_backend_message}
use fakepostmaster.Message.Frame.{frame}
use fakepostmaster.Message.Frame.Taken.{get_backend_message_taken, returned-eq}
use fakepostmaster.Message.Canonical.Sound.{Sound, try_parameter_status-Sound}
use fakepostmaster.Message.Backend.{ParameterStatus, try_parameter_status}
use fakepostmaster.Message.Reliable.Backend.{IsParameterStatus, parameter_status_encode}
use fakepostmaster.Handler.Client.{debug_parameter_status, is_parameter_status, skip_parameters}
use fakepostmaster.Handler.Connection.{TcpHandler, reading}
use fakepostmaster.Handler.Io.{get_raw_backend_message, unless_error}
use fakepostmaster.Handler.Server.Accepting.{value_of-eq-ok, body_bytes}

always_thrown :
    {A C : Type 0} (r : Outcome A) (x : Error) (input left : List ℕ) (c : C)
    → continue r (λ _. throw x) input ≢ (ok c, left)
always_thrown (ok a) x input left c e = cc
always_thrown (err y) x input left c e = cc
always_thrown (panicked p) x input left c e = cc
always_thrown out_of_fuel x input left c e = cc

bound :
    {A : Type 0} (r : Outcome A) → Outcome.◌>>=◌ r (λ a. ok tt) ≡ ok (tt {0}) → (a : A) × (r ≡ ok a)
bound (ok a) e = (a, refl)
bound (err x) e = cc
bound (panicked p) e = cc
bound out_of_fuel e = cc

to_option-some : {A : Type 0} (r : Outcome A) (a : A) → to_option r ≡ ok (some a) → r ≡ ok a
to_option-some (ok x) a e = cc
to_option-some (err x) a e = cc
to_option-some (panicked p) a e = cc
to_option-some out_of_fuel a e = cc

module _ (B : BytesCrate) where
  unless_error-eq-ok :
      (raw m : RawBackendMessage) (kind : Option BackendMessageKind) (input left : List ℕ)
      → unless_error B raw kind input ≡ (ok m, left)
      → (raw ≡ m) × (input ≡ left)
  unfolding unless_error
  unless_error-eq-ok raw m (some BackendMessageKind.error_response) input left e =
      absurd (always_thrown _ _ input left m e)
  unless_error-eq-ok raw m kind input left e = returned-eq raw m input left e

  -- A message that `get_raw_backend_message` returns is one whose frame has been taken off the wire.
  pub get_raw_backend_message_taken :
      (bs left : List ℕ) (m : RawBackendMessage)
      → All IsByte bs
      → get_raw_backend_message B bs ≡ (ok m, left)
      → bs ≡ frame m.header.message_type m.raw_body ++ left
  unfolding get_raw_backend_message
  get_raw_backend_message_taken bs left m b e =
      let (r, left') = get_backend_message B bs in
      let (raw, e₁, e₂) = continue-eq-ok r _ left' m left e in
      let (kind, e₃, e₄) = continue-eq-ok (backend_message_kind raw) _ left' m left e₂ in
      let (same, rest) = unless_error-eq-ok raw m kind left' left e₄ in
      get_backend_message_taken B bs left' raw b (λ i. (e₁ i, left'))
      ∙ ap (λ (t : RawBackendMessage). frame t.header.message_type t.raw_body ++ left') same
      ∙ ap (λ t. frame m.header.message_type m.raw_body ++ t) rest

  module _ {A : Type 0} {try : RawBackendMessage → Outcome (A × List ℕ)} {kind : ℕ}
      {Reads : List ℕ → A → Type 0} (sound : Sound try kind Reads) where
    -- A raw message that has been turned into a value.
    turned_any :
        (m : RawBackendMessage) (a : A) (left : List ℕ)
        → All IsByte m.raw_body
        → value_of (try m) ≡ ok a
        → (after chunk : List ℕ) × Reads chunk a
          × (frame m.header.message_type m.raw_body ++ left ≡ frame kind (chunk ++ after) ++ left)
    turned_any m a left b e =
        let (after, e') = value_of-eq-ok (try m) a e in
        let (k, (chunk, v, s)) = sound.reads_only m (a, after) b e' in
        (after, chunk, v, ap (λ t. frame t m.raw_body ++ left) k ∙ ap (λ t. frame kind t ++ left) s)

    -- A message that has been taken and turned into a value, with what is done then.
    pub received_any :
        {C : Type 0} (x : Error) (f : A → Exec TcpHandler C) (h h' : TcpHandler) (c : C)
        → All IsByte h.tcp_reader
        → (reading (get_raw_backend_message B) >>= λ raw.
              lift (map_err x (value_of (try raw))) >>= f)
            h
          ≡ (ok c, h')
        → (a : A) × (after chunk left : List ℕ) × Reads chunk a
          × (h.tcp_reader ≡ frame kind (chunk ++ after) ++ left)
          × All IsByte left
          × (f a (record h { tcp_reader = left }) ≡ (ok c, h'))
    received_any x f h h' c b e =
        let (r, left) = get_raw_backend_message B h.tcp_reader in
        let t = record h { tcp_reader = left } in
        let (raw, e₁, e₂) = continue-eq-ok r _ t c h' e in
        let (a, e₃, e₄) = continue-eq-ok (map_err x (value_of (try raw))) f t c h' e₂ in
        let taken = get_raw_backend_message_taken h.tcp_reader left raw b (λ i. (e₁ i, left)) in
        let bytes = subst (All IsByte) taken b in
        let (after, chunk, v, s) =
          turned_any raw a left (body_bytes (raw.header.message_type ∷ []) raw.raw_body left bytes)
            (map_err_value _ _ _ e₃) in
        (
          a,
          after,
          chunk,
          left,
          v,
          taken ∙ s,
          All-back IsByte (frame raw.header.message_type raw.raw_body) left bytes,
          e₄,
        )

  -- The same, for a value with one encoding.
  module _ {A : Type 0} {try : RawBackendMessage → Outcome (A × List ℕ)} {kind : ℕ}
      {IsValid : A → Type 0} {encode : A → List ℕ}
      (sound : Sound try kind (Encodes IsValid encode)) where
    pub turned :
        (m : RawBackendMessage) (a : A) (left : List ℕ)
        → All IsByte m.raw_body
        → value_of (try m) ≡ ok a
        → (after : List ℕ) × IsValid a
          × (frame m.header.message_type m.raw_body ++ left
              ≡ frame kind (encode a ++ after) ++ left)
    turned m a left b e =
        let (after, chunk, (v, c), s) = turned_any sound m a left b e in
        (after, v, s ∙ ap (λ t. frame kind (t ++ after) ++ left) c)

    pub received :
        {C : Type 0} (x : Error) (f : A → Exec TcpHandler C) (h h' : TcpHandler) (c : C)
        → All IsByte h.tcp_reader
        → (reading (get_raw_backend_message B) >>= λ raw.
              lift (map_err x (value_of (try raw))) >>= f)
            h
          ≡ (ok c, h')
        → (a : A) × (after left : List ℕ) × IsValid a
          × (h.tcp_reader ≡ frame kind (encode a ++ after) ++ left)
          × All IsByte left
          × (f a (record h { tcp_reader = left }) ≡ (ok c, h'))
    received x f h h' c b e =
        let (a, after, chunk, left, (v, d), s, b', e') = received_any sound x f h h' c b e in
        (a, after, left, v, s ∙ ap (λ t. frame kind (t ++ after) ++ left) d, b', e')

  -- What is known of the body of a parameter: where DEBUG events are enabled, that it begins with a
  -- valid parameter, and else nothing.
  abbrev pub StatusRead : Bool → List ℕ → Type 0
  StatusRead true body =
      (p : ParameterStatus) × (after : List ℕ) × IsParameterStatus B p
      × (body ≡ parameter_status_encode B p ++ after)
  StatusRead false body = Unit

  debug_parameter_status-StatusRead :
      (debug : Bool) (m : RawBackendMessage)
      → All IsByte m.raw_body
      → debug_parameter_status B debug m ≡ ok tt
      → StatusRead debug m.raw_body
  unfolding debug_parameter_status
  debug_parameter_status-StatusRead true m b e =
      let (p, e') = bound (value_of (try_parameter_status B m)) e in
      let (after, e₂) = value_of-eq-ok (try_parameter_status B m) p e' in
      let (kind, (chunk, (v, c), s)) =
        (try_parameter_status-Sound B).reads_only m (p, after) b e₂ in
      (p, after, v, s ∙ ap (λ t. t ++ after) c)
  debug_parameter_status-StatusRead false m b e = tt

  -- Parameters that have been skipped, by their bodies, and the message behind them.
  pub record Skipped (debug : Bool) (input left : List ℕ) (m : RawBackendMessage) : Type 0 where
    pub statuses : List (List ℕ)
    pub statuses_read : All (StatusRead debug) statuses
    pub body_IsByte : All IsByte m.raw_body
    pub left_IsByte : All IsByte left
    pub input_is :
        input ≡ concat_map (frame b'S') statuses ++ (frame m.header.message_type m.raw_body ++ left)

  -- One more of them.
  Skipped-status :
      (debug : Bool) (input between left : List ℕ) (m : RawBackendMessage) (body : List ℕ)
      → StatusRead debug body
      → input ≡ frame b'S' body ++ between
      → Skipped debug between left m
      → Skipped debug input left m
  Skipped-status debug input between left m body v s k = record {
    statuses = body ∷ k.statuses;
    statuses_read = (v, k.statuses_read);
    body_IsByte = k.body_IsByte;
    left_IsByte = k.left_IsByte;
    input_is =
        s
        ∙ ap (λ t. frame b'S' body ++ t) k.input_is
        ∙ sym (append_assoc (frame b'S' body) (concat_map (frame b'S') k.statuses) _);
  }

  is_status :
      (kind : Option BackendMessageKind)
      → is_parameter_status kind ≡ true
      → kind ≡ some BackendMessageKind.parameter_status
  unfolding is_parameter_status
  is_status (some BackendMessageKind.parameter_status) e = refl
  is_status kind e = cc

  -- A message that the loop takes for a parameter has the type byte of one.
  status_byte :
      (m : RawBackendMessage) (kind : Option BackendMessageKind)
      → backend_message_kind m ≡ ok kind
      → is_parameter_status kind ≡ true
      → m.header.message_type ≡ b'S'
  unfolding backend_message_kind backend_code
  status_byte m kind e is = sym (
      (backend_kind_of_iff m.header.message_type BackendMessageKind.parameter_status).0
        (to_option-some (backend_kind_of m.header.message_type) _ (e ∙ ap ok (is_status kind is))))

  -- If the loop over the parameters returns, whatever its fuel, it has skipped messages with the type
  -- byte of a parameter, which it has read where DEBUG events are enabled.
  pub skip_parameters-Skipped :
      (debug : Bool) (f : ℕ) (raw m : RawBackendMessage) (h h' : TcpHandler)
      → All IsByte raw.raw_body
      → All IsByte h.tcp_reader
      → skip_parameters B debug f raw h ≡ (ok m, h')
      → Skipped debug (frame raw.header.message_type raw.raw_body ++ h.tcp_reader) h'.tcp_reader m
  unfolding skip_parameters
  skip_parameters-Skipped debug zero raw m h h' b bs e = cc
  skip_parameters-Skipped debug (suc f) raw m h h' b bs e =
      let (kind, e₁, e₂) = continue-eq-ok (backend_message_kind raw) _ h m h' e in
      elim (Bool-cases (is_parameter_status kind)) [
        | inl is ↦
            let (logged, e₃, e₄) =
              continue-eq-ok (debug_parameter_status B debug raw) _ h m h' (rw is at e₂) in
            let (r, left) = get_raw_backend_message B h.tcp_reader in
            let t = record h { tcp_reader = left } in
            let (next, e₅, e₆) = continue-eq-ok r _ t m h' e₄ in
            let taken =
              get_raw_backend_message_taken h.tcp_reader left next bs (λ i. (e₅ i, left)) in
            let bytes = subst (All IsByte) taken bs in
            Skipped-status debug _ _ h'.tcp_reader m raw.raw_body
              (debug_parameter_status-StatusRead debug raw b e₃)
              (ap (λ k. frame k raw.raw_body ++ h.tcp_reader) (status_byte raw kind e₁ is)
                ∙ ap (λ i. frame b'S' raw.raw_body ++ i) taken)
              (skip_parameters-Skipped debug f next m t h'
                (body_bytes (next.header.message_type ∷ []) next.raw_body left bytes)
                (All-back IsByte (frame next.header.message_type next.raw_body) left bytes) e₆)
        | inr other ↦
            let (same, left) = returned-eq raw m h h' (rw other at e₂) in
            record {
              statuses = [];
              statuses_read = tt;
              body_IsByte = subst (λ (t : RawBackendMessage). All IsByte t.raw_body) same b;
              left_IsByte = subst (λ (t : TcpHandler). All IsByte t.tcp_reader) left bs;
              input_is =
                  ap
                    (λ (t : RawBackendMessage).
                      frame t.header.message_type t.raw_body ++ h.tcp_reader)
                    same
                  ∙ ap (λ (t : TcpHandler). frame m.header.message_type m.raw_body ++ t.tcp_reader)
                      left;
            }
      ]
