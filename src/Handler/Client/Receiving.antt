-- ===== src/Handler/Client/Receiving.antt =====
-- The messages that the client takes off the wire.
use fakepostmaster.Prelude.{
  Bool, true, false, ℕ, some, zero, suc, ◌≤◌, ◌<◌, ◌≡◌, refl, List, [], ◌∷◌, ◌++◌, append_assoc,
  length, length-append, All, concat_map, arith,
}
use fakepostmaster.Int.{IsByte}
use fakepostmaster.Outcome.{ok}
use fakepostmaster.Buffer.{BytesCrate}
use fakepostmaster.Stream.Reader.{BufReader}
use fakepostmaster.Kind.Backend.{BackendMessageKind, backend_kind_of}
use fakepostmaster.Message.Raw.{RawBackendMessage, backend_message_kind}
use fakepostmaster.Message.Backend.{ParameterStatus, try_parameter_status}
use fakepostmaster.Message.Frame.{frame, FitsFrame, raw_backend, get_backend_message-frame}
use fakepostmaster.Message.Reliable.Backend.{
  IsParameterStatus, parameter_status_encode, parameter_status_body-IsReliable,
}
use fakepostmaster.Handler.Io.{unless_error, get_raw_backend_message}
use fakepostmaster.Handler.Client.{debug_parameter_status, is_parameter_status, skip_parameters}
use fakepostmaster.Handler.Server.Transcript.{connection}

-- A kind that is no `ErrorResponse`.
abbrev pub IsPlain : BackendMessageKind → Type 0
IsPlain BackendMessageKind.error_response = ⊥
IsPlain other = Unit

-- A kind that is neither an `ErrorResponse` nor a `ParameterStatus`.
abbrev pub IsLast : BackendMessageKind → Type 0
IsLast BackendMessageKind.error_response = ⊥
IsLast BackendMessageKind.parameter_status = ⊥
IsLast other = Unit

module _ (B : BytesCrate) where
  unless_error-IsPlain :
      (m : RawBackendMessage) (k : BackendMessageKind) (input : BufReader)
      → IsPlain k
      → unless_error B m (some k) input ≡ (ok m, input)
  unfolding unless_error
  unless_error-IsPlain m BackendMessageKind.error_response input h = absurd h
  unless_error-IsPlain m k input h = refl

  pub get_raw_backend_message-frame :
      (kind : ℕ) (k : BackendMessageKind) (body rest : List ℕ)
      → IsByte kind
      → FitsFrame body
      → backend_kind_of kind ≡ ok k
      → IsPlain k
      → get_raw_backend_message B (frame kind body ++ rest) ≡ (ok (raw_backend kind body), rest)
  unfolding get_raw_backend_message backend_message_kind
  get_raw_backend_message-frame kind k body rest b fits e h =
      rw (get_backend_message-frame B kind body rest b fits, e)
        (unless_error-IsPlain (raw_backend kind body) k rest h)

  -- A valid parameter can be logged.
  read_status :
      (debug : Bool) (p : ParameterStatus)
      → IsParameterStatus B p
      → debug_parameter_status B debug (raw_backend b'S' (parameter_status_encode B p)) ≡ ok tt
  unfolding debug_parameter_status try_parameter_status
  read_status true p v = rw ((parameter_status_body-IsReliable B).reads_whole p v) refl
  read_status false p v = refl

  -- A frame for each of the parameters.
  abbrev pub status_frames : List ParameterStatus → List ℕ
  status_frames ps = concat_map (λ p. frame b'S' (parameter_status_encode B p)) ps

  length-status_frames : (ps : List ParameterStatus) → length ps ≤ length (status_frames ps)
  length-status_frames [] = omega arith
  length-status_frames (p ∷ ps) = omega (
    arith,
    length-status_frames ps,
    length-append (frame b'S' (parameter_status_encode B p)) (status_frames ps),
  )

  -- Each of the parameters is valid and fits a frame.
  abbrev pub IsStatuses : List ParameterStatus → Type 0
  IsStatuses = All (λ p. IsParameterStatus B p × FitsFrame (parameter_status_encode B p))

  module _ (kind : ℕ) (body rest : List ℕ) where
    -- The first message of parameters and a last message, and what is left behind it.
    abbrev pub first_of : List ParameterStatus → RawBackendMessage
    first_of [] = raw_backend kind body
    first_of (p ∷ ps) = raw_backend b'S' (parameter_status_encode B p)

    abbrev pub left_of : List ParameterStatus → List ℕ
    left_of [] = rest
    left_of (p ∷ ps) = status_frames ps ++ (frame kind body ++ rest)

    pub length-left_of : (ps : List ParameterStatus) → length ps ≤ length (left_of ps)
    length-left_of [] = omega arith
    length-left_of (p ∷ ps) =
        omega (
          arith,
          length-status_frames ps,
          length-append (status_frames ps) (frame kind body ++ rest),
        )

    module _ (k : BackendMessageKind) (b : IsByte kind) (fits : FitsFrame body)
        (e : backend_kind_of kind ≡ ok k) (last : IsLast k) where
      IsLast-IsPlain : (k' : BackendMessageKind) → IsLast k' → IsPlain k'
      IsLast-IsPlain BackendMessageKind.error_response h = absurd h
      IsLast-IsPlain BackendMessageKind.parameter_status h = absurd h
      IsLast-IsPlain k' h = tt

      pub get_first :
          (ps : List ParameterStatus)
          → IsStatuses ps
          → get_raw_backend_message B (status_frames ps ++ (frame kind body ++ rest))
            ≡ (ok (first_of ps), left_of ps)
      get_first [] h =
          get_raw_backend_message-frame kind k body rest b fits e (IsLast-IsPlain k last)
      get_first (p ∷ ps) ((v, f), h) =
          rw
            (append_assoc (frame b'S' (parameter_status_encode B p)) (status_frames ps)
              (frame kind body ++ rest))
            (get_raw_backend_message-frame b'S' BackendMessageKind.parameter_status
              (parameter_status_encode B p) (status_frames ps ++ (frame kind body ++ rest))
              (omega arith) f (unfold backend_kind_of in refl) tt)

      skip_last :
          (debug : Bool) (k' : BackendMessageKind) (f : ℕ) (s : List ℕ)
          → IsLast k'
          → backend_kind_of kind ≡ ok k'
          → skip_parameters B debug (suc f) (raw_backend kind body) (connection rest s)
            ≡ (ok (raw_backend kind body), connection rest s)
      unfolding skip_parameters backend_message_kind is_parameter_status
      skip_last debug BackendMessageKind.parameter_status f s h e' = absurd h
      skip_last debug k' f s h e' = rw e'

      -- A unit of fuel more than there are parameters is enough to skip them, and the last message is
      -- left.
      pub skip_parameters_lem :
          (debug : Bool) (ps : List ParameterStatus) (f : ℕ) (s : List ℕ)
          → length ps < f
          → IsStatuses ps
          → skip_parameters B debug f (first_of ps) (connection (left_of ps) s)
            ≡ (ok (raw_backend kind body), connection rest s)
      unfolding skip_parameters backend_message_kind is_parameter_status backend_kind_of
      skip_parameters_lem debug ps zero s n h = absurd (omega arith)
      skip_parameters_lem debug [] (suc f) s n h = skip_last debug k f s last e
      skip_parameters_lem debug (p ∷ ps) (suc f) s n ((v, fp), h) =
          rw (read_status debug p v, get_first ps h)
            (skip_parameters_lem debug ps f s (omega arith) h)
