-- ===== src/Handler/Io/Causal.antt =====
-- Reading and writing messages: what is done depends on what has been read only.
use fakepostmaster.Prelude.{
  ℕ, ◌≤◌, ◌≡◌, refl, ap, zero, suc, List, [], ◌∷◌, ◌++◌, length, length-append, take, drop, leb,
  leb→le, le→leb, Bool-cases, inl, inr, Option, some, arith,
}
use fakepostmaster.Int.{ℤ}
use fakepostmaster.Outcome.{Outcome, ok}
use fakepostmaster.Exec.{Exec}
use fakepostmaster.Exec.Keeps.{IsPreorder, Keeps}
use fakepostmaster.Exec.Causal.{Both, same, starved, Causal, causal_rules}
use fakepostmaster.Buffer.{BytesCrate}
use fakepostmaster.Wire.{Wire}
use fakepostmaster.Stream.Reader.{BufReader, read_exact}
use fakepostmaster.Stream.Writer.{BufWriter}
use fakepostmaster.Stream.Writer.Keeps.{Kept, Kept-IsPreorder}
use fakepostmaster.Kind.Backend.{BackendMessageKind}
use fakepostmaster.Message.Header.{MessageBody}
use fakepostmaster.Message.Raw.{RawBackendMessage}
use fakepostmaster.Message.Get.{read_body, get_request, get_backend_message, get_frontend_message}
use fakepostmaster.Handler.Connection.{TcpHandler, reading, writing}
use fakepostmaster.Handler.Io.Progress.{Progress-IsPreorder}
use fakepostmaster.Handler.Io.Keeps.{
  put_message-Keeps, put_message_and_flush-Keeps, put_request-Keeps,
}
use fakepostmaster.Handler.Io.{
  unless_error, get_raw_backend_message, get_raw_frontend_message, put_message,
  put_message_and_flush, put_request,
}

abbrev more_input : BufReader → List ℕ → BufReader
more_input input j = input ++ j

-- A reader that has stopped has nothing to keep.
abbrev Any : BufReader → BufReader → Type 0
Any i i' = Unit

instance abbrev Any-IsPreorder : IsPreorder Any
Any-IsPreorder = record { unchanged = λ i. tt; changed_twice = λ i i' i'' h k. tt }

Keeps-Any {ℓ} : {A : Type ℓ} (m : Exec BufReader A) → Keeps Any m
Keeps-Any m = record { at = λ i. tt }

abbrev CausalReader {ℓ} : {A : Type ℓ} → Exec BufReader A → Type ℓ
CausalReader m = Causal more_input Any m

take_front : {A : Type 0} (n : ℕ) (xs ys : List A) → n ≤ length xs → take n (xs ++ ys) ≡ take n xs
take_front zero xs ys h = refl
take_front (suc n) [] ys h = absurd (omega arith)
take_front (suc n) (x ∷ xs) ys h = ap (λ t. x ∷ t) (take_front n xs ys (omega arith))

drop_front :
    {A : Type 0} (n : ℕ) (xs ys : List A) → n ≤ length xs → drop n (xs ++ ys) ≡ drop n xs ++ ys
drop_front zero xs ys h = refl
drop_front (suc n) [] ys h = absurd (omega arith)
drop_front (suc n) (x ∷ xs) ys h = drop_front n xs ys (omega arith)

read_exact-Causal : (n : ℕ) → CausalReader (read_exact n)
unfolding read_exact
read_exact-Causal n = record {
  keeps = Keeps-Any (read_exact n);
  at = λ i j. elim (Bool-cases (leb n (length i))) [
    | inl l ↦
        let h = leb→le n (length i) l in
        rw
          (
            l,
            le→leb n (length (i ++ j)) (omega (arith, length-append i j)),
            take_front n i j h,
            drop_front n i j h,
          )
          (same (ok (take n i)) (drop n i))
    | inr l ↦ rw l (starved _ _ _ _ tt tt)
  ];
}

read_body-Causal : (z : ℤ) → CausalReader (read_body z)
unfolding read_body
read_body-Causal z = search (causal_rules, read_exact-Causal) depth 12

module _ (B : BytesCrate) where
  get_request-Causal : CausalReader (get_request B)
  unfolding get_request
  get_request-Causal = search (causal_rules, read_exact-Causal, read_body-Causal) depth 12

  get_backend_message-Causal : CausalReader (get_backend_message B)
  unfolding get_backend_message
  get_backend_message-Causal = search (causal_rules, read_exact-Causal, read_body-Causal) depth 12

  get_raw_frontend_message-Causal : CausalReader (get_raw_frontend_message B)
  unfolding get_raw_frontend_message get_frontend_message
  get_raw_frontend_message-Causal =
      search (causal_rules, read_exact-Causal, read_body-Causal) depth 12

  unless_error-Causal :
      (m : RawBackendMessage) (k : Option BackendMessageKind) → CausalReader (unless_error B m k)
  unfolding unless_error
  unless_error-Causal m (some BackendMessageKind.error_response) = search causal_rules depth 12
  unless_error-Causal m k = search causal_rules

  get_raw_backend_message-Causal : CausalReader (get_raw_backend_message B)
  unfolding get_raw_backend_message
  get_raw_backend_message-Causal =
      search (causal_rules, get_backend_message-Causal, unless_error-Causal) depth 12

-- A handler with more to read, and what it has written by then.
abbrev pub with_more : TcpHandler → List ℕ → TcpHandler
with_more h j = record h { tcp_reader = h.tcp_reader ++ j }

abbrev pub WroteMore : TcpHandler → TcpHandler → Type 0
WroteMore h h' = Kept h.tcp_writer h'.tcp_writer

instance abbrev pub WroteMore-IsPreorder : IsPreorder WroteMore
WroteMore-IsPreorder = record {
  unchanged = λ h. Kept-IsPreorder.unchanged h.tcp_writer;
  changed_twice = λ g h i p q. Kept-IsPreorder.changed_twice _ _ _ p q;
}

-- Two results of handlers, the second with more input.
abbrev pub BothHandlers {ℓ} :
    {A : Type ℓ} → List ℕ → Outcome A × TcpHandler → Outcome A × TcpHandler → Type ℓ
BothHandlers j = Both with_more WroteMore j

abbrev pub CausalHandler {ℓ} : {A : Type ℓ} → Exec TcpHandler A → Type ℓ
CausalHandler m = Causal with_more WroteMore m

module _ {ℓ} {A : Type ℓ} where
  read_both :
      (j : List ℕ) (w : BufWriter) {p q : Outcome A × BufReader}
      → Both more_input Any j p q
      → Both with_more WroteMore j
          (p.0, record { tcp_reader = p.1; tcp_writer = w })
          (q.0, record { tcp_reader = q.1; tcp_writer = w })
  read_both j w (same r i) = same r (record { tcp_reader = i; tcp_writer = w })
  read_both j w (starved r r' i i' x m) =
      starved r r' (record { tcp_reader = i; tcp_writer = w })
        (record { tcp_reader = i'; tcp_writer = w }) x (Kept-IsPreorder.unchanged w)

  reading-Causal : (r : Exec BufReader A) → CausalReader r → CausalHandler (reading r)
  reading-Causal r c = record {
    keeps = record { at = λ h. Kept-IsPreorder.unchanged h.tcp_writer };
    at = λ h j. read_both j h.tcp_writer (c.at h.tcp_reader j);
  }

  writing-Causal : (w : Exec BufWriter A) → Keeps Kept w → CausalHandler (writing w)
  writing-Causal w k = record {
    keeps = record { at = λ h. k.at h.tcp_writer };
    at = λ h j. same (w h.tcp_writer).0 (record h { tcp_writer = (w h.tcp_writer).1 });
  }

module _ (B : BytesCrate) where
  pub request-Causal : CausalHandler (reading (get_request B))
  request-Causal = reading-Causal (get_request B) (get_request-Causal B)

  pub frontend-Causal : CausalHandler (reading (get_raw_frontend_message B))
  frontend-Causal = reading-Causal (get_raw_frontend_message B) (get_raw_frontend_message-Causal B)

  pub backend-Causal : CausalHandler (reading (get_raw_backend_message B))
  backend-Causal = reading-Causal (get_raw_backend_message B) (get_raw_backend_message-Causal B)

  module _ {A : Type 0} where
    pub put-Causal : (m : MessageBody A) (a : A) → CausalHandler (writing (put_message B m a))
    put-Causal m a = writing-Causal (put_message B m a) (put_message-Keeps B m a)

    pub put_and_flush-Causal :
        (m : MessageBody A) (a : A) → CausalHandler (writing (put_message_and_flush B m a))
    put_and_flush-Causal m a =
        writing-Causal (put_message_and_flush B m a) (put_message_and_flush-Keeps B m a)

    pub request_put-Causal : (w : Wire A) (a : A) → CausalHandler (writing (put_request B w a))
    request_put-Causal w a = writing-Causal (put_request B w a) (put_request-Keeps B w a)

pub ruleset causal_handler_rules = (
  causal_rules, request-Causal, frontend-Causal, backend-Causal, put-Causal, put_and_flush-Causal,
  request_put-Causal,
)
