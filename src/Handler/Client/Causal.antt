-- ===== src/Handler/Client/Causal.antt =====
-- The client's handlers do what they have read tells them to, and no more input changes what is done.
use fakepostmaster.Prelude.{
  ℕ, zero, suc, ◌≤◌, Bool, true, false, List, length, length-append, arith,
}
use fakepostmaster.Outcome.{ok, out_of_fuel}
use fakepostmaster.Exec.{Exec, lift, ◌>>=◌}
use fakepostmaster.Exec.Keeps.{Keeps, Keeps-bind, Keeps-lift, Keeps-pure}
use fakepostmaster.Exec.Causal.{same, starved, continue-Both}
use fakepostmaster.Buffer.{BytesCrate}
use fakepostmaster.Md5.{Md5Crate}
use fakepostmaster.Message.Raw.{RawBackendMessage, backend_message_kind}
use fakepostmaster.Handler.Connection.{TcpHandler, reading}
use fakepostmaster.Handler.Io.{get_raw_backend_message}
use fakepostmaster.Handler.Io.Progress.{Progress-IsPreorder}
use fakepostmaster.Handler.Io.Causal.{
  with_more, WroteMore, WroteMore-IsPreorder, CausalHandler, BothHandlers, backend-Causal,
  causal_handler_rules,
}
use fakepostmaster.Handler.Client.{
  debug_parameter_status, is_parameter_status, skip_parameters, md5_authentication_handler,
  simple_query_handler,
}
use fakepostmaster.Handler.Client.Keeps.{skip_parameters-Keeps, either-Keeps, skip-Keeps}

either-Both :
    {C : Type 0} (b : Bool) (p q p' q' : Exec TcpHandler C) (h : TcpHandler) (j : List ℕ)
    → BothHandlers j (p h) (p' (with_more h j))
    → BothHandlers j (q h) (q' (with_more h j))
    → BothHandlers j
        ((elim b as (λ x. Exec TcpHandler C) [ true ↦ p | false ↦ q ]) h)
        ((elim b as (λ x. Exec TcpHandler C) [ true ↦ p' | false ↦ q' ]) (with_more h j))
either-Both true p q p' q' h j hp hq = hp
either-Both false p q p' q' h j hp hq = hq

module _ (B : BytesCrate) where
  skip-WroteMore :
      (debug : Bool) (f : ℕ) (m : RawBackendMessage) → Keeps WroteMore (skip_parameters B debug f m)
  skip-WroteMore debug f m = skip_parameters-Keeps B (backend-Causal B).keeps debug f m

  next-WroteMore :
      (debug : Bool) (f : ℕ)
      → Keeps WroteMore (reading (get_raw_backend_message B) >>= skip_parameters B debug f)
  next-WroteMore debug f =
      Keeps-bind _ _ (backend-Causal B).keeps (λ next. skip-WroteMore debug f next)

  read_next-WroteMore :
      (debug : Bool) (f : ℕ) (m : RawBackendMessage)
      → Keeps WroteMore (
          lift (debug_parameter_status B debug m) >>= λ status.
          reading (get_raw_backend_message B) >>= skip_parameters B debug f)
  read_next-WroteMore debug f m =
      Keeps-bind _ _ (Keeps-lift (debug_parameter_status B debug m))
        (λ status. next-WroteMore debug f)

  -- More input may come with more fuel.
  skip-Both :
      (debug : Bool) (f f' : ℕ) (m : RawBackendMessage) (h : TcpHandler) (j : List ℕ)
      → f ≤ f'
      → BothHandlers j
          (skip_parameters B debug f m h)
          (skip_parameters B debug f' m (with_more h j))
  unfolding skip_parameters
  skip-Both debug zero f' m h j l =
      starved out_of_fuel _ h _ tt ((skip-WroteMore debug f' m).at (with_more h j))
  skip-Both debug (suc f) zero m h j l = absurd (omega arith)
  skip-Both debug (suc f) (suc f') m h j l =
      continue-Both j (backend_message_kind m, h) (backend_message_kind m, with_more h j) _ _
        (same (backend_message_kind m) h)
        (λ k t.
          either-Both (is_parameter_status k) _ _ _ _ t j
            (continue-Both j (debug_parameter_status B debug m, t)
              (debug_parameter_status B debug m, with_more t j) _ _
              (same (debug_parameter_status B debug m) t)
              (λ status t'.
                continue-Both j (reading (get_raw_backend_message B) t')
                  (reading (get_raw_backend_message B) (with_more t' j)) _ _
                  ((backend-Causal B).at t' j)
                  (λ next t''. skip-Both debug f f' next t'' j (omega arith))
                  (λ next. skip-WroteMore debug f' next))
              (λ status. next-WroteMore debug f'))
            (same (ok m) t))
        (λ k.
          either-Keeps (is_parameter_status k) _ _ (read_next-WroteMore debug f' m) (Keeps-pure m))

  skip-Causal :
      (debug : Bool) (m : RawBackendMessage)
      → CausalHandler (λ h. skip_parameters B debug (suc (length h.tcp_reader)) m h)
  skip-Causal debug m = record {
    keeps = skip-Keeps B (backend-Causal B).keeps debug m;
    at = λ h j.
        skip-Both debug (suc (length h.tcp_reader)) (suc (length (with_more h j).tcp_reader)) m h j
          (omega (arith, length-append h.tcp_reader j));
  }

  pub simple_query_handler-Causal : CausalHandler (simple_query_handler B)
  unfolding simple_query_handler
  simple_query_handler-Causal = search causal_handler_rules depth 40

  pub md5_authentication_handler-Causal :
      (D : Md5Crate) (debug : Bool) → CausalHandler (md5_authentication_handler B D debug)
  unfolding md5_authentication_handler
  md5_authentication_handler-Causal D debug =
      search (causal_handler_rules, skip-Causal debug) depth 60
