-- ===== src/Handler/Client/Keeps.antt =====
-- What the client's handlers keep of their connection.
use fakepostmaster.Prelude.{ℕ, zero, suc, Bool, true, false, length}
use fakepostmaster.Exec.{Exec}
use fakepostmaster.Exec.Keeps.{IsPreorder, Keeps, Keeps-bind, Keeps-lift, Keeps-pure}
use fakepostmaster.Buffer.{BytesCrate}
use fakepostmaster.Md5.{Md5Crate}
use fakepostmaster.Message.Raw.{RawBackendMessage, backend_message_kind}
use fakepostmaster.Handler.Connection.{TcpHandler, reading}
use fakepostmaster.Handler.Io.{get_raw_backend_message}
use fakepostmaster.Handler.Io.Progress.{Progress, Progress-IsPreorder, backend-Keeps, handler_rules}
use fakepostmaster.Handler.Client.{
  debug_parameter_status, is_parameter_status, skip_parameters, md5_authentication_handler,
  simple_query_handler,
}

pub either-Keeps :
    {C : Type 0} {R : TcpHandler → TcpHandler → Type 0} (b : Bool) (p q : Exec TcpHandler C)
    → Keeps R p
    → Keeps R q
    → Keeps R (elim b as (λ x. Exec TcpHandler C) [ true ↦ p | false ↦ q ])
either-Keeps true p q hp hq = hp
either-Keeps false p q hp hq = hq

-- The loop over the parameters keeps what reading a message keeps.
module _ (B : BytesCrate) {R : TcpHandler → TcpHandler → Type 0} ⦃P : IsPreorder R⦄
    (message : Keeps R (reading (get_raw_backend_message B))) where
  pub skip_parameters-Keeps :
      (debug : Bool) (f : ℕ) (m : RawBackendMessage) → Keeps R (skip_parameters B debug f m)
  unfolding skip_parameters
  skip_parameters-Keeps debug zero m = record { at = P.unchanged }
  skip_parameters-Keeps debug (suc f) m = Keeps-bind _ _ (Keeps-lift (backend_message_kind m)) (λ k.
      either-Keeps (is_parameter_status k) _ _
        (Keeps-bind _ _ (Keeps-lift (debug_parameter_status B debug m))
          (λ status. Keeps-bind _ _ message (λ next. skip_parameters-Keeps debug f next)))
        (Keeps-pure m))

  -- The fuel is chosen by what is left to read.
  pub skip-Keeps :
      (debug : Bool) (m : RawBackendMessage)
      → Keeps R (λ h. skip_parameters B debug (suc (length h.tcp_reader)) m h)
  skip-Keeps debug m = record {
    at = λ h. (skip_parameters-Keeps debug (suc (length h.tcp_reader)) m).at h;
  }

module _ (B : BytesCrate) where
  pub simple_query_handler-Keeps : Keeps Progress (simple_query_handler B)
  unfolding simple_query_handler
  simple_query_handler-Keeps = search handler_rules depth 40

  pub md5_authentication_handler-Keeps :
      (D : Md5Crate) (debug : Bool) → Keeps Progress (md5_authentication_handler B D debug)
  unfolding md5_authentication_handler
  md5_authentication_handler-Keeps D debug =
      search (handler_rules, skip-Keeps B (backend-Keeps B) debug) depth 60
