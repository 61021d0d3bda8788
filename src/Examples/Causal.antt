-- ===== src/Examples/Causal.antt =====
-- What the two example programs do with a connection does not depend on what they have not read.
use fakepostmaster.Prelude.{ℕ, ◌≤◌, zero, suc, Bool, List, length, length-append, arith}
use fakepostmaster.Outcome.{out_of_fuel}
use fakepostmaster.Exec.Keeps.{Keeps, Keeps-bind}
use fakepostmaster.Exec.Causal.{starved, continue-Both, causal_rules}
use fakepostmaster.Buffer.{BytesCrate}
use fakepostmaster.Md5.{Md5Crate}
use fakepostmaster.Handler.Connection.{TcpHandler}
use fakepostmaster.Handler.Io.Causal.{
  with_more, WroteMore, WroteMore-IsPreorder, CausalHandler, BothHandlers,
}
use fakepostmaster.Handler.Server.{Executor, simple_query_handler}
use fakepostmaster.Handler.Server.Causal as ServerCausal
use fakepostmaster.Handler.Client.Causal as ClientCausal
use fakepostmaster.Examples.Server as ServerExample
use fakepostmaster.Examples.Server.{answer_queries}
use fakepostmaster.Examples.Client as ClientExample

module _ (B : BytesCrate) (execute : Executor) where
  query-Causal : CausalHandler (simple_query_handler B execute)
  query-Causal = ServerCausal.simple_query_handler-Causal B execute

  answer_queries-WroteMore : (f : ℕ) → Keeps WroteMore (answer_queries B execute f)
  unfolding answer_queries
  answer_queries-WroteMore zero = record { at = WroteMore-IsPreorder.unchanged }
  answer_queries-WroteMore (suc f) =
      Keeps-bind _ _ query-Causal.keeps (λ _. answer_queries-WroteMore f)

  -- More input comes with more fuel.
  answer_queries-Both :
      (f f' : ℕ) (h : TcpHandler) (j : List ℕ)
      → f ≤ f'
      → BothHandlers j (answer_queries B execute f h) (answer_queries B execute f' (with_more h j))
  unfolding answer_queries
  answer_queries-Both zero f' h j l =
      starved out_of_fuel _ h _ tt ((answer_queries-WroteMore f').at (with_more h j))
  answer_queries-Both (suc f) zero h j l = absurd (omega arith)
  answer_queries-Both (suc f) (suc f') h j l =
      continue-Both j (simple_query_handler B execute h)
        (simple_query_handler B execute (with_more h j)) _ _ (query-Causal.at h j)
        (λ _ t. answer_queries-Both f f' t j (omega arith)) (λ _. answer_queries-WroteMore f')

  answering-Causal : CausalHandler (λ h. answer_queries B execute (suc (length h.tcp_reader)) h)
  answering-Causal = record {
    keeps = record { at = λ h. (answer_queries-WroteMore (suc (length h.tcp_reader))).at h };
    at = λ h j.
        answer_queries-Both (suc (length h.tcp_reader)) (suc (length (with_more h j).tcp_reader)) h
          j (omega (arith, length-append h.tcp_reader j));
  }

  pub server-Causal :
      (auth : Unit {0} → Bool) → CausalHandler (ServerExample.session B auth execute)
  unfolding ServerExample.session
  server-Causal auth =
      search (causal_rules, ServerCausal.md5_authentication_handler-Causal, answering-Causal)

module _ (B : BytesCrate) (D : Md5Crate) where
  pub client-Causal : CausalHandler (ClientExample.session B D)
  unfolding ClientExample.session
  client-Causal = search (
    causal_rules, ClientCausal.md5_authentication_handler-Causal,
    ClientCausal.simple_query_handler-Causal,
  )
