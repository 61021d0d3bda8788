-- ===== src/Handler/Server/Causal.antt =====
-- The server's handlers do what they have read tells them to, and no more input changes what is done.
use fakepostmaster.Prelude.{Bool, List, ℕ}
use fakepostmaster.Buffer.{BytesCrate}
use fakepostmaster.Message.Backend.{ParameterStatus}
use fakepostmaster.Handler.Io.Progress.{Progress-IsPreorder}
use fakepostmaster.Handler.Io.Causal.{CausalHandler, WroteMore-IsPreorder, causal_handler_rules}
use fakepostmaster.Handler.Server.{
  Executor, accept_client, reject_client, md5_authentication_handler, put_row, simple_query_handler,
}

module _ (B : BytesCrate) where
  accept_client-Causal : (ps : List ParameterStatus) → CausalHandler (accept_client B ps)
  unfolding accept_client
  accept_client-Causal ps = search causal_handler_rules depth 20

  reject_client-Causal : CausalHandler (reject_client B)
  unfolding reject_client
  reject_client-Causal = search causal_handler_rules depth 20

  put_row-Causal : (row : List (List ℕ)) → CausalHandler (put_row B row)
  unfolding put_row
  put_row-Causal row = search causal_handler_rules depth 20

  pub md5_authentication_handler-Causal :
      (auth : Unit {0} → Bool) → CausalHandler (md5_authentication_handler B auth)
  unfolding md5_authentication_handler
  md5_authentication_handler-Causal auth =
      search (causal_handler_rules, accept_client-Causal, reject_client-Causal) depth 30

  pub simple_query_handler-Causal :
      (execute : Executor) → CausalHandler (simple_query_handler B execute)
  unfolding simple_query_handler
  simple_query_handler-Causal execute = search (causal_handler_rules, put_row-Causal) depth 30
