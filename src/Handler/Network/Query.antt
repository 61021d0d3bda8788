-- ===== src/Handler/Network/Query.antt =====
-- The two query handlers with each other, over a network that delivers their bytes in pieces.
use fakepostmaster.Prelude.{
  ◌≡◌, refl, sym, ap, ◌∙◌, Bool-cases, inl, inr, [], length, ltb, if◌then◌else◌, arith,
}
use mathlib.Core.Path.{subst}
use fakepostmaster.Outcome.{ok, err, expected_data_row, unexpected_eof}
use fakepostmaster.Buffer.{BytesCrate}
use fakepostmaster.Types.Text.{cstring_new}
use fakepostmaster.Stream.Reader.{read_exact_short}
use fakepostmaster.Stream.Writer.Keeps.{Grows, Grows-refl}
use fakepostmaster.Message.Get.{get_backend_message}
use fakepostmaster.Message.Frontend.{new_query, query_body}
use fakepostmaster.Message.Reliable.Frontend.{query_body-IsReliable}
use fakepostmaster.Handler.Io.{get_raw_backend_message}
use fakepostmaster.Handler.Io.Laws.{then_flush}
use fakepostmaster.Handler.Conversation.{simple_query_handler_conversation}
use fakepostmaster.Handler.Server
use fakepostmaster.Handler.Server.{Executed, Executor}
use fakepostmaster.Handler.Server.Answering.{IsAnswer, answer}
use fakepostmaster.Handler.Server.Causal as ServerCausal
use fakepostmaster.Handler.Server.Transcript.{connection, ready}
use fakepostmaster.Handler.Client
use fakepostmaster.Handler.Client.Asking.{client_query, query_frame}
use fakepostmaster.Handler.Client.Causal as ClientCausal
use fakepostmaster.Handler.Network.{
  Arrived, sends, to_server, to_client, Steps, stay, go, Reached, IsQuiet,
}
use fakepostmaster.Handler.Network.Laws.{Behind, Reached-converges}

module _ (B : BytesCrate) where
  -- The client sends its query, and waits.
  client_waits :
      Client.simple_query_handler B (connection [] [])
      ≡ (err unexpected_eof, connection [] (query_frame B))
  unfolding Client.simple_query_handler new_query cstring_new get_raw_backend_message
      get_backend_message
  client_waits =
      then_flush B (query_body B) (query_body-IsReliable B) client_query (connection [] []) _ _
        (omega arith) (omega arith) refl (rw (read_exact_short 5 [] (omega arith)) refl)

  pub client_asks : sends (Client.simple_query_handler B) [] ≡ query_frame B
  client_asks = ap (λ r. r.1.tcp_writer.sent) client_waits

  module _ (executor : Executor) (result : Executed)
      (executed : executor client_query.query ≡ ok result) (valid : IsAnswer B result) where
    -- All that arrives at the two ends.
    abbrev pub last_arrived : Arrived
    last_arrived = record { at_server = query_frame B; at_client = answer B result }

    server_result :
        Server.simple_query_handler B executor (connection (query_frame B) [])
        ≡ (ok tt, connection [] (answer B result))
    server_result = (simple_query_handler_conversation B executor result executed valid).0

    client_result : Client.simple_query_handler B (connection (answer B result) []) ≡ (
        if ltb 0 (length result.1)
        then (ok tt, connection [] (query_frame B))
        else (err expected_data_row, connection ready (query_frame B)))
    client_result = (simple_query_handler_conversation B executor result executed valid).1

    client_sent : sends (Client.simple_query_handler B) (answer B result) ≡ query_frame B
    client_sent = elim (Bool-cases (ltb 0 (length result.1))) [
      | inl row ↦ ap (λ r. r.1.tcp_writer.sent) client_result ∙ rw row
      | inr none' ↦ ap (λ r. r.1.tcp_writer.sent) client_result ∙ rw none'
    ]

    last_arrived-IsQuiet :
        IsQuiet
          (Server.simple_query_handler B executor)
          (Client.simple_query_handler B)
          last_arrived
    last_arrived-IsQuiet = (sym client_sent, sym (ap (λ r. r.1.tcp_writer.sent) server_result))

    last_arrived-Reached :
        Reached
          (Server.simple_query_handler B executor)
          (Client.simple_query_handler B)
          last_arrived
    last_arrived-Reached =
        go
          (go stay (
            to_server (record { at_server = []; at_client = [] }) (query_frame B)
              (rw client_asks (Grows-refl (query_frame B)))))
          (to_client (record { at_server = query_frame B; at_client = [] }) (answer B result)
            (subst (λ t. Grows t (sends (Server.simple_query_handler B executor) (query_frame B)))
              (ap (λ r. r.1.tcp_writer.sent) server_result) (Grows-refl _)))

    -- The two query handlers with each other, over sockets that take what they are given, where what
    -- the executor returns for the client's query is valid and fits the frames: in whatever pieces and
    -- order the bytes of the two ends arrive, each end receives a beginning of the query or the answer,
    -- and the conversation can always go on to where both have arrived. When nothing is on its way any
    -- more, the server has taken the query, has sent the whole answer and returned without an error;
    -- and the client has taken it and returned without an error if the executor's row has a column, and
    -- else has failed with the server's last message left.
    pub simple_query_handler-converges :
        (a : Arrived)
        → Reached (Server.simple_query_handler B executor) (Client.simple_query_handler B) a
        → Behind a last_arrived
          × Steps
              (Server.simple_query_handler B executor)
              (Client.simple_query_handler B)
              a
              last_arrived
          × (IsQuiet (Server.simple_query_handler B executor) (Client.simple_query_handler B) a
              → (Server.simple_query_handler B executor (connection a.at_server [])
                  ≡ (ok tt, connection [] (answer B result)))
                × (Client.simple_query_handler B (connection a.at_client []) ≡ (
                    if ltb 0 (length result.1)
                    then (ok tt, connection [] (query_frame B))
                    else (err expected_data_row, connection ready (query_frame B)))))
    simple_query_handler-converges a r =
        let (behind, steps, unique) =
          Reached-converges (Server.simple_query_handler B executor) (Client.simple_query_handler B)
            (ServerCausal.simple_query_handler-Causal B executor)
            (ClientCausal.simple_query_handler-Causal B) last_arrived a last_arrived-Reached
            last_arrived-IsQuiet r in
        (
          behind,
          steps,
          λ q. (
            ap (λ z. Server.simple_query_handler B executor (connection z.at_server [])) (unique q)
                ∙ server_result,
            ap (λ z. Client.simple_query_handler B (connection z.at_client [])) (unique q)
                ∙ client_result,
          ),
        )
