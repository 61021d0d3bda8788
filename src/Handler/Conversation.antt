-- ===== src/Handler/Conversation.antt =====
-- The client's query and the server's answer, both ends together.
use fakepostmaster.Prelude.{◌≡◌, ap, sym, ◌∙◌, [], append-nil, length, ltb, if◌then◌else◌, arith}
use fakepostmaster.Outcome.{ok, err, expected_data_row}
use fakepostmaster.Buffer.{BytesCrate}
use fakepostmaster.Types.Utf8.{is_utf8-ascii}
use fakepostmaster.Handler.Client
use fakepostmaster.Handler.Client.Asking.{client_query, query_frame, simple_query_handler_alone}
use fakepostmaster.Handler.Server
use fakepostmaster.Handler.Server.{Executed, Executor}
use fakepostmaster.Handler.Server.Answering.{IsAnswer, answer, simple_query_handler_lem}
use fakepostmaster.Handler.Server.Transcript.{connection, ready}

module _ (B : BytesCrate) where
  -- Both ends together, over sockets that take what they are given: if what the executor returns for
  -- the client's query is valid and fits the frames, the server takes the query that the client sends
  -- and returns without an error; and the client, given what the server sends, returns without an
  -- error if the executor's row has a column, and else fails with the server's last message left.
  pub simple_query_handler_conversation :
      (executor : Executor) (result : Executed)
      → executor client_query.query ≡ ok result
      → IsAnswer B result
      → (Server.simple_query_handler B executor (connection (query_frame B) [])
          ≡ (ok tt, connection [] (answer B result)))
        × (Client.simple_query_handler B (connection (answer B result) []) ≡ (
            if ltb 0 (length result.1)
            then (ok tt, connection [] (query_frame B))
            else (err expected_data_row, connection ready (query_frame B))))
  simple_query_handler_conversation executor (desc, row, tag) e v = (
    ap (λ i. Server.simple_query_handler B executor (connection i []))
          (sym (append-nil (query_frame B)))
        ∙ simple_query_handler_lem B executor client_query (desc, row, tag) [] [] (omega arith)
            (omega arith) e v
        ∙ rw (is_utf8-ascii client_query.query (omega arith)),
    simple_query_handler_alone B desc row tag [] v,
  )
