-- ===== src/Handler/Server/Answering.antt =====
-- `simple_query_handler` with a client that sends a query.
use fakepostmaster.Prelude.{
  ℕ, arith, ◌≡◌, refl, ap, List, [], ◌++◌, append-nil, append_assoc, length, ltb, if◌then◌else◌,
  Bool-cases, inl, inr,
}
use fakepostmaster.Outcome.{Outcome, ok, err, into_string_error}
use fakepostmaster.Buffer.{BytesCrate}
use fakepostmaster.Exec.{Exec, ◌>>◌, ◌>>=◌, lift}
use fakepostmaster.Types.Text.Laws.{IsText, cstring_new-IsText}
use fakepostmaster.Types.Utf8.{is_utf8, into_string}
use fakepostmaster.Stream.Writer.{BufWriter}
use fakepostmaster.Stream.Writer.Laws.{written}
use fakepostmaster.Message.Backend.{
  CommandComplete, new_command_complete, new_ready_for_query, idle, command_complete_body,
  ready_for_query_body,
}
use fakepostmaster.Message.Row.{
  ColumnDescription, new_row_description, new_data_row, row_description_body, data_row_body,
}
use fakepostmaster.Message.Frame.{frame, FitsFrame, get_frontend_message-frame}
use fakepostmaster.Message.Frontend.{Query, try_query}
use fakepostmaster.Message.Reliable.Backend.{
  command_complete_encode, command_complete_body-IsReliable, ready_for_query_body-IsReliable,
}
use fakepostmaster.Message.Reliable.Frontend.{IsQuery, query_encode, query_body-IsReliable}
use fakepostmaster.Message.Reliable.Rows.{
  IsRowDescription, row_description_encode, row_description_body-IsReliable, IsDataRow,
  data_row_encode, data_row_body-IsReliable,
}
use fakepostmaster.Handler.Connection.{TcpHandler, writing}
use fakepostmaster.Handler.Io.{get_raw_frontend_message, put_message, put_message_and_flush}
use fakepostmaster.Handler.Io.Laws.{then_put, put_message_and_flush-open}
use fakepostmaster.Handler.Server.{Executed, Executor, put_row, simple_query_handler}
use fakepostmaster.Handler.Server.Transcript.{connection, ready}

abbrev pub tag_of : List ℕ → CommandComplete
tag_of tag = record { command_tag = tag }

append_four : (s a b c d : List ℕ) → s ++ a ++ b ++ c ++ d ≡ s ++ (a ++ b ++ c ++ d)
append_four s a b c d =
    rw (← append_assoc s (a ++ b ++ c) d, ← append_assoc s (a ++ b) c, ← append_assoc s a b)

module _ (B : BytesCrate) where
  -- The frame of the row, if it has a column.
  abbrev pub row_frame : List (List ℕ) → List ℕ
  row_frame row =
      if ltb 0 (length row) then frame b'D' (data_row_encode B (new_data_row row)) else []

  -- The answer to a query: the columns, the row if there is one, the tag, and that the server is
  -- ready.
  abbrev pub answer : Executed → List ℕ
  answer (desc, row, tag) =
      frame b'T' (row_description_encode B (new_row_description desc))
      ++ row_frame row
      ++ frame b'C' (command_complete_encode B (tag_of tag))
      ++ ready

  -- An answer whose parts are valid and fit their frames.
  abbrev pub IsAnswer : Executed → Type 0
  IsAnswer (desc, row, tag) =
      IsRowDescription B (new_row_description desc)
      × FitsFrame (row_description_encode B (new_row_description desc))
      × IsDataRow B (new_data_row row)
      × FitsFrame (data_row_encode B (new_data_row row))
      × IsText tag
      × FitsFrame (command_complete_encode B (tag_of tag))

  put_row-writes :
      (row : List (List ℕ)) (h : TcpHandler) (next : Exec TcpHandler (Unit {0}))
      (r : Outcome (Unit {0}) × TcpHandler)
      → IsDataRow B (new_data_row row)
      → FitsFrame (data_row_encode B (new_data_row row))
      → h.tcp_writer.answers ≡ []
      → ((w : BufWriter)
          → written w ≡ written h.tcp_writer ++ row_frame row
          → w.answers ≡ []
          → next (record h { tcp_writer = w }) ≡ r)
      → (put_row B row >> next) h ≡ r
  unfolding put_row
  put_row-writes row h next r v fits o k = elim (Bool-cases (ltb 0 (length row))) [
    | inl some' ↦ rw some' (
        then_put B (data_row_body B) (data_row_body-IsReliable B) (new_data_row row) h next r v fits
          o (λ w s. k w (rw some' s)))
    | inr none' ↦ rw none' (k h.tcp_writer (rw (none', append-nil)) o)
  ]

  -- What the handler does with what the executor returns.
  abbrev pub send_answer : Executed → Exec TcpHandler (Unit {0})
  send_answer (column_desc, column_data, command_tag) = do
    writing (put_message B (row_description_body B) (new_row_description column_desc))
    put_row B column_data
    complete ← lift (new_command_complete command_tag)
    writing (put_message B (command_complete_body B) complete)
    writing (put_message_and_flush B (ready_for_query_body B) (new_ready_for_query idle))

  pub send_answer-writes :
      (desc : List ColumnDescription) (row : List (List ℕ)) (tag rest s : List ℕ)
      → IsAnswer (desc, row, tag)
      → send_answer (desc, row, tag) (connection rest s)
        ≡ (ok tt, connection rest (s ++ answer (desc, row, tag)))
  unfolding new_command_complete new_ready_for_query
  send_answer-writes desc row tag rest s (vt, ft, vd, fd, vc, fc) =
      then_put B (row_description_body B) (row_description_body-IsReliable B)
        (new_row_description desc) (connection rest s) _ _ vt ft refl
        λ w₁ s₁ o₁.
          put_row-writes row (record { tcp_reader = rest; tcp_writer = w₁ }) _ _ vd fd o₁
            λ w₂ s₂ o₂. rw (cstring_new-IsText tag vc) (
              then_put B (command_complete_body B) (command_complete_body-IsReliable B) (tag_of tag)
                (record { tcp_reader = rest; tcp_writer = w₂ }) _ _ (vc, tt) fc o₂
                λ w₃ s₃ o₃.
                  rw
                    (
                      put_message_and_flush-open B (ready_for_query_body B)
                          (ready_for_query_body-IsReliable B) (new_ready_for_query idle) w₃
                          (omega arith) (omega arith) o₃,
                      s₃,
                      s₂,
                      s₁,
                      append-nil s,
                    )
                    (ap (λ t. (ok tt, connection rest t)) (append_four s _ _ _ ready)))

  -- A query without a zero byte that is UTF-8 is given to the executor. If what that returns is valid
  -- and fits the frames, the client gets all of it: the columns, the row where it has a column, the
  -- tag and that the server is ready, in this order; nothing is held back in the writer. A query that
  -- is not UTF-8 is an error, and nothing is sent. What follows the query is left to the next handler.
  pub simple_query_handler_lem :
      (executor : Executor) (q : Query) (result : Executed) (rest s : List ℕ)
      → IsQuery B q
      → FitsFrame (query_encode B q)
      → executor q.query ≡ ok result
      → IsAnswer result
      → simple_query_handler B executor (connection (frame b'Q' (query_encode B q) ++ rest) s) ≡ (
          if is_utf8 q.query
          then (ok tt, connection rest (s ++ answer result))
          else (err into_string_error, connection rest s))
  unfolding simple_query_handler get_raw_frontend_message try_query into_string
  simple_query_handler_lem executor q (desc, row, tag) rest s v fits e valid =
      rw
        (
          get_frontend_message-frame B b'Q' (query_encode B q) rest (omega arith) fits,
          (query_body-IsReliable B).reads_whole q v,
        )
        (elim (Bool-cases (is_utf8 q.query)) [
          | inl yes' ↦ rw (yes', e) (send_answer-writes desc row tag rest s valid)
          | inr no' ↦ rw no' refl
        ])
