-- ===== src/Handler/Client/Asking.antt =====
-- `simple_query_handler` of the client, with a server that answers its query.
use fakepostmaster.Prelude.{
  ℕ, ◌≡◌, refl, ap, sym, ◌∙◌, List, [], ◌++◌, codes, append_assoc, append-nil, length, ltb,
  if◌then◌else◌, Bool-cases, inl, inr, arith,
}
use fakepostmaster.Outcome.{ok, err, expected_data_row}
use fakepostmaster.Buffer.{BytesCrate}
use fakepostmaster.Types.Text.{cstring_new}
use fakepostmaster.Kind.Backend.{BackendMessageKind, backend_kind_of}
use fakepostmaster.Message.Backend.{
  new_ready_for_query, idle, try_command_complete, try_ready_for_query,
}
use fakepostmaster.Message.Row.{
  ColumnDescription, new_row_description, new_data_row, try_row_description, try_data_row,
}
use fakepostmaster.Message.Frame.{frame}
use fakepostmaster.Message.Frontend.{Query, new_query, query_body}
use fakepostmaster.Message.Reliable.Backend.{
  command_complete_encode, command_complete_body-IsReliable, ready_for_query_encode,
  ready_for_query_body-IsReliable,
}
use fakepostmaster.Message.Reliable.Frontend.{query_encode, query_body-IsReliable}
use fakepostmaster.Message.Reliable.Rows.{
  row_description_encode, row_description_body-IsReliable, data_row_encode,
  data_row_body-IsReliable,
}
use fakepostmaster.Handler.Io.Laws.{then_flush}
use fakepostmaster.Handler.Client.{simple_query_handler}
use fakepostmaster.Handler.Client.Receiving.{get_raw_backend_message-frame}
use fakepostmaster.Handler.Server.Answering.{tag_of, row_frame, answer, IsAnswer}
use fakepostmaster.Handler.Server.Transcript.{connection, ready}

-- The client's only query.
abbrev pub client_query : Query
client_query = record { query = codes "SELECT 1 as a, 2 as a, 3 as a;" }

module _ (B : BytesCrate) where
  abbrev pub query_frame : List ℕ
  query_frame = frame b'Q' (query_encode B client_query)

  answer_split :
      (desc : List ColumnDescription) (row : List (List ℕ)) (tag rest : List ℕ)
      → answer B (desc, row, tag) ++ rest
        ≡ frame b'T' (row_description_encode B (new_row_description desc))
          ++ (row_frame B row
              ++ (frame b'C' (command_complete_encode B (tag_of tag)) ++ (ready ++ rest)))
  answer_split desc row tag rest =
      let t = frame b'T' (row_description_encode B (new_row_description desc)) in
      let c = frame b'C' (command_complete_encode B (tag_of tag)) in
      append_assoc (t ++ row_frame B row ++ c) ready rest
      ∙ append_assoc (t ++ row_frame B row) c (ready ++ rest)
      ∙ append_assoc t (row_frame B row) (c ++ (ready ++ rest))

  -- Against a valid answer of the server, the client sends its query, takes the whole answer off the
  -- wire and returns without an error if the answer has a row with a column. If there is none, it
  -- fails, and what it leaves on the wire is the server's last message.
  pub simple_query_handler_answered :
      (desc : List ColumnDescription) (row : List (List ℕ)) (tag rest s : List ℕ)
      → IsAnswer B (desc, row, tag)
      → simple_query_handler B (connection (answer B (desc, row, tag) ++ rest) s) ≡ (
          if ltb 0 (length row)
          then (ok tt, connection rest (s ++ query_frame))
          else (err expected_data_row, connection (ready ++ rest) (s ++ query_frame)))
  unfolding simple_query_handler new_query cstring_new try_row_description try_data_row
      try_command_complete try_ready_for_query new_ready_for_query
  simple_query_handler_answered desc row tag rest s (vt, ft, vd, fd, vc, fc) =
      rw (answer_split desc row tag rest) (
        then_flush B (query_body B) (query_body-IsReliable B) client_query (connection _ s) _ _
          (omega arith) (omega arith) refl
          (rw
            (
              get_raw_backend_message-frame B b'T' BackendMessageKind.row_description
                  (row_description_encode B (new_row_description desc))
                  (row_frame B row
                    ++ (frame b'C' (command_complete_encode B (tag_of tag)) ++ (ready ++ rest)))
                  (omega arith) ft (unfold backend_kind_of in refl) tt,
              (row_description_body-IsReliable B).reads_whole (new_row_description desc) vt,
              append-nil s,
            )
            (elim (Bool-cases (ltb 0 (length row))) [
              | inl some' ↦ rw (
                some',
                get_raw_backend_message-frame B b'D' BackendMessageKind.data_row
                    (data_row_encode B (new_data_row row))
                    (frame b'C' (command_complete_encode B (tag_of tag)) ++ (ready ++ rest))
                    (omega arith) fd (unfold backend_kind_of in refl) tt,
                (data_row_body-IsReliable B).reads_whole (new_data_row row) vd,
                get_raw_backend_message-frame B b'C' BackendMessageKind.command_complete
                    (command_complete_encode B (tag_of tag)) (ready ++ rest) (omega arith) fc
                    (unfold backend_kind_of in refl) tt,
                (command_complete_body-IsReliable B).reads_whole (tag_of tag) (vc, tt),
                get_raw_backend_message-frame B b'Z' BackendMessageKind.ready_for_query
                    (ready_for_query_encode B (new_ready_for_query idle)) rest (omega arith)
                    (omega arith) (unfold backend_kind_of in refl) tt,
                (ready_for_query_body-IsReliable B).reads_whole (new_ready_for_query idle)
                    (omega arith),
              )
              | inr none' ↦ rw (
                none',
                get_raw_backend_message-frame B b'C' BackendMessageKind.command_complete
                    (command_complete_encode B (tag_of tag)) (ready ++ rest) (omega arith) fc
                    (unfold backend_kind_of in refl) tt,
              )
            ])))

  -- The same where nothing follows the answer.
  pub simple_query_handler_alone :
      (desc : List ColumnDescription) (row : List (List ℕ)) (tag s : List ℕ)
      → IsAnswer B (desc, row, tag)
      → simple_query_handler B (connection (answer B (desc, row, tag)) s) ≡ (
          if ltb 0 (length row)
          then (ok tt, connection [] (s ++ query_frame))
          else (err expected_data_row, connection ready (s ++ query_frame)))
  simple_query_handler_alone desc row tag s v =
      ap (λ i. simple_query_handler B (connection i s))
        (sym (append-nil (answer B (desc, row, tag))))
      ∙ simple_query_handler_answered desc row tag [] s v
