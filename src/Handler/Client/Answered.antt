-- ===== src/Handler/Client/Answered.antt =====
-- What a server has sent that the client's `simple_query_handler` takes for an answer.
use fakepostmaster.Prelude.{ℕ, ◌≡◌, ap, ◌∙◌, List, ◌++◌, All}
use fakepostmaster.Int.{IsByte}
use fakepostmaster.Outcome.{
  ok, expected_row_description, expected_data_row, expected_command_complete,
  expected_ready_for_query,
}
use fakepostmaster.Exec.Laws.{continue-eq-ok}
use fakepostmaster.Buffer.{BytesCrate}
use fakepostmaster.Types.Text.{cstring_new}
use fakepostmaster.Message.Row.{RowDescription, DataRow}
use fakepostmaster.Message.Backend.{CommandComplete, ReadyForQuery}
use fakepostmaster.Message.Frontend.{query_body, new_query}
use fakepostmaster.Message.Frame.{frame}
use fakepostmaster.Message.Canonical.Rows.{DescriptionReads, RowReads}
use fakepostmaster.Message.Canonical.Sound.{
  try_row_description-Sound, try_data_row-Sound, try_command_complete-Sound,
  try_ready_for_query-Sound,
}
use fakepostmaster.Message.Reliable.Backend.{
  IsCommandComplete, command_complete_encode, IsReadyForQuery, ready_for_query_encode,
}
use fakepostmaster.Handler.Connection.{TcpHandler}
use fakepostmaster.Handler.Io.{put_message_and_flush}
use fakepostmaster.Handler.Client.{simple_query_handler}
use fakepostmaster.Handler.Client.Asking.{client_query}
use fakepostmaster.Handler.Client.Taking.{received, received_any}

module _ (B : BytesCrate) where
  -- A description of columns, a row, a valid command tag and a valid ready message come first in the
  -- input, each in a frame that may hold more, and then what is left. What the description and the row
  -- were read from has a count of columns that may be below zero, and then there is none.
  pub record Answered (input left : List ℕ) : Type 0 where
    pub description : RowDescription
    pub row : DataRow
    pub complete : CommandComplete
    pub ready : ReadyForQuery
    pub description_chunk : List ℕ
    pub row_chunk : List ℕ
    pub after_description : List ℕ
    pub after_row : List ℕ
    pub after_complete : List ℕ
    pub after_ready : List ℕ
    pub description_read : DescriptionReads B description_chunk description
    pub row_read : RowReads B row_chunk row
    pub complete_IsComplete : IsCommandComplete B complete
    pub ready_IsReady : IsReadyForQuery B ready
    pub input_is :
        input
        ≡ frame b'T' (description_chunk ++ after_description)
          ++ (frame b'D' (row_chunk ++ after_row)
              ++ (frame b'C' (command_complete_encode B complete ++ after_complete)
                  ++ (frame b'Z' (ready_for_query_encode B ready ++ after_ready) ++ left)))

  -- If the client's query handler returns without an error, over any socket, then the input began with
  -- a description of columns, a row, a valid command tag and a valid ready message, in this order and
  -- each in a frame of its own, whatever else it is made of.
  pub simple_query_handler-Answered :
      (h h' : TcpHandler)
      → All IsByte h.tcp_reader
      → simple_query_handler B h ≡ (ok tt, h')
      → Answered h.tcp_reader h'.tcp_reader
  unfolding simple_query_handler new_query cstring_new
  simple_query_handler-Answered h h' b e =
      let (r, w) = put_message_and_flush B (query_body B) client_query h.tcp_writer in
      let h₁ = record h { tcp_writer = w } in
      let (sent, d, e₁) = continue-eq-ok r _ h₁ tt h' e in
      let (description, after₁, chunk₁, left₁, v₁, s₁, b₁, e₂) =
        received_any B (try_row_description-Sound B) expected_row_description _ h₁ h' tt b e₁ in
      let (row, after₂, chunk₂, left₂, v₂, s₂, b₂, e₃) =
        received_any B (try_data_row-Sound B) expected_data_row _ (record h₁ { tcp_reader = left₁ })
          h' tt b₁ e₂ in
      let (complete, after₃, left₃, v₃, s₃, b₃, e₄) =
        received B (try_command_complete-Sound B) expected_command_complete _
          (record h₁ { tcp_reader = left₂ }) h' tt b₂ e₃ in
      let (ready, after₄, left₄, v₄, s₄, b₄, e₅) =
        received B (try_ready_for_query-Sound B) expected_ready_for_query _
          (record h₁ { tcp_reader = left₃ }) h' tt b₃ e₄ in
      let t : List ℕ → List ℕ = λ t. frame b'T' (chunk₁ ++ after₁) ++ t in
      let d : List ℕ → List ℕ = λ t. frame b'D' (chunk₂ ++ after₂) ++ t in
      let c : List ℕ → List ℕ =
        λ t. frame b'C' (command_complete_encode B complete ++ after₃) ++ t in
      let z : List ℕ → List ℕ = λ t. frame b'Z' (ready_for_query_encode B ready ++ after₄) ++ t in
      record {
        description = description;
        row = row;
        complete = complete;
        ready = ready;
        description_chunk = chunk₁;
        row_chunk = chunk₂;
        after_description = after₁;
        after_row = after₂;
        after_complete = after₃;
        after_ready = after₄;
        description_read = v₁;
        row_read = v₂;
        complete_IsComplete = v₃;
        ready_IsReady = v₄;
        input_is = s₁ ∙ ap t (s₂ ∙ ap d (s₃ ∙ ap c (s₄ ∙ ap z (ap (λ r. r.1.tcp_reader) e₅))));
      }
