-- ===== src/Handler/Server/Querying.antt =====
-- What a client has sent for a query that the server's handler answers.
use fakepostmaster.Prelude.{ℕ, ◌≡◌, refl, ap, sym, ◌∙◌, true, List, [], ◌∷◌, ◌++◌, All, arith}
use mathlib.Core.Path.{subst}
use fakepostmaster.Int.{IsByte}
use fakepostmaster.Outcome.{ok, expected_query}
use fakepostmaster.Outcome.Laws.{Returns-ok}
use fakepostmaster.Exec.{Exec, map_err}
use fakepostmaster.Exec.Keeps.{IsPreorder, Keeps, keeps_rules}
use fakepostmaster.Exec.Laws.{continue-eq-ok, map_err_value}
use fakepostmaster.Buffer.{BytesCrate}
use fakepostmaster.Stream.Writer.{BufWriter}
use fakepostmaster.Types.Utf8.{is_utf8, into_string}
use fakepostmaster.Derive.{try_from_raw_message}
use fakepostmaster.Message.Get.{value_of}
use fakepostmaster.Message.Raw.{RawFrontendMessage}
use fakepostmaster.Message.Frame.{frame}
use fakepostmaster.Message.Frame.Taken.{get_frontend_message_taken}
use fakepostmaster.Message.Frontend.{Query, try_query}
use fakepostmaster.Message.Canonical.{try_query-ReadsOnly}
use fakepostmaster.Message.Reliable.Frontend.{IsQuery, query_encode}
use fakepostmaster.Handler.Connection.{TcpHandler, writing}
use fakepostmaster.Handler.Io.{get_raw_frontend_message}
use fakepostmaster.Handler.Server.{Executed, Executor, put_row, simple_query_handler}
use fakepostmaster.Handler.Server.Accepting.{value_of-eq-ok, body_bytes}
use fakepostmaster.Handler.Server.Answering.{IsAnswer, answer, send_answer, send_answer-writes}
use fakepostmaster.Handler.Server.Transcript.{connection}

-- Steps that read nothing.
abbrev Unread : TcpHandler → TcpHandler → Type 0
Unread h h' = h'.tcp_reader ≡ h.tcp_reader

instance abbrev Unread-IsPreorder : IsPreorder Unread
Unread-IsPreorder = record { unchanged = λ h. refl; changed_twice = λ g h i p q. q ∙ p }

writing-Unread : {A : Type 0} (w : Exec BufWriter A) → Keeps Unread (writing w)
writing-Unread w = record { at = λ h. refl }

into_string-eq-ok : (s t : List ℕ) → into_string s ≡ ok t → (is_utf8 s ≡ true) × (s ≡ t)
unfolding into_string
into_string-eq-ok s t e = ground arith

module _ (B : BytesCrate) where
  put_row-Unread : (row : List (List ℕ)) → Keeps Unread (put_row B row)
  unfolding put_row
  put_row-Unread row = search (keeps_rules, writing-Unread)

  send_answer-Unread : (result : Executed) → Keeps Unread (send_answer B result)
  send_answer-Unread (desc, row, tag) =
      search (keeps_rules, writing-Unread, put_row-Unread) depth 20

  try_query-kind :
      (m : RawFrontendMessage) (r : Query × List ℕ)
      → try_query B m ≡ ok r
      → m.header.message_type ≡ b'Q'
  unfolding try_query try_from_raw_message
  try_query-kind m r e = ground arith

  -- A valid query that is UTF-8 comes first in the input, in a frame that may hold more, and then what
  -- is left; the executor has returned a result for it, and what is done then is to send that.
  pub record Queried (executor : Executor) (h h' : TcpHandler) : Type 0 where
    pub query : Query
    pub after_query : List ℕ
    pub result : Executed
    pub query_IsQuery : IsQuery B query
    pub utf8 : is_utf8 query.query ≡ true
    pub executed : executor query.query ≡ ok result
    pub input_is : h.tcp_reader ≡ frame b'Q' (query_encode B query ++ after_query) ++ h'.tcp_reader
    pub answered : send_answer B result (record h { tcp_reader = h'.tcp_reader }) ≡ (ok tt, h')

  -- If the server's query handler returns, over any socket, then the input began with a valid query
  -- that is UTF-8, the executor has returned a result for it, and the handler went on to send that.
  pub simple_query_handler-Queried :
      (executor : Executor) (h h' : TcpHandler)
      → All IsByte h.tcp_reader
      → simple_query_handler B executor h ≡ (ok tt, h')
      → Queried executor h h'
  unfolding simple_query_handler get_raw_frontend_message
  simple_query_handler-Queried executor h h' b e =
      let (r, left) = get_raw_frontend_message B h.tcp_reader in
      let t = record h { tcp_reader = left } in
      let (raw, e₁, e₂) = continue-eq-ok r _ t tt h' e in
      let (q, e₃, e₄) =
        continue-eq-ok (map_err expected_query (value_of (try_query B raw))) _ t tt h' e₂ in
      let (after, e₅) = value_of-eq-ok (try_query B raw) q (map_err_value _ _ _ e₃) in
      let (text, e₆, e₇) = continue-eq-ok (into_string q.query) _ t tt h' e₄ in
      let (result, e₈, e₉) = continue-eq-ok (executor text) (send_answer B) t tt h' e₇ in
      let (u, same) = into_string-eq-ok q.query text e₆ in
      let taken = get_frontend_message_taken B h.tcp_reader left raw b (λ i. (e₁ i, left)) in
      let read =
        Returns-ok
          (try_query-ReadsOnly B raw (
            body_bytes (raw.header.message_type ∷ []) raw.raw_body left
              (subst (All IsByte) taken b)))
          e₅ in
      let kept : h'.tcp_reader ≡ left =
        sym (ap (λ p. p.1.tcp_reader) e₉) ∙ (send_answer-Unread result).at t in
      record {
        query = q;
        after_query = after;
        result = result;
        query_IsQuery = read.0;
        utf8 = u;
        executed = ap executor same ∙ e₈;
        input_is =
            taken
            ∙ ap (λ k. frame k raw.raw_body ++ left) (try_query-kind raw (q, after) e₅)
            ∙ ap (λ k. frame b'Q' k ++ left) read.1
            ∙ ap (λ k. frame b'Q' (query_encode B q ++ after) ++ k) (sym kept);
        answered = ap (λ k. send_answer B result (record h { tcp_reader = k })) kept ∙ e₉;
      }

  -- A valid query that is UTF-8 comes first in the input, in a frame that may hold more; the executor has
  -- returned a result for it; and the handler is left with the rest of the input, having sent the whole
  -- answer with that result after `s`, with nothing held back.
  pub record Replied (executor : Executor) (input s : List ℕ) (h : TcpHandler) : Type 0 where
    pub query : Query
    pub after_query : List ℕ
    pub left : List ℕ
    pub result : Executed
    pub query_IsQuery : IsQuery B query
    pub utf8 : is_utf8 query.query ≡ true
    pub executed : executor query.query ≡ ok result
    pub input_is : input ≡ frame b'Q' (query_encode B query ++ after_query) ++ left
    pub state_is : h ≡ connection left (s ++ answer B result)

  -- If the server's query handler returns, over a socket that takes what it is given, and if what the
  -- executor returns can be sent, then the input began with a valid query that is UTF-8, the executor
  -- has returned a result for it, and the handler has sent the whole answer with that result, and
  -- nothing else, and has left the rest of the input.
  pub simple_query_handler-Replied :
      (executor : Executor) (input s : List ℕ) (h : TcpHandler)
      → ((query : List ℕ) (result : Executed) → executor query ≡ ok result → IsAnswer B result)
      → All IsByte input
      → simple_query_handler B executor (connection input s) ≡ (ok tt, h)
      → Replied executor input s h
  simple_query_handler-Replied executor input s h can_send b e =
      let q = simple_query_handler-Queried executor (connection input s) h b e in
      let (desc, row, tag) = q.result in
      record {
        query = q.query;
        after_query = q.after_query;
        left = h.tcp_reader;
        result = q.result;
        query_IsQuery = q.query_IsQuery;
        utf8 = q.utf8;
        executed = q.executed;
        input_is = q.input_is;
        state_is = sym (
            ap (λ r. r.1)
              (sym (
                  send_answer-writes B desc row tag h.tcp_reader s
                    (can_send q.query.query q.result q.executed))
                ∙ q.answered));
      }
