-- ===== src/Examples/Server/Answers.antt =====
-- A connection of examples/server.rs with a client that logs in and sends queries.
use fakepostmaster.Prelude.{
  ℕ, zero, suc, ◌<◌, ◌≤◌, ◌≡◌, refl, Bool, true, List, [], ◌∷◌, ◌++◌, append_assoc, append-nil,
  length, length-append, concat_map, All, arith, ap,
}
use fakepostmaster.Outcome.{err, unexpected_eof}
use fakepostmaster.Buffer.{BytesCrate}
use fakepostmaster.Types.Utf8.{is_utf8}
use fakepostmaster.Stream.Reader.{read_exact_short}
use fakepostmaster.Message.Get.{get_frontend_message}
use fakepostmaster.Message.Backend.{ParameterStatus}
use fakepostmaster.Message.Frame.{frame, request_frame, FitsFrame}
use fakepostmaster.Message.Frontend.{PasswordMessage, Query}
use fakepostmaster.Message.Reliable.Frontend.{
  IsPasswordMessage, password_encode, IsQuery, query_encode,
}
use fakepostmaster.Message.Reliable.Lists.{IsStartup, startup_encode}
use fakepostmaster.Handler.Io.{get_raw_frontend_message}
use fakepostmaster.Handler.Server.{Executor, simple_query_handler}
use fakepostmaster.Handler.Server.Answering.{answer, simple_query_handler_lem}
use fakepostmaster.Handler.Server.Serving.{IsServing}
use fakepostmaster.Handler.Server.Session.{startup_v3, md5_authentication_handler_lem}
use fakepostmaster.Handler.Server.Transcript.{connection, challenge, welcome, server_version, ready}
use fakepostmaster.Examples.Server.{answer_queries, session}

abbrev pub query_of : List ℕ → Query
query_of text = record { query = text }

module _ (B : BytesCrate) where
  -- What the client sends for its queries.
  abbrev pub ask : List (List ℕ) → List ℕ
  ask queries = concat_map (λ q. frame b'Q' (query_encode B (query_of q))) queries

  -- A query without a zero byte that is UTF-8 and fits its frame.
  abbrev pub IsAsked : List ℕ → Type 0
  IsAsked text =
      IsQuery B (query_of text) × FitsFrame (query_encode B (query_of text)) × (is_utf8 text ≡ true)

  length-ask : (queries : List (List ℕ)) → length queries ≤ length (ask queries)
  length-ask [] = omega arith
  length-ask (q ∷ queries) = omega (
    arith,
    length-ask queries,
    length-append (frame b'Q' (query_encode B (query_of q))) (ask queries),
  )

module _ (B : BytesCrate) (execute : Executor) where
  -- What the client gets.
  abbrev pub answered : IsServing B execute → List (List ℕ) → List ℕ
  answered serve queries = concat_map (λ q. answer B (serve q).0) queries

  -- The loop is left when the client closes.
  pub eof :
      (s : List ℕ)
      → simple_query_handler B execute (connection [] s) ≡ (err unexpected_eof, connection [] s)
  unfolding simple_query_handler get_raw_frontend_message get_frontend_message
  eof s = rw (read_exact_short 5 [] (omega arith)) refl

  answer_queries-ask :
      (serve : IsServing B execute) (queries : List (List ℕ)) (f : ℕ) (s : List ℕ)
      → All (IsAsked B) queries
      → length queries < f
      → answer_queries B execute f (connection (ask B queries) s)
        ≡ (err unexpected_eof, connection [] (s ++ answered serve queries))
  unfolding answer_queries
  answer_queries-ask serve queries zero s v l = absurd (omega arith)
  answer_queries-ask serve [] (suc f) s v l = rw (eof s, append-nil) refl
  answer_queries-ask serve (q ∷ queries) (suc f) s ((vq, fits, utf8), more) l =
      let (result, e, valid) = serve q in
      rw
        (
          simple_query_handler_lem B execute (query_of q) result (ask B queries) s vq fits e valid,
          utf8,
          answer_queries-ask serve queries f (s ++ answer B result) more (omega arith),
        )
        (ap (λ t. (err unexpected_eof, connection [] t))
          (append_assoc s (answer B result) (answered serve queries)))

  -- A client that logs in and sends any number of UTF-8 queries without a zero byte that fit their
  -- frames is accepted and gets the whole answer to each query, in their order, and the connection
  -- ends with the end of the client's input, if the authentication function accepts and what the
  -- executor returns can be sent.
  pub session-answers :
      (auth : Unit {0} → Bool) (serve : IsServing B execute) (parameters : List ParameterStatus)
      (p : PasswordMessage) (queries : List (List ℕ)) (s : List ℕ)
      → auth tt ≡ true
      → IsStartup B (startup_v3 parameters)
      → FitsFrame (startup_encode B (startup_v3 parameters))
      → IsPasswordMessage B p
      → FitsFrame (password_encode B p)
      → All (IsAsked B) queries
      → session B auth execute (
          connection
            (request_frame (startup_encode B (startup_v3 parameters))
              ++ (frame b'p' (password_encode B p) ++ ask B queries))
            s)
        ≡ (
          err unexpected_eof,
          connection []
              (s ++ challenge ++ welcome ++ server_version ++ ready ++ answered serve queries),
        )
  unfolding session
  session-answers auth serve parameters p queries s a vs fs vp fp v =
      rw (md5_authentication_handler_lem B auth parameters p (ask B queries) s vs fs vp fp, a)
        (answer_queries-ask serve queries (suc (length (ask B queries))) _ v
          (omega (arith, length-ask B queries)))
