-- ===== src/Examples/Server/Asked.antt =====
-- What a client has sent for what a connection of examples/server.rs has sent.
use fakepostmaster.Prelude.{
  ℕ, zero, suc, ◌<◌, ◌≡◌, refl, ap, sym, ◌∙◌, Bool, true, false, List, [], ◌∷◌, ◌++◌, append_assoc,
  append-nil, length, All, arith,
}
use mathlib.Core.Path.{subst}
use fakepostmaster.Int.{IsByte}
use fakepostmaster.Outcome.{Outcome}
use fakepostmaster.Exec.{continue}
use fakepostmaster.Exec.Laws.{failure_cases}
use fakepostmaster.Buffer.{BytesCrate}
use fakepostmaster.Stream.Writer.Laws.{settled}
use fakepostmaster.Types.Utf8.{is_utf8}
use fakepostmaster.Wire.Lawful.{All-back}
use fakepostmaster.Message.Backend.{ParameterStatus}
use fakepostmaster.Message.Frame.{frame}
use fakepostmaster.Message.Frame.Taken.{returned-eq}
use fakepostmaster.Message.Frontend.{Query}
use fakepostmaster.Message.Reliable.Frontend.{IsQuery, query_encode}
use fakepostmaster.Handler.Connection.{TcpHandler}
use fakepostmaster.Handler.Server.{Executor, simple_query_handler, md5_authentication_handler}
use fakepostmaster.Handler.Server.Accepting.{
  LoggedIn, LoggedIn-left, md5_authentication_handler-LoggedIn,
}
use fakepostmaster.Handler.Server.Answering.{answer, send_answer, send_answer-writes}
use fakepostmaster.Handler.Server.Querying.{Queried, simple_query_handler-Queried}
use fakepostmaster.Handler.Server.Safety.{
  Ending, no_startup, no_password, welcomed, turned_away, md5_authentication_handler-Ending,
}
use fakepostmaster.Handler.Server.Serving.{
  IsServing, Served, not_served, served, simple_query_handler-Served,
}
use fakepostmaster.Handler.Server.Transcript.{
  connection, challenge, welcome, server_version, ready, refusal,
}
use fakepostmaster.Examples.Server.{answer_queries, session}
use fakepostmaster.Examples.Server.Answers.{answered}

module _ (B : BytesCrate) where
  -- An input begins with these queries, each valid and UTF-8 and in a frame that may hold more, and
  -- then comes what is left.
  pub data Requests : List ℕ → List (List ℕ) → List ℕ → Type 0 where
    no_more : (input : List ℕ) → Requests input [] input
    asks :
        (q : Query) (after input left : List ℕ) (queries : List (List ℕ)) (left' : List ℕ)
        → IsQuery B q
        → is_utf8 q.query ≡ true
        → input ≡ frame b'Q' (query_encode B q ++ after) ++ left
        → Requests left queries left'
        → Requests input (q.query ∷ queries) left'

  module _ (execute : Executor) (serve : IsServing B execute) where
    -- What has been sent from `s` on is the answers to the queries that the input begins with.
    abbrev AllAnswered : List ℕ → List ℕ → Outcome (Unit {0}) × TcpHandler → Type 0
    AllAnswered input s r =
        (queries : List (List ℕ)) × (left : List ℕ) × Requests input queries left
        × (r.1.tcp_writer ≡ settled (s ++ answered B execute serve queries))

    stops :
        (input s left : List ℕ) (r : Outcome (Unit {0}))
        → AllAnswered input s (r, connection left s)
    stops input s left r = ([], input, no_more input, ap settled (sym (append-nil s)))

    -- A query that has been answered.
    goes_on :
        (input s : List ℕ) (h : TcpHandler) (r : Outcome (Unit {0}) × TcpHandler)
        → Queried B execute (connection input s) h
        → ((s' : List ℕ) → h ≡ connection h.tcp_reader s' → AllAnswered h.tcp_reader s' r)
        → AllAnswered input s r
    goes_on input s h r q next =
        let (result', e, v) = serve q.query.query in
        let same : q.result ≡ result' = cc (q.executed, e) in
        let (desc, row, tag) = result' in
        let written : h ≡ connection h.tcp_reader (s ++ answer B result') =
          sym
            (returned-eq tt tt _ h (
              sym (send_answer-writes B desc row tag h.tcp_reader s v)
              ∙ ap (λ t. send_answer B t (connection h.tcp_reader s)) (sym same)
              ∙ q.answered)).1 in
        let (queries, left, requests, sent) = next (s ++ answer B result') written in
        (
          q.query.query ∷ queries,
          left,
          asks q.query q.after_query input h.tcp_reader queries left q.query_IsQuery q.utf8
              q.input_is requests,
          sent ∙ ap settled (append_assoc s (answer B result') (answered B execute serve queries)),
        )

    next_query :
        (f : ℕ) (input s : List ℕ) (r : Outcome (Unit {0}) × TcpHandler)
        → ((input' s' : List ℕ)
            → length input' < length input
            → All IsByte input'
            → AllAnswered input' s' (answer_queries B execute f (connection input' s')))
        → All IsByte input
        → simple_query_handler B execute (connection input s) ≡ r
        → Served B execute input s r
        → AllAnswered input s (continue r.0 (λ _. answer_queries B execute f) r.1)
    next_query f input s r next b e (not_served r' input' fails) =
        failure_cases (AllAnswered input s) r' _ (connection input' s) fails
          (λ r'' f'. stops input s input' r'')
    next_query f input s r next b e (served query result input' executed taken) =
        let q =
          simple_query_handler-Queried B execute (connection input s)
            (connection input' (s ++ answer B result)) b e in
        goes_on input s (connection input' (s ++ answer B result))
          (answer_queries B execute f (connection input' (s ++ answer B result))) q
          (λ s' w.
            subst (λ t. AllAnswered input' s' (answer_queries B execute f t)) (sym w)
              (next input' s' (omega arith) (
                All-back IsByte (frame b'Q' (query_encode B q.query ++ q.after_query)) input'
                  (subst (All IsByte) q.input_is b))))

    answer_queries-AllAnswered :
        (f : ℕ) (input s : List ℕ)
        → length input < f
        → All IsByte input
        → AllAnswered input s (answer_queries B execute f (connection input s))
    unfolding answer_queries
    answer_queries-AllAnswered zero input s l b = absurd (omega arith)
    answer_queries-AllAnswered (suc f) input s l b =
        next_query f input s (simple_query_handler B execute (connection input s))
          (λ input' s' l' b'. answer_queries-AllAnswered f input' s' (omega arith) b') b refl
          (simple_query_handler-Served B execute serve input s)

    -- What a connection has sent, after `s`, where `input` is what the client sends.
    pub data Asked (accepted : Bool) (input s : List ℕ) : List ℕ → Type 0 where
      nothing : Asked accepted input s s
      asked : Asked accepted input s (s ++ challenge)
      refused : accepted ≡ false → Asked accepted input s (s ++ challenge ++ refusal)
      answers :
          (parameters : List ParameterStatus) (after_login : List ℕ) (queries : List (List ℕ))
          (left : List ℕ)
          → accepted ≡ true
          → LoggedIn B input parameters after_login
          → Requests after_login queries left
          → Asked accepted input s (
              s
              ++ challenge
              ++ welcome
              ++ server_version
              ++ ready
              ++ answered B execute serve queries)

    module _ (auth : Unit {0} → Bool) where
      abbrev pub HasAsked : List ℕ → List ℕ → Outcome (Unit {0}) × TcpHandler → Type 0
      HasAsked input s r =
          (sent : List ℕ) × (r.1.tcp_writer ≡ settled sent) × Asked (auth tt) input s sent

      after_authentication :
          (input s : List ℕ) (r : Outcome (List ParameterStatus) × TcpHandler)
          → All IsByte input
          → md5_authentication_handler B auth (connection input s) ≡ r
          → Ending (auth tt) s r
          → HasAsked input s
              (continue r.0 (λ _ h. answer_queries B execute (suc (length h.tcp_reader)) h) r.1)
      after_authentication input s r b e (no_startup r' input' fails) =
          failure_cases (HasAsked input s) r' _ (connection input' s) fails
            (λ r'' f. (s, refl, nothing))
      after_authentication input s r b e (no_password r' input' fails) =
          failure_cases (HasAsked input s) r' _ (connection input' (s ++ challenge)) fails
            (λ r'' f. (s ++ challenge, refl, asked))
      after_authentication input s r b e (turned_away input' no') =
          (s ++ challenge ++ refusal, refl, refused no')
      after_authentication input s r b e (welcomed parameters input' yes') =
          let (_, login) =
            md5_authentication_handler-LoggedIn B auth input s parameters
              (connection input' (s ++ challenge ++ welcome ++ server_version ++ ready)) b e in
          let b' : All IsByte input' = LoggedIn-left B input parameters input' login b in
          let (queries, left, requests, sent) =
            answer_queries-AllAnswered (suc (length input')) input'
              (s ++ challenge ++ welcome ++ server_version ++ ready) (omega arith) b' in
          (_, sent, answers parameters input' queries left yes' login requests)

      -- Whatever the client sends, over a socket that takes what it is given, and if what the executor
      -- returns can be sent, a connection has sent one of these: nothing; the challenge; the challenge
      -- and the error, and the authentication function does not accept; or the challenge, the
      -- acceptance and some answers, the function accepts, and the client has sent a valid startup
      -- message, a valid password message and then one query for each of the answers, in their order.
      pub session-Asked :
          (input s : List ℕ)
          → All IsByte input
          → HasAsked input s (session B auth execute (connection input s))
      unfolding session
      session-Asked input s b =
          after_authentication input s (md5_authentication_handler B auth (connection input s)) b
            refl (md5_authentication_handler-Ending B auth input s)
