-- ===== src/Handler/Server/Serving.antt =====
-- `simple_query_handler` with any client.
use fakepostmaster.Prelude.{ℕ, ◌+◌, ◌≤◌, ◌≡◌, List, ◌++◌, length}
use fakepostmaster.Outcome.{Outcome, ok, expected_query}
use fakepostmaster.Exec.{Exec, ◌>>=◌, lift, map_err}
use fakepostmaster.Exec.Laws.{IsFailure, continue_cases, taking_cases}
use fakepostmaster.Exec.Ends.{value_of-Ends, map_err-Ends}
use fakepostmaster.Buffer.{BytesCrate}
use fakepostmaster.Types.Utf8.{into_string}
use fakepostmaster.Message.Get.{value_of}
use fakepostmaster.Message.Raw.{RawFrontendMessage}
use fakepostmaster.Message.Frontend.{Query, try_query}
use fakepostmaster.Message.Ends.{try_query-Ends}
use fakepostmaster.Handler.Connection.{TcpHandler}
use fakepostmaster.Handler.Io.{get_raw_frontend_message}
use fakepostmaster.Handler.Io.Ends.{get_raw_frontend_message-Consumes}
use fakepostmaster.Handler.Server.{Executed, Executor, simple_query_handler}
use fakepostmaster.Handler.Server.Ends.{into_string-Ends}
use fakepostmaster.Handler.Server.Answering.{IsAnswer, answer, send_answer, send_answer-writes}
use fakepostmaster.Handler.Server.Transcript.{connection}

module _ (B : BytesCrate) (execute : Executor) where
  -- An executor that returns, for every query, what can be sent.
  abbrev pub IsServing : Type 0
  IsServing =
      (query : List ℕ) → (result : Executed) × (execute query ≡ ok result) × IsAnswer B result

  -- How a call of the handler can end, where `s` is what the server had sent before: it fails with
  -- nothing more sent, or it has taken a message and sent the whole answer to a query.
  pub data Served (input s : List ℕ) : Outcome (Unit {0}) × TcpHandler → Type 0 where
    not_served :
        (r : Outcome (Unit {0})) (input' : List ℕ)
        → IsFailure r
        → Served input s (r, connection input' s)
    served :
        (query : List ℕ) (result : Executed) (input' : List ℕ)
        → execute query ≡ ok result
        → length input' + 5 ≤ length input
        → Served input s (ok tt, connection input' (s ++ answer B result))

  abbrev take_text : Query → Exec TcpHandler (Unit {0})
  take_text q = lift (into_string q.query) >>= λ query. lift (execute query) >>= send_answer B

  module _ (serving : IsServing) (input s left : List ℕ)
      (taken : length left + 5 ≤ length input) where
    execute_query-Served :
        (query : List ℕ)
        → Served input s ((lift (execute query) >>= send_answer B) (connection left s))
    execute_query-Served query =
        let ((desc, row, tag), e, valid) = serving query in
        rw (e, send_answer-writes B desc row tag left s valid)
          (served query (desc, row, tag) left e taken)

    take_text-Served : (q : Query) → Served input s (take_text q (connection left s))
    take_text-Served q =
        continue_cases (Served input s) (into_string q.query)
          (λ query. lift (execute query) >>= send_answer B) (connection left s)
          (into_string-Ends q.query) execute_query-Served (λ r f. not_served r left f)

    take_query-Served :
        (raw : RawFrontendMessage)
        → Served input s (
            (lift (map_err expected_query (value_of (try_query B raw))) >>= take_text)
              (connection left s))
    take_query-Served raw =
        continue_cases (Served input s) (map_err expected_query (value_of (try_query B raw)))
          take_text (connection left s) (map_err-Ends _ _ (value_of-Ends _ (try_query-Ends B raw)))
          take_text-Served (λ r f. not_served r left f)

  -- With an executor whose results can be sent, over a socket that takes what it is given, a call of
  -- the handler sends the whole answer to one query, having taken five bytes or more; or it fails or
  -- panics and sends nothing.
  pub simple_query_handler-Served :
      IsServing
      → (input s : List ℕ) → Served input s (simple_query_handler B execute (connection input s))
  unfolding simple_query_handler
  simple_query_handler-Served serving input s =
      let (r, left) = get_raw_frontend_message B input in
      taking_cases (Served input s) 5 input left r
        (λ raw. lift (map_err expected_query (value_of (try_query B raw))) >>= take_text)
        (connection left s) (get_raw_frontend_message-Consumes B input)
        (λ raw taken. take_query-Served serving input s left taken raw)
        (λ r' f. not_served r' left f)
