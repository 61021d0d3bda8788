-- ===== src/Handler/Server/Behaviour.antt =====
-- The server's handlers at any socket.
use fakepostmaster.Prelude.{ℕ, ◌+◌, ◌≤◌, List, length, length-append, arith}
use fakepostmaster.Outcome.{Outcome, ok, err, panicked, out_of_fuel}
use fakepostmaster.Exec.{Exec, continue}
use fakepostmaster.Exec.Ends.{Ends, Consumes}
use fakepostmaster.Exec.Keeps.{Keeps}
use fakepostmaster.Buffer.{BytesCrate}
use fakepostmaster.Handler.Connection.{TcpHandler}
use fakepostmaster.Handler.Io.{get_raw_frontend_message}
use fakepostmaster.Handler.Io.Ends.{get_raw_frontend_message-Consumes}
use fakepostmaster.Handler.Io.Keeps.{Advanced}
use fakepostmaster.Handler.Io.Progress.{Progress, Progress-IsPreorder, handler_rules}
use fakepostmaster.Handler.Server.{Executor, simple_query_handler}
use fakepostmaster.Handler.Server.Ends.{server_query-Ends}
use fakepostmaster.Handler.Server.Keeps.{put_row-Keeps}

length-Advanced : (input left : List ℕ) → Advanced input left → length left ≤ length input
length-Advanced input left a = rw a.in_order (omega (arith, length-append a.taken left))

-- A step that ends and reads no further than what was left.
Ends-Consumes :
    {C : Type 0} (k : ℕ) (input : List ℕ) (r : Outcome C) (left : List ℕ)
    → length left + k ≤ length input
    → Ends r
    → Consumes k input r left
Ends-Consumes k input (ok b) left l e = l
Ends-Consumes k input (err x) left l e = tt
Ends-Consumes k input (panicked p) left l e = tt
Ends-Consumes k input out_of_fuel left l e = e

-- A handler that reads a message first has taken the message's bytes when it returns.
reading_first :
    {A C : Type 0} (k : ℕ) (input : List ℕ) (r : Outcome A) (f : A → Exec TcpHandler C)
    (h : TcpHandler)
    → Consumes k input r h.tcp_reader
    → ((a : A) → Keeps Progress (f a))
    → Ends (continue r f h).0
    → Consumes k input (continue r f h).0 (continue r f h).1.tcp_reader
reading_first k input (ok a) f h c keeps e =
    Ends-Consumes k input (f a h).0 _ (omega (arith, length-Advanced _ _ (((keeps a).at h).reader)))
      e
reading_first k input (err x) f h c keeps e = tt
reading_first k input (panicked p) f h c keeps e = tt
reading_first k input out_of_fuel f h c keeps e = e

module _ (B : BytesCrate) where
  -- A query that is served has taken five bytes or more.
  pub simple_query_handler-Consumes :
      (execute : Executor) (h : TcpHandler)
      → ((query : List ℕ) → Ends (execute query))
      → Consumes 5 h.tcp_reader
          (simple_query_handler B execute h).0
          (simple_query_handler B execute h).1.tcp_reader
  unfolding simple_query_handler
  simple_query_handler-Consumes execute h returns =
      reading_first 5 h.tcp_reader (get_raw_frontend_message B h.tcp_reader).0 _ _
        (get_raw_frontend_message-Consumes B h.tcp_reader)
        (λ raw. search (handler_rules, put_row-Keeps) depth 30)
        (server_query-Ends B execute h returns)
