-- ===== src/Runs/Streams.antt =====
-- Handlers over a socket that takes only a part of what it is given.
use fakepostmaster.Prelude.{
  false, ℕ, zero, suc, ◌≡◌, refl, List, [], ◌∷◌, ◌++◌, take, length, length-append, ◌<◌, arith,
}
use fakepostmaster.Outcome.{ok}
use fakepostmaster.Types.Text.Laws.{IsText}
use fakepostmaster.Stream.Writer.{BufWriter, accept, refuse}
use fakepostmaster.Message.Backend.{
  ReadyForQuery, CommandComplete, ready_for_query_body, command_complete_body,
}
use fakepostmaster.Message.Raw.{RawBackendMessage}
use fakepostmaster.Message.Frame.{frame, raw_backend}
use fakepostmaster.Message.Reliable.Backend.{
  ready_for_query_encode, ready_for_query_body-IsReliable, command_complete_encode,
  command_complete_body-IsReliable,
}
use fakepostmaster.Handler.Io.{put_message, put_message_and_flush}
use fakepostmaster.Handler.Io.Laws.{
  Put, put_message-Put, put_message_cut, put_message_and_flush_taken,
}
use fakepostmaster.Exec.Ends.{Ends}
use fakepostmaster.Handler.Connection.{TcpHandler}
use fakepostmaster.Handler.Client.Behaviour.{client_handlers-Progress}
use fakepostmaster.Handler.Io.Progress.{Progress}
use fakepostmaster.Stream.Writer.Taking.{FlushedAll}
use fakepostmaster.Handler.Client
use fakepostmaster.Handler.Client.{skip_parameters}
use fakepostmaster.Runs.Crates.{bytes, md5}

abbrev a_ready : ReadyForQuery
a_ready = record { transaction_indicator = b'I' }

-- A writer that holds a byte back, over a socket that takes a byte, then nothing.
abbrev slow : BufWriter
slow = record { buf = 1 ∷ 2 ∷ []; sent = []; answers = accept 1 ∷ refuse ∷ [] }

put_message-Put_example :
    Put
      (frame b'Z' (ready_for_query_encode bytes a_ready))
      slow
      (put_message bytes (ready_for_query_body bytes) a_ready slow)
put_message-Put_example =
    put_message-Put bytes (ready_for_query_body bytes) (ready_for_query_body-IsReliable bytes)
      a_ready slow (omega arith) (omega arith)

-- A tag that fills the writer's buffer.
unfoldable many : ℕ → List ℕ
many zero = []
many (suc n) = b'A' ∷ many n

many-IsText : (n : ℕ) → IsText (many n)
unfolding many
many-IsText zero = tt
many-IsText (suc n) = (omega arith, many-IsText n)

length-many : (n : ℕ) → length (many n) ≡ n
unfolding many
length-many zero = refl
length-many (suc n) = omega (arith, length-many n)

abbrev long_tag : CommandComplete
long_tag = record { command_tag = many 8192 }

length-long_frame : length (frame b'C' (command_complete_encode bytes long_tag)) ≡ 8198
length-long_frame = omega (
  arith,
  length-many 8192,
  length-append (many 8192 ++ 0 ∷ []) [],
  length-append (many 8192) (0 ∷ []),
)

put_message_cut_example :
    (put_message bytes
        (command_complete_body bytes)
        long_tag
        (record { buf = []; sent = []; answers = accept 4096 ∷ [] })
      ≡ (
        ok tt,
        record {
          buf = [];
          sent = [] ++ take 4096 (frame b'C' (command_complete_encode bytes long_tag));
          answers = [];
        },
      ))
    × (length (take 4096 (frame b'C' (command_complete_encode bytes long_tag)))
        < length (frame b'C' (command_complete_encode bytes long_tag)))
put_message_cut_example =
    put_message_cut bytes (command_complete_body bytes) (command_complete_body-IsReliable bytes)
      long_tag [] 4096 [] (many-IsText 8192, tt) (omega (arith, length-long_frame))
      (omega (arith, length-long_frame)) (omega (arith, length-long_frame))

-- A peer that has sent two bytes, over the slow socket, and a first parameter.
abbrev slow_handler : TcpHandler
slow_handler = record { tcp_reader = b'R' ∷ 0 ∷ []; tcp_writer = slow }

abbrev a_status : RawBackendMessage
a_status = raw_backend b'S' []

client_handlers-Progress_example :
    (Ends (Client.md5_authentication_handler bytes md5 false slow_handler).0
      × Progress slow_handler (Client.md5_authentication_handler bytes md5 false slow_handler).1)
    × (Ends (Client.simple_query_handler bytes slow_handler).0
        × Progress slow_handler (Client.simple_query_handler bytes slow_handler).1)
    × (Ends (skip_parameters bytes false 5 a_status slow_handler).0
        × (skip_parameters bytes false 5 a_status slow_handler
            ≡ skip_parameters bytes false 3 a_status slow_handler))
client_handlers-Progress_example =
    client_handlers-Progress bytes md5 false slow_handler 5 a_status (omega arith)

-- A socket that takes a byte at a time.
abbrev steady : BufWriter
steady = record { buf = 1 ∷ 2 ∷ []; sent = []; answers = accept 1 ∷ accept 1 ∷ accept 3 ∷ [] }

put_message_and_flush_taken_example :
    FlushedAll
      ([] ++ 1 ∷ 2 ∷ [] ++ frame b'Z' (ready_for_query_encode bytes a_ready))
      (put_message_and_flush bytes (ready_for_query_body bytes) a_ready steady)
put_message_and_flush_taken_example =
    put_message_and_flush_taken bytes (ready_for_query_body bytes)
      (ready_for_query_body-IsReliable bytes) a_ready steady (omega arith) (omega arith) tt
