-- ===== src/Lib.antt =====
-- fakepostmaster: both ends of the PostgreSQL wire protocol, version 3.0, as far as a login with an MD5
-- password and a simple query.
--
-- The program has five layers, and so has this library.
--   * libpq-serde-types/src: three traits (write, read, size), and the types that messages are built
--     from. Wire is the traits, Types the types; Types/Scalar has i8, i16, i32, Byte and Byte4,
--     Types/Text has CString, Types/Vectors has the types Vec16, Vec32 and VecNull with `new` and `into`,
--     Types/Counted how the first two are written and read, and Types/Terminated how VecNull is.
--   * libpq-serde-macros/src/lib.rs: derive macros that write the traits' code for a struct. Derive is
--     that code, over a list of fields: serde_libpq_data, and try_from_raw_message for both TryFrom
--     macros; message_body of Message/Header is the MessageBody macro. Derive/Macros is which input the
--     macros take, from what syn and deluxe have parsed.
--   * src/message.rs: kinds of messages (Kind), headers (Message/Header), requests and messages in raw
--     form (Message/Raw, with `get` in Message/Get as get_request, get_backend_message and
--     get_frontend_message), and the messages themselves (Message/Authentication, Backend, Row,
--     Errors, Startup, Frontend). A message X has its fields, X_body, new_X for `new`, and try_X for
--     `try_from`.
--   * src/handler: mod.rs puts messages on a stream and takes them off (Handler/Io); server.rs and
--     client.rs have the two handlers of each end (Handler/Server, Handler/Client), under the names
--     of the source. TcpHandler is in Handler/Connection, with TcpHandler::new as new_handler.
--   * examples: server.rs and client.rs, two programs around the handlers. Examples/Executor has the
--     two functions that the server gives to its handlers, Examples/Server its main (session is what
--     it does with a connection, serve with a stream), and Examples/Client the client's.
-- Examples/Server/Protocol is the server's side of the protocol as a state machine, apart from the code:
-- Step is what may happen in a phase, Run a sequence of steps, and transcript what they send.
-- Handler/Network joins two ends: Step lets any number of the bytes that an end has sent arrive at the
-- other, so that Steps are the orders and the pieces in which they can arrive. Examples/Network and
-- Handler/Network/Query are the two programs and the two query handlers joined.
-- The repository's tests are in UnitTests, as runs over any `bytes` crate; Runs/Tests runs them.
-- A handler changes a TcpHandler and may fail: Exec is a function from a state to an outcome and a
-- state, so that what was sent before an error stays sent. Outcome has values, errors and panics.
--
-- How the code is modelled:
--   * A byte is a number, a buffer of the `bytes` crate is the list of its bytes, and text is the list
--     of its UTF-8 bytes. What the program calls of that crate is the record BytesCrate (Buffer), with
--     its documented behaviour as laws; the `md5` crate is the record Md5Crate (Md5). Both are
--     parameters; Runs/Crates has instances.
--   * Integers wrap around as in a release build (Int); a debug build panics where they would.
--   * Stream/Reader and Stream/Writer are std's BufReader and BufWriter over a socket. The reader is
--     the bytes that will arrive until the peer closes; the writer has a buffer of 8 KiB, and the
--     socket's answers to its `write` calls are a list, after which it takes what it is given. A handler
--     that is dropped flushes its writer.
--   * What `TcpListener::incoming` yields is a list, and what `TcpStream::connect` and
--     `TcpListener::bind` return are arguments.
--   * The relations that handlers keep between their states, however they end, are in Exec/Keeps.
--   * That more input does not change what an action does is the predicate Causal of Exec/Causal.
--   * The argument of a tracing macro is evaluated only where its events are enabled. One of them can
--     fail: in the client's loop over the parameters, src/handler/client.rs tests each of them in the
--     argument of `debug!`. It is debug_parameter_status, and the argument `debug` of the loop and of the
--     client's authentication is whether DEBUG events are enabled, as the example programs have them.
--   * The server's authentication function is taken to return; its executor may return an error or panic.
--   * A vector larger than isize::MAX panics, a smaller one is taken to fit the memory.
--   * Fuel: CString reads with the length of the buffer, VecNull with one more than it, and the
--     client's loop over parameters and the example server's loop over queries with one more than the
--     bytes that are left on the wire. Each round takes a byte or more, so that none of them runs
--     out, and the theorems show it where they say what is returned.
-- The formats of the messages are described apart from the code, in Wire/Lawful, Derive/Laws and
-- Types/Formats (what is valid and how it is encoded) and Message/Reliable (for each message);
-- Message/Frame has the frames of messages and requests. That what is read is valid, and is read off
-- its own bytes only, is the predicate IsCanonical of Wire/Lawful; the modules named Canonical are
-- about it, Message/Lenient about messages that are read and should not be, and Message/Frame/Taken
-- about frames. A vector with a count can have several encodings, which CountedBy of
-- Types/Counted/Reading describes. The modules named Accepting, Querying, Taking, Answered and Asked
-- are about what the peer of a handler, or of the server, must have sent.
--
-- Not modelled: the parsing of the macros' input with syn and deluxe and the printing of code with quote,
-- the tracing of messages, which changes nothing but at the place named above, and AsRef and AsMut of
-- the vectors, which nothing calls.
pub mod Prelude
pub mod Int
pub mod Outcome
pub mod Buffer
pub mod Md5
pub mod Wire
pub mod Types
pub mod Derive
pub mod Exec
pub mod Kind
pub mod Stream
pub mod Message
pub mod Handler
pub mod Examples
pub mod UnitTests
pub mod Runs
