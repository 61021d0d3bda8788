-- ===== src/Stream.antt =====
-- std::io: `BufReader` and `BufWriter` over a `TcpStream`, as far as the program uses them.
pub mod Reader
pub mod Writer
