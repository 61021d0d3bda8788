-- ===== src/Stream/Writer.antt =====
-- std::io::BufWriter over a `TcpStream`.
pub mod Laws
pub mod Keeps
pub mod Taking
use fakepostmaster.Prelude.{
  ℕ, zero, suc, ◌-◌, List, [], ◌∷◌, ◌++◌, length, take, drop, leb, ltb, if◌then◌else◌,
}
use fakepostmaster.Outcome.{Outcome, ok, err, write_zero, write_error}
use fakepostmaster.Exec.{Exec, ◌>>=◌, ◌>>◌, pure}

-- What the kernel answers to a `write` call: it takes so many bytes at most, or fails.
pub data Answer : Type 0 where
  accept : ℕ → Answer
  refuse : Answer

-- `sent` is what the socket has taken, and `buf` what is held back. `answers` are the kernel's next
-- answers; after them it takes whatever it is given.
pub record BufWriter : Type 0 where
  pub buf : List ℕ
  pub sent : List ℕ
  pub answers : List Answer

-- BufWriter::new: 8 KiB.
abbrev pub capacity : ℕ
capacity = 8192

abbrev pub spare_capacity : BufWriter → ℕ
spare_capacity w = capacity - length w.buf

-- One `write` call on the socket; the result is how many bytes it took.
answer_write : List Answer → List ℕ → Exec BufWriter ℕ
answer_write [] bs w = (ok (length bs), record w { sent = w.sent ++ bs })
answer_write (accept n ∷ more) bs w =
    (ok (length (take n bs)), record w { sent = w.sent ++ take n bs; answers = more })
answer_write (refuse ∷ more) bs w = (err write_error, record w { answers = more })

unfoldable pub socket_write : List ℕ → Exec BufWriter ℕ
unfolding answer_write
socket_write bs w = answer_write w.answers bs w

-- `flush_buf`: the socket is given what is held back until it has taken all of it. An answer of no
-- bytes is an error, and what has not been taken stays in the buffer.
flush_loop : List Answer → List ℕ → List ℕ → Outcome (Unit {0}) × BufWriter
flush_loop more [] sent = (ok tt, record { buf = []; sent = sent; answers = more })
flush_loop [] (b ∷ bs) sent = (ok tt, record { buf = []; sent = sent ++ b ∷ bs; answers = [] })
flush_loop (accept zero ∷ more) (b ∷ bs) sent =
    (err write_zero, record { buf = b ∷ bs; sent = sent; answers = more })
flush_loop (accept (suc n) ∷ more) (b ∷ bs) sent =
    flush_loop more (drop n bs) (sent ++ b ∷ take n bs)
flush_loop (refuse ∷ more) (b ∷ bs) sent =
    (err write_error, record { buf = b ∷ bs; sent = sent; answers = more })

-- `flush`; that of the socket does nothing.
unfoldable pub flush : Exec BufWriter (Unit {0})
unfolding flush_loop
flush w = flush_loop w.answers w.buf w.sent

unfoldable pub write_to_buffer : List ℕ → Exec BufWriter ℕ
write_to_buffer bs w = (ok (length bs), record w { buf = w.buf ++ bs })

unfoldable pub make_room : List ℕ → Exec BufWriter (Unit {0})
unfolding flush
make_room bs w = if ltb (spare_capacity w) (length bs) then flush w else pure tt w

-- What fits is held back. What is as long as the buffer goes to the socket, after what was held
-- back, in one call, and the socket need not take all of it.
unfoldable pub write : List ℕ → Exec BufWriter ℕ
unfolding make_room socket_write write_to_buffer
write bs w =
    if ltb (length bs) (spare_capacity w)
    then write_to_buffer bs w
    else (make_room bs >>= λ _.
          if leb capacity (length bs) then socket_write bs else write_to_buffer bs)
        w
