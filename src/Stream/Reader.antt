-- ===== src/Stream/Reader.antt =====
-- std::io::BufReader over a `TcpStream`: the bytes that will arrive until the peer closes.
use fakepostmaster.Prelude.{
  ℕ, ◌≤◌, ◌<◌, ◌^◌, ◌≡◌, List, [], ◌++◌, length, length-append, take, drop, take-length,
  drop-length, leb, ltb, lt→ltb, le→leb, ge→ltb, lt→leb, if◌then◌else◌, arith,
}
use fakepostmaster.Outcome.{Outcome, ok, err, panicked, unexpected_eof, capacity_overflow}
use fakepostmaster.Exec.{Exec}

abbrev pub BufReader : Type 0
BufReader = List ℕ

-- `read_exact` into a slice of `n` bytes; where fewer arrive, all of them are lost.
unfoldable pub read_exact : ℕ → Exec BufReader (List ℕ)
read_exact n input =
    if leb n (length input) then (ok (take n input), drop n input) else (err unexpected_eof, [])

-- `vec![0_u8; n]`: a vector never takes more than `isize::MAX` bytes.
unfoldable pub allocate : ℕ → Outcome (Unit {0})
allocate n = if ltb n (2 ^ 63) then ok tt else panicked capacity_overflow

pub read_exact-append : (bs rest : List ℕ) → read_exact (length bs) (bs ++ rest) ≡ (ok bs, rest)
unfolding read_exact
read_exact-append bs rest = rw (
  le→leb (length bs) (length (bs ++ rest)) (omega (arith, length-append bs rest)),
  take-length bs rest,
  drop-length bs rest,
)

pub allocate_small : (n : ℕ) → n < 2 ^ 63 → allocate n ≡ ok tt
unfolding allocate
allocate_small n h = rw (lt→ltb n (2 ^ 63) (omega arith))

pub allocate_large : (n : ℕ) → 2 ^ 63 ≤ n → allocate n ≡ panicked capacity_overflow
unfolding allocate
allocate_large n h = rw (ge→ltb n (2 ^ 63) h)

pub read_exact_short :
    (n : ℕ) (input : List ℕ) → length input < n → read_exact n input ≡ (err unexpected_eof, [])
unfolding read_exact
read_exact_short n input h = rw (lt→leb n (length input) h)
