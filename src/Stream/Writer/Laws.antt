-- ===== src/Stream/Writer/Laws.antt =====
-- What a `BufWriter` promises, whatever the socket answers.
use fakepostmaster.Prelude.{
  ℕ, zero, suc, ◌-◌, ◌≤◌, ◌<◌, ◌≡◌, refl, ap, sym, ◌∙◌, List, [], ◌∷◌, ◌++◌, append-nil,
  append_assoc, length, take, drop, leb, ltb, if◌then◌else◌, leb→le, le→leb, ge→ltb, inl, inr,
  arith, take-append-drop, Bool-cases, false,
}
use fakepostmaster.Outcome.{Outcome, ok, err, Error}
use fakepostmaster.Exec.{continue}
use fakepostmaster.Stream.Writer.{
  Answer, accept, refuse, BufWriter, capacity, spare_capacity, answer_write, socket_write,
  flush_loop, flush, write_to_buffer, write,
}

-- All that has been given to the writer and not lost.
abbrev pub written : BufWriter → List ℕ
written w = w.sent ++ w.buf

-- A flush gives everything to the socket, or fails and loses nothing.
pub data Flushed (w : BufWriter) : Outcome (Unit {0}) × BufWriter → Type 0 where
  done : (w' : BufWriter) → w'.buf ≡ [] → w'.sent ≡ written w → Flushed w (ok tt, w')
  refused : (e : Error) (w' : BufWriter) → written w' ≡ written w → Flushed w (err e, w')

-- A write takes all of the bytes or, where there are too many for the buffer, a number of them from
-- the front; or it fails and takes none.
pub data Wrote (bs : List ℕ) (w : BufWriter) : Outcome ℕ × BufWriter → Type 0 where
  took :
      (n : ℕ) (w' : BufWriter)
      → written w' ≡ written w ++ take n bs
      → (length bs < capacity → take n bs ≡ bs)
      → Wrote bs w (ok n, w')
  refused : (e : Error) (w' : BufWriter) → written w' ≡ written w → Wrote bs w (err e, w')

take-all : (bs : List ℕ) → take (length bs) bs ≡ bs
take-all [] = refl
take-all (b ∷ bs) = ap (λ t. b ∷ t) (take-all bs)

take-take : (n : ℕ) (bs : List ℕ) → take (length (take n bs)) bs ≡ take n bs
take-take zero bs = refl
take-take (suc n) [] = refl
take-take (suc n) (b ∷ bs) = ap (λ t. b ∷ t) (take-take n bs)

flush_loop-Flushed :
    (more : List Answer) (buf sent : List ℕ) (w : BufWriter)
    → sent ++ buf ≡ written w
    → Flushed w (flush_loop more buf sent)
unfolding flush_loop
flush_loop-Flushed more [] sent w e = done _ refl (rw append-nil at e)
flush_loop-Flushed [] (b ∷ bs) sent w e = done _ refl e
flush_loop-Flushed (accept zero ∷ more) (b ∷ bs) sent w e = refused _ _ e
flush_loop-Flushed (accept (suc n) ∷ more) (b ∷ bs) sent w e =
    flush_loop-Flushed more (drop n bs) (sent ++ b ∷ take n bs) w (
      append_assoc sent (b ∷ take n bs) (drop n bs)
      ∙ ap (λ t. sent ++ b ∷ t) (take-append-drop n bs)
      ∙ e)
flush_loop-Flushed (refuse ∷ more) (b ∷ bs) sent w e = refused _ _ e

pub flush-Flushed : (w : BufWriter) → Flushed w (flush w)
unfolding flush
flush-Flushed w = flush_loop-Flushed w.answers w.buf w.sent w refl

append_behind :
    (sent buf total bs : List ℕ)
    → buf ≡ []
    → sent ++ buf ≡ total
    → (sent ++ bs) ++ buf ≡ total ++ bs
append_behind sent buf total bs b e = rw (← e, b, append-nil, append-nil)

answer_write-Wrote :
    (more : List Answer) (bs : List ℕ) (w v : BufWriter)
    → capacity ≤ length bs
    → v.buf ≡ []
    → written v ≡ written w
    → Wrote bs w (answer_write more bs v)
unfolding answer_write
answer_write-Wrote [] bs w v l b e =
    took _ _ (rw (take-all bs) (append_behind v.sent v.buf (written w) bs b e)) (λ s. take-all bs)
answer_write-Wrote (accept n ∷ more) bs w v l b e =
    took _ _ (rw (take-take n bs) (append_behind v.sent v.buf (written w) (take n bs) b e))
      (λ s. absurd (omega arith))
answer_write-Wrote (refuse ∷ more) bs w v l b e = refused _ _ e

write_to_buffer-Wrote :
    (bs : List ℕ) (w v : BufWriter) → written v ≡ written w → Wrote bs w (write_to_buffer bs v)
unfolding write_to_buffer
write_to_buffer-Wrote bs w v e =
    took _ _ (rw (take-all bs) (sym (append_assoc v.sent v.buf bs) ∙ ap (λ t. t ++ bs) e))
      (λ s. take-all bs)

-- What follows once there is room: a buffer that is empty, or that has room for all of the bytes.
write_rest-Wrote :
    (bs : List ℕ) (w v : BufWriter)
    → (capacity ≤ length bs → v.buf ≡ [])
    → written v ≡ written w
    → Wrote bs w ((if leb capacity (length bs) then socket_write bs else write_to_buffer bs) v)
unfolding socket_write
write_rest-Wrote bs w v room e = elim (Bool-cases (leb capacity (length bs))) [
  | inl l ↦
      let h = leb→le capacity (length bs) l in
      rw l (answer_write-Wrote v.answers bs w v h (room h) e)
  | inr l ↦ rw l (write_to_buffer-Wrote bs w v e)
]

Flushed-Wrote :
    (bs : List ℕ) (w : BufWriter) {r : Outcome (Unit {0}) × BufWriter}
    → Flushed w r
    → Wrote bs w (
        continue r.0
          (λ _. if leb capacity (length bs) then socket_write bs else write_to_buffer bs)
          r.1)
Flushed-Wrote bs w (done v b e) = write_rest-Wrote bs w v (λ _. b) (rw b (append-nil v.sent ∙ e))
Flushed-Wrote bs w (refused e v h) = refused e v h

no_room :
    (bs buf : List ℕ)
    → ltb (capacity - length buf) (length bs) ≡ false
    → capacity ≤ length bs
    → buf ≡ []
no_room bs [] h l = refl
no_room bs (b ∷ buf) h l = absurd (ground arith)

-- A `write` of any bytes, whatever the socket answers, keeps the order of what was written and
-- writes nothing but a front of the bytes, all of them where they are fewer than the buffer holds.
pub write-Wrote : (bs : List ℕ) (w : BufWriter) → Wrote bs w (write bs w)
unfolding write
write-Wrote bs w = elim (Bool-cases (ltb (length bs) (spare_capacity w))) [
  | inl fits ↦ rw fits (write_to_buffer-Wrote bs w w refl)
  | inr large ↦ rw large (elim (Bool-cases (ltb (spare_capacity w) (length bs))) [
    | inl more ↦ rw more (Flushed-Wrote bs w (flush-Flushed w))
    | inr exact ↦ rw exact (write_rest-Wrote bs w w (no_room bs w.buf exact) refl)
  ])
]

-- A writer that holds nothing back, over a socket that takes what it is given.
abbrev pub settled : List ℕ → BufWriter
settled s = record { buf = []; sent = s; answers = [] }

flush_loop-open : (buf sent : List ℕ) → flush_loop [] buf sent ≡ (ok tt, settled (sent ++ buf))
unfolding flush_loop
flush_loop-open [] sent = rw (append-nil sent)
flush_loop-open (b ∷ bs) sent = refl

pub flush-open : (w : BufWriter) → w.answers ≡ [] → flush w ≡ (ok tt, settled (written w))
unfolding flush
flush-open w o = ap (λ t. flush_loop t w.buf w.sent) o ∙ flush_loop-open w.buf w.sent

-- What a write to such a socket comes to.
abbrev pub WroteAll : List ℕ → BufWriter → Outcome ℕ × BufWriter → Type 0
WroteAll bs w r =
    (w' : BufWriter) × (r ≡ (ok (length bs), w'))
    × (written w' ≡ written w ++ bs)
    × (w'.answers ≡ [])

write_to_buffer-open :
    (bs : List ℕ) (w : BufWriter) → w.answers ≡ [] → WroteAll bs w (write_to_buffer bs w)
unfolding write_to_buffer
write_to_buffer-open bs w o = (_, refl, sym (append_assoc w.sent w.buf bs), o)

socket_write-open :
    (bs : List ℕ) (w : BufWriter) → w.buf ≡ [] → w.answers ≡ [] → WroteAll bs w (socket_write bs w)
unfolding socket_write answer_write
socket_write-open bs w b o = (
  record w { sent = w.sent ++ bs },
  ap (λ t. answer_write t bs w) o,
  append_behind w.sent w.buf (written w) bs b refl,
  o,
)

write_rest-open :
    (bs : List ℕ) (w v : BufWriter)
    → (capacity ≤ length bs → v.buf ≡ [])
    → written v ≡ written w
    → v.answers ≡ []
    → WroteAll bs w ((if leb capacity (length bs) then socket_write bs else write_to_buffer bs) v)
write_rest-open bs w v room e o = elim (Bool-cases (leb capacity (length bs))) [
  | inl l ↦
      let (v', r, s, o') = socket_write-open bs v (room (leb→le capacity (length bs) l)) o in
      rw l (v', r, s ∙ ap (λ t. t ++ bs) e, o')
  | inr l ↦
      let (v', r, s, o') = write_to_buffer-open bs v o in rw l (v', r, s ∙ ap (λ t. t ++ bs) e, o')
]

-- A socket that takes what it is given makes every write take all of the bytes.
pub write-open : (bs : List ℕ) (w : BufWriter) → w.answers ≡ [] → WroteAll bs w (write bs w)
unfolding write
write-open bs w o = elim (Bool-cases (ltb (length bs) (spare_capacity w))) [
  | inl fits ↦ rw fits (write_to_buffer-open bs w o)
  | inr large ↦ rw large (elim (Bool-cases (ltb (spare_capacity w) (length bs))) [
    | inl more ↦
        rw (more, flush-open w o)
          (write_rest-open bs w (settled (written w)) (λ _. refl) (append-nil _) refl)
    | inr exact ↦ rw exact (write_rest-open bs w w (no_room bs w.buf exact) refl o)
  ])
]

-- One write of as many bytes as the buffer holds is cut where the socket takes only a part of them.
pub write_cut :
    (bs sent : List ℕ) (n : ℕ) (more : List Answer)
    → capacity ≤ length bs
    → write bs (record { buf = []; sent = sent; answers = accept n ∷ more })
      ≡ (ok (length (take n bs)), record { buf = []; sent = sent ++ take n bs; answers = more })
unfolding write flush_loop
write_cut bs sent n more h = elim (Bool-cases (ltb capacity (length bs))) [
  | inl l ↦ rw (ge→ltb (length bs) capacity h, l, le→leb capacity (length bs) h)
  | inr l ↦ rw (ge→ltb (length bs) capacity h, l, le→leb capacity (length bs) h)
]
