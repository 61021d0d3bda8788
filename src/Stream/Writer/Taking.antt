-- ===== src/Stream/Writer/Taking.antt =====
-- A `BufWriter` over a socket that may be slow, and takes a byte or more whenever it is asked.
use fakepostmaster.Prelude.{
  ℕ, zero, suc, ◌<◌, ◌≡◌, refl, ap, sym, ◌∙◌, List, [], ◌∷◌, ◌++◌, append-nil, append_assoc, length,
  take, drop, take-append-drop, ltb, lt→leb, Bool-cases, inl, inr,
}
use fakepostmaster.Outcome.{Outcome, ok}
use fakepostmaster.Stream.Writer.{
  Answer, accept, refuse, BufWriter, capacity, spare_capacity, flush_loop, flush, write_to_buffer,
  write,
}
use fakepostmaster.Stream.Writer.Laws.{written}

abbrev pub Taking : List Answer → Type 0
Taking [] = Unit
Taking (accept zero ∷ more) = ⊥
Taking (accept (suc n) ∷ more) = Taking more
Taking (refuse ∷ more) = ⊥

abbrev pub FlushedAll : List ℕ → Outcome (Unit {0}) × BufWriter → Type 0
FlushedAll bs r =
    (w' : BufWriter) × (r ≡ (ok tt, w')) × (w'.buf ≡ []) × (w'.sent ≡ bs) × Taking w'.answers

flush_loop-Taking :
    (more : List Answer) (buf sent total : List ℕ)
    → Taking more
    → sent ++ buf ≡ total
    → FlushedAll total (flush_loop more buf sent)
unfolding flush_loop
flush_loop-Taking more [] sent total t e = (_, refl, refl, sym (append-nil sent) ∙ e, t)
flush_loop-Taking [] (b ∷ bs) sent total t e = (_, refl, refl, e, tt)
flush_loop-Taking (accept zero ∷ more) (b ∷ bs) sent total t e = absurd t
flush_loop-Taking (accept (suc n) ∷ more) (b ∷ bs) sent total t e =
    flush_loop-Taking more (drop n bs) (sent ++ b ∷ take n bs) total t (
      append_assoc sent (b ∷ take n bs) (drop n bs)
      ∙ ap (λ t. sent ++ b ∷ t) (take-append-drop n bs)
      ∙ e)
flush_loop-Taking (refuse ∷ more) (b ∷ bs) sent total t e = absurd t

pub flush-Taking : (w : BufWriter) → Taking w.answers → FlushedAll (written w) (flush w)
unfolding flush
flush-Taking w t = flush_loop-Taking w.answers w.buf w.sent (written w) t refl

abbrev pub WroteTaking : List ℕ → BufWriter → Outcome ℕ × BufWriter → Type 0
WroteTaking bs w r =
    (w' : BufWriter) × (r ≡ (ok (length bs), w'))
    × (written w' ≡ written w ++ bs)
    × Taking w'.answers

-- What is put into the buffer is put there at once.
buffered :
    (bs : List ℕ) (w v : BufWriter)
    → Taking v.answers
    → written v ≡ written w
    → WroteTaking bs w (write_to_buffer bs v)
unfolding write_to_buffer
buffered bs w v t e = (_, refl, sym (append_assoc v.sent v.buf bs) ∙ ap (λ t. t ++ bs) e, t)

pub write-Taking :
    (bs : List ℕ) (w : BufWriter)
    → length bs < capacity
    → Taking w.answers
    → WroteTaking bs w (write bs w)
unfolding write
write-Taking bs w l t = elim (Bool-cases (ltb (length bs) (spare_capacity w))) [
  | inl fits ↦ rw fits (buffered bs w w t refl)
  | inr large ↦ rw large (elim (Bool-cases (ltb (spare_capacity w) (length bs))) [
    | inl more ↦
        let (v, r, b, s, t') = flush-Taking w t in
        rw (more, r, lt→leb capacity (length bs) l)
          (buffered bs w v t' (rw b (append-nil v.sent ∙ s)))
    | inr exact ↦ rw (exact, lt→leb capacity (length bs) l) (buffered bs w w t refl)
  ])
]
