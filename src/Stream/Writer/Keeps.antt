-- ===== src/Stream/Writer/Keeps.antt =====
-- What a `BufWriter` keeps: what the socket has taken stays taken, and the buffer its bound.
use fakepostmaster.Prelude.{
  ℕ, zero, suc, ◌+◌, ◌≤◌, ◌<◌, ◌≡◌, refl, sym, ap, ◌∙◌, List, [], ◌∷◌, ◌++◌, append-nil,
  append_assoc, length, length-append, length-drop, take, drop, leb, ltb, if◌then◌else◌, Bool-cases,
  inl, inr, arith,
}
use fakepostmaster.Outcome.{Outcome}
use fakepostmaster.Exec.{continue}
use fakepostmaster.Stream.Writer.Laws.{Flushed, done, flush-Flushed}
use fakepostmaster.Stream.Writer.Laws
use fakepostmaster.Exec.Keeps.{IsPreorder, Keeps}
use fakepostmaster.Stream.Writer.{
  Answer, accept, refuse, BufWriter, capacity, spare_capacity, answer_write, socket_write,
  flush_loop, flush, write_to_buffer, write,
}

-- A list that has got longer at its end.
abbrev pub Grows {ℓ} : {A : Type ℓ} → List A → List A → Type ℓ
Grows {A} xs ys = (more : List A) × (ys ≡ xs ++ more)

pub Grows-refl {ℓ} : {A : Type ℓ} (xs : List A) → Grows xs xs
Grows-refl xs = ([], sym (append-nil xs))

pub Grows-trans {ℓ} : {A : Type ℓ} (xs ys zs : List A) → Grows xs ys → Grows ys zs → Grows xs zs
Grows-trans xs ys zs (a, p) (b, q) = (a ++ b, q ∙ ap (λ t. t ++ b) p ∙ append_assoc xs a b)

pub record Kept (w w' : BufWriter) : Type 0 where
  pub sent_grows : Grows w.sent w'.sent
  pub buf_bounded : length w.buf ≤ capacity → length w'.buf ≤ capacity

instance abbrev pub Kept-IsPreorder : IsPreorder Kept
Kept-IsPreorder = record {
  unchanged = λ w. record { sent_grows = Grows-refl w.sent; buf_bounded = λ b. b };
  changed_twice = λ w w' w''. λ h k. record {
    sent_grows = Grows-trans _ _ _ h.sent_grows k.sent_grows;
    buf_bounded = λ b. k.buf_bounded (h.buf_bounded b);
  };
}

flush_loop-Grows :
    (more : List Answer) (buf sent : List ℕ) → Grows sent (flush_loop more buf sent).1.sent
unfolding flush_loop
flush_loop-Grows more [] sent = Grows-refl sent
flush_loop-Grows [] (b ∷ bs) sent = (b ∷ bs, refl)
flush_loop-Grows (accept zero ∷ more) (b ∷ bs) sent = Grows-refl sent
flush_loop-Grows (accept (suc n) ∷ more) (b ∷ bs) sent =
    Grows-trans _ _ _ (b ∷ take n bs, refl)
      (flush_loop-Grows more (drop n bs) (sent ++ b ∷ take n bs))
flush_loop-Grows (refuse ∷ more) (b ∷ bs) sent = Grows-refl sent

length-flush_loop :
    (more : List Answer) (buf sent : List ℕ) → length (flush_loop more buf sent).1.buf ≤ length buf
unfolding flush_loop
length-flush_loop more [] sent = omega arith
length-flush_loop [] (b ∷ bs) sent = omega arith
length-flush_loop (accept zero ∷ more) (b ∷ bs) sent = omega arith
length-flush_loop (accept (suc n) ∷ more) (b ∷ bs) sent =
    omega (arith, length-drop n bs, length-flush_loop more (drop n bs) (sent ++ b ∷ take n bs))
length-flush_loop (refuse ∷ more) (b ∷ bs) sent = omega arith

pub flush-Keeps : Keeps Kept flush
unfolding flush
flush-Keeps = record {
  at = λ w. record {
    sent_grows = flush_loop-Grows w.answers w.buf w.sent;
    buf_bounded = λ b. omega (arith, length-flush_loop w.answers w.buf w.sent);
  };
}

answer_write-Kept :
    (more : List Answer) (bs : List ℕ) (w : BufWriter) → Kept w (answer_write more bs w).1
unfolding answer_write
answer_write-Kept [] bs w = record { sent_grows = (bs, refl); buf_bounded = λ b. b }
answer_write-Kept (accept n ∷ more) bs w = record {
  sent_grows = (take n bs, refl);
  buf_bounded = λ b. b;
}
answer_write-Kept (refuse ∷ more) bs w = record {
  sent_grows = Grows-refl w.sent;
  buf_bounded = λ b. b;
}

socket_write-Keeps : (bs : List ℕ) → Keeps Kept (socket_write bs)
unfolding socket_write
socket_write-Keeps bs = record { at = λ w. answer_write-Kept w.answers bs w }

Kept-trans : (w v u : BufWriter) → Kept w v → Kept v u → Kept w u
Kept-trans = Kept-IsPreorder.changed_twice

-- The buffer takes what it has room for.
write_room-Kept :
    (bs : List ℕ) (w v : BufWriter)
    → Kept w v
    → (length w.buf ≤ capacity → length v.buf + length bs ≤ capacity)
    → Kept w (write_to_buffer bs v).1
unfolding write_to_buffer
write_room-Kept bs w v k room = record {
  sent_grows = k.sent_grows;
  buf_bounded = λ b. omega (arith, length-append v.buf bs, room b);
}

-- What follows once there is room.
write_rest-Kept :
    (bs : List ℕ) (w v : BufWriter)
    → Kept w v
    → (length w.buf ≤ capacity → length bs < capacity → length v.buf + length bs ≤ capacity)
    → Kept w ((if leb capacity (length bs) then socket_write bs else write_to_buffer bs) v).1
write_rest-Kept bs w v k room = elim (Bool-cases (leb capacity (length bs))) [
  | inl l ↦ rw l (Kept-trans w v _ k ((socket_write-Keeps bs).at v))
  | inr l ↦ rw l (write_room-Kept bs w v k (λ b. room b (ground arith)))
]

after_flush-Kept :
    (bs : List ℕ) (w : BufWriter) {r : Outcome (Unit {0}) × BufWriter}
    → Flushed w r
    → Kept w r.1
    → Kept w
        (continue r.0
          (λ _. if leb capacity (length bs) then socket_write bs else write_to_buffer bs)
          r.1).1
after_flush-Kept bs w (done v b e) k = write_rest-Kept bs w v k (λ _ l. rw b (omega arith))
after_flush-Kept bs w (Laws.refused e v h) k = k

pub write-Keeps : (bs : List ℕ) → Keeps Kept (write bs)
unfolding write
write-Keeps bs = record {
  at = λ w. elim (Bool-cases (ltb (length bs) (spare_capacity w))) [
    | inl fits ↦ rw fits (write_room-Kept bs w w (Kept-IsPreorder.unchanged w) (λ b. ground arith))
    | inr large ↦ rw large (elim (Bool-cases (ltb (spare_capacity w) (length bs))) [
      | inl more ↦ rw more (after_flush-Kept bs w (flush-Flushed w) (flush-Keeps.at w))
      | inr exact ↦
          rw exact (write_rest-Kept bs w w (Kept-IsPreorder.unchanged w) (λ b l. ground arith))
    ])
  ];
}
