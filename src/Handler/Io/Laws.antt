-- ===== src/Handler/Io/Laws.antt =====
-- What the two ends put on the wire, and what they take off it.
use fakepostmaster.Prelude.{
  ℕ, ◌≤◌, ◌<◌, ◌≡◌, take, length-take, ap, ◌∙◌, List, [], ◌∷◌, ◌++◌, length, arith,
}
use fakepostmaster.Int.{pos, add_i32}
use fakepostmaster.Int.Laws.{add_i32_small}
use fakepostmaster.Exec.{Exec, ◌>>◌, continue, pure}
use fakepostmaster.Outcome.{Outcome, ok, err, Error}
use fakepostmaster.Buffer.{BytesCrate}
use fakepostmaster.Wire.{Wire}
use fakepostmaster.Wire.Lawful.{IsSized}
use fakepostmaster.Stream.Writer.{BufWriter, Answer, accept, capacity}
use fakepostmaster.Stream.Writer.Laws.{
  written, settled, Wrote, took, refused, write-Wrote, write_cut, write-open, flush-open,
}
use fakepostmaster.Stream.Writer.Taking.{Taking, FlushedAll, write-Taking, flush-Taking}
use fakepostmaster.Message.Header.{MessageBody}
use fakepostmaster.Message.Frame.{frame, request_frame, FitsFrame}
use fakepostmaster.Message.Reliable.{IsReliable, message_bytes}
use fakepostmaster.Handler.Connection.{TcpHandler, writing}
use fakepostmaster.Handler.Io.{put_message, put_message_and_flush, put_request}

-- What `put_message` comes to: the frame is behind what was written before, or an error is returned
-- and nothing of it is.
pub data Put (bytes : List ℕ) (w : BufWriter) : Outcome (Unit {0}) × BufWriter → Type 0 where
  put : (w' : BufWriter) → written w' ≡ written w ++ bytes → Put bytes w (ok tt, w')
  failed : (e : Error) (w' : BufWriter) → written w' ≡ written w → Put bytes w (err e, w')

Wrote-Put :
    (bs : List ℕ) (w : BufWriter) {r : Outcome ℕ × BufWriter}
    → length bs < capacity
    → Wrote bs w r
    → Put bs w (continue r.0 (λ taken. pure tt) r.1)
Wrote-Put bs w h (took n w' e all) = put w' (e ∙ ap (λ t. written w ++ t) (all h))
Wrote-Put bs w h (refused e w' s) = failed e w' s

module _ (B : BytesCrate) {A : Type 0} (m : MessageBody A) {kind : ℕ} {IsValid : A → Type 0}
    {encode : A → List ℕ} (R : IsReliable m kind IsValid encode) where
  pub put_message-open :
      (a : A) (w : BufWriter)
      → IsValid a
      → FitsFrame (encode a)
      → w.answers ≡ []
      → (w' : BufWriter) × (put_message B m a w ≡ (ok tt, w'))
        × (written w' ≡ written w ++ frame kind (encode a))
        × (w'.answers ≡ [])
  unfolding put_message
  put_message-open a w v h o =
      let (w', r, s, o') = write-open (frame kind (encode a)) w o in
      (w', rw (message_bytes B m R a v h, r), s, o')

  pub put_message_and_flush-open :
      (a : A) (w : BufWriter)
      → IsValid a
      → FitsFrame (encode a)
      → w.answers ≡ []
      → put_message_and_flush B m a w ≡ (ok tt, settled (written w ++ frame kind (encode a)))
  unfolding put_message_and_flush
  put_message_and_flush-open a w v h o =
      let (w', r, s, o') = put_message-open a w v h o in rw (r, flush-open w' o', s)

  -- A message whose frame is shorter than the writer's buffer is put in full or not at all, whatever
  -- the socket answers, and what was written before stays before it.
  pub put_message-Put :
      (a : A) (w : BufWriter)
      → IsValid a
      → length (frame kind (encode a)) < capacity
      → Put (frame kind (encode a)) w (put_message B m a w)
  unfolding put_message
  put_message-Put a w v h =
      rw (message_bytes B m R a v (omega arith))
        (Wrote-Put (frame kind (encode a)) w h (write-Wrote (frame kind (encode a)) w))

  -- Where nothing is held back, a valid message that fits a frame, and whose frame is as long as the
  -- writer's buffer or longer, is cut if the socket takes only a part of it: `put_message` returns no
  -- error, and fewer bytes than the frame's are written.
  pub put_message_cut :
      (a : A) (sent : List ℕ) (n : ℕ) (more : List Answer)
      → IsValid a
      → FitsFrame (encode a)
      → capacity ≤ length (frame kind (encode a))
      → n < length (frame kind (encode a))
      → (put_message B m a (record { buf = []; sent = sent; answers = accept n ∷ more }) ≡ (
        ok tt,
        record { buf = []; sent = sent ++ take n (frame kind (encode a)); answers = more },
      ))
        × (length (take n (frame kind (encode a))) < length (frame kind (encode a)))
  unfolding put_message
  put_message_cut a sent n more v h l c = (
    rw (message_bytes B m R a v h, write_cut (frame kind (encode a)) sent n more l),
    omega (arith, length-take n (frame kind (encode a))),
  )

module _ (B : BytesCrate) {A : Type 0} (w : Wire A) {IsValid : A → Type 0} {encode : A → List ℕ}
    {least : ℕ} (sized : IsSized w IsValid encode least) where
  request_bytes :
      (a : A)
      → IsValid a
      → FitsFrame (encode a)
      → w.serialize a (B.put_i32 [] (add_i32 (w.byte_size a) (pos 4))) ≡ request_frame (encode a)
  request_bytes a v h =
      sized.serialize_appends a _
      ∙ rw (
        B.put_i32_appends,
        sized.size_exact a v (omega arith),
        add_i32_small (length (encode a)) 4 h,
      )

  pub put_request-open :
      (a : A) (writer : BufWriter)
      → IsValid a
      → FitsFrame (encode a)
      → writer.answers ≡ []
      → put_request B w a writer ≡ (ok tt, settled (written writer ++ request_frame (encode a)))
  unfolding put_request
  put_request-open a writer v h o =
      let (w', r, s, o') = write-open (request_frame (encode a)) writer o in
      rw (request_bytes a v h, r, flush-open w' o', s)

module _ (B : BytesCrate) {A : Type 0} (m : MessageBody A) {kind : ℕ} {IsValid : A → Type 0}
    {encode : A → List ℕ} (R : IsReliable m kind IsValid encode) {C : Type 0} where
  -- A handler that puts a message goes on with a writer that has the frame behind what it had.
  pub then_put :
      (a : A) (h : TcpHandler) (next : Exec TcpHandler C) (r : Outcome C × TcpHandler)
      → IsValid a
      → FitsFrame (encode a)
      → h.tcp_writer.answers ≡ []
      → ((w : BufWriter)
          → written w ≡ written h.tcp_writer ++ frame kind (encode a)
          → w.answers ≡ []
          → next (record h { tcp_writer = w }) ≡ r)
      → (writing (put_message B m a) >> next) h ≡ r
  then_put a h next r v fits o k =
      let (w, e, s, o') = put_message-open B m R a h.tcp_writer v fits o in rw e (k w s o')

  -- The same with a flush: nothing is held back.
  pub then_flush :
      (a : A) (h : TcpHandler) (next : Exec TcpHandler C) (r : Outcome C × TcpHandler)
      → IsValid a
      → FitsFrame (encode a)
      → h.tcp_writer.answers ≡ []
      → next (record h { tcp_writer = settled (written h.tcp_writer ++ frame kind (encode a)) }) ≡ r
      → (writing (put_message_and_flush B m a) >> next) h ≡ r
  then_flush a h next r v fits o k = rw (put_message_and_flush-open B m R a h.tcp_writer v fits o) k

module _ (B : BytesCrate) {A : Type 0} (m : MessageBody A) {kind : ℕ} {IsValid : A → Type 0}
    {encode : A → List ℕ} (R : IsReliable m kind IsValid encode) where
  -- A valid message whose frame is shorter than the writer's buffer reaches the peer, behind all that
  -- was held back before, if the socket takes a byte or more whenever it is asked, however slow it is;
  -- no error is returned and nothing is held back.
  pub put_message_and_flush_taken :
      (a : A) (w : BufWriter)
      → IsValid a
      → length (frame kind (encode a)) < capacity
      → Taking w.answers
      → FlushedAll (written w ++ frame kind (encode a)) (put_message_and_flush B m a w)
  unfolding put_message_and_flush put_message
  put_message_and_flush_taken a w v h t =
      let (w', r, s, t') = write-Taking (frame kind (encode a)) w h t in
      rw (message_bytes B m R a v (omega arith), r, ← s) (flush-Taking w' t')
