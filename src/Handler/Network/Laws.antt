-- ===== src/Handler/Network/Laws.antt =====
-- Two ends that are causal come to the same end of their conversation, however the bytes arrive.
use mathlib.Core.Path.{subst}
use fakepostmaster.Prelude.{
  ℕ, ◌+◌, ◌≡◌, refl, sym, ap, ◌∙◌, List, [], ◌∷◌, ◌++◌, append-nil, length, length-append, arith,
}
use fakepostmaster.Outcome.{Outcome}
use fakepostmaster.Exec.{Exec}
use fakepostmaster.Exec.Causal.{same, starved}
use fakepostmaster.Stream.Writer.Keeps.{Grows, Grows-refl, Grows-trans}
use fakepostmaster.Handler.Connection.{TcpHandler}
use fakepostmaster.Handler.Io.Causal.{CausalHandler, BothHandlers}
use fakepostmaster.Handler.Server.Transcript.{connection}
use fakepostmaster.Handler.Network.{
  Arrived, sends, Step, to_server, to_client, Steps, stay, go, Reached, IsQuiet,
}

-- A list begins with nothing.
Grows-nil : (xs : List ℕ) → Grows [] xs
Grows-nil xs = (xs, refl)

nothing_more : (xs ms : List ℕ) → length ms + length xs ≡ length xs → xs ++ ms ≡ xs
nothing_more xs [] e = append-nil xs
nothing_more xs (m ∷ ms) e = absurd (omega arith)

Grows-antisym : (xs ys : List ℕ) → Grows xs ys → Grows ys xs → ys ≡ xs
Grows-antisym xs ys (ms, e) (ns, e') =
    e
    ∙ nothing_more xs ms
        (omega (arith, ap length e, ap length e', length-append xs ms, length-append ys ns))

sent_both :
    {A : Type 0} (j : List ℕ) {p q : Outcome A × TcpHandler}
    → BothHandlers j p q
    → Grows p.1.tcp_writer.sent q.1.tcp_writer.sent
sent_both j (same r h) = Grows-refl h.tcp_writer.sent
sent_both j (starved r r' h h' x m) = m.sent_grows

module _ {A : Type 0} (side : Exec TcpHandler A) (c : CausalHandler side) where
  -- More input only makes an end send more.
  pub sends-Grows : (i i' : List ℕ) → Grows i i' → Grows (sends side i) (sends side i')
  sends-Grows i i' (j, e) = rw e (sent_both j (c.at (connection i []) j))

-- One has received all that the other has.
pub record Behind (a b : Arrived) : Type 0 where
  pub at_server : Grows a.at_server b.at_server
  pub at_client : Grows a.at_client b.at_client

Behind-refl : (a : Arrived) → Behind a a
Behind-refl a = record { at_server = Grows-refl a.at_server; at_client = Grows-refl a.at_client }

Behind-trans : (a b c : Arrived) → Behind a b → Behind b c → Behind a c
Behind-trans a b c h k = record {
  at_server = Grows-trans _ _ _ h.at_server k.at_server;
  at_client = Grows-trans _ _ _ h.at_client k.at_client;
}

Behind-antisym : (a b : Arrived) → Behind a b → Behind b a → b ≡ a
Behind-antisym a b h k =
    let e = Grows-antisym _ _ h.at_server k.at_server in
    let e' = Grows-antisym _ _ h.at_client k.at_client in
    λ i. record { at_server = e i; at_client = e' i }

abbrev opened : Arrived
opened = record { at_server = []; at_client = [] }

module _ {A C : Type 0} (server : Exec TcpHandler A) (client : Exec TcpHandler C) where
  -- All that has arrived has been sent.
  record IsSent (a : Arrived) : Type 0 where
    by_client : Grows a.at_server (sends client a.at_client)
    by_server : Grows a.at_client (sends server a.at_server)

  Steps-trans :
      {a b c : Arrived}
      → Steps server client a b
      → Steps server client b c
      → Steps server client a c
  Steps-trans h stay = h
  Steps-trans h (go k s) = go (Steps-trans h k) s

  module _ (S : CausalHandler server) (K : CausalHandler client) where
    Step-IsSent : {a b : Arrived} → Step server client a b → IsSent a → IsSent b
    Step-IsSent (to_server a more g) h = record {
      by_client = g;
      by_server = Grows-trans _ _ _ h.by_server (sends-Grows server S _ _ (more, refl));
    }
    Step-IsSent (to_client a more g) h = record {
      by_client = Grows-trans _ _ _ h.by_client (sends-Grows client K _ _ (more, refl));
      by_server = g;
    }

    Reached-IsSent : {a : Arrived} → Reached server client a → IsSent a
    Reached-IsSent stay = record { by_client = Grows-nil _; by_server = Grows-nil _ }
    Reached-IsSent (go h s) = Step-IsSent s (Reached-IsSent h)

    -- Nothing arrives that has not arrived where nothing is on its way any more.
    Step-Behind :
        (z : Arrived) {a b : Arrived}
        → IsQuiet server client z
        → Step server client a b
        → Behind a z
        → Behind b z
    Step-Behind z q (to_server a more g) h = record {
      at_server =
          subst (Grows (a.at_server ++ more)) (sym q.0)
            (Grows-trans _ _ _ g (sends-Grows client K _ _ h.at_client));
      at_client = h.at_client;
    }
    Step-Behind z q (to_client a more g) h = record {
      at_server = h.at_server;
      at_client =
          subst (Grows (a.at_client ++ more)) (sym q.1)
            (Grows-trans _ _ _ g (sends-Grows server S _ _ h.at_server));
    }

    Reached-Behind :
        (z : Arrived) {a : Arrived} → IsQuiet server client z → Reached server client a → Behind a z
    Reached-Behind z q stay = record { at_server = Grows-nil _; at_client = Grows-nil _ }
    Reached-Behind z q (go h s) = Step-Behind z q s (Reached-Behind z q h)

    -- All that is on its way to one end arrives.
    deliver_to_server :
        (a : Arrived)
        → IsSent a
        → Step server client a (record a { at_server = sends client a.at_client })
    deliver_to_server a h =
        let (more, e) = h.by_client in
        rw e (to_server a more (subst (Grows (a.at_server ++ more)) (sym e) (Grows-refl _)))

    deliver_to_client :
        (a : Arrived)
        → IsSent a
        → Step server client a (record a { at_client = sends server a.at_server })
    deliver_to_client a h =
        let (more, e) = h.by_server in
        rw e (to_client a more (subst (Grows (a.at_client ++ more)) (sym e) (Grows-refl _)))

    -- A conversation can always go on until it has caught up with a step that another one takes.
    catch_up_step :
        {b b' : Arrived} (a : Arrived)
        → Step server client b b'
        → IsSent a
        → Behind b a
        → (a' : Arrived) × Step server client a a' × Behind b' a'
    catch_up_step a (to_server b more g) s h = (
      record a { at_server = sends client a.at_client },
      deliver_to_server a s,
      record {
        at_server = Grows-trans _ _ _ g (sends-Grows client K _ _ h.at_client);
        at_client = h.at_client;
      },
    )
    catch_up_step a (to_client b more g) s h = (
      record a { at_client = sends server a.at_server },
      deliver_to_client a s,
      record {
        at_server = h.at_server;
        at_client = Grows-trans _ _ _ g (sends-Grows server S _ _ h.at_server);
      },
    )

    catch_up :
        {b : Arrived} (a : Arrived)
        → Reached server client a
        → Reached server client b
        → (a' : Arrived) × Steps server client a a' × Behind b a'
    catch_up a r stay = (a, stay, record { at_server = Grows-nil _; at_client = Grows-nil _ })
    catch_up a r (go k s) =
        let (a', steps, h) = catch_up a r k in
        let (a'', s', h') = catch_up_step a' s (Reached-IsSent (Steps-trans r steps)) h in
        (a'', go steps s', h')

    -- If a conversation of two causal ends comes to where nothing is on its way, then every
    -- conversation of theirs, however the bytes arrive, has received a beginning of what has arrived
    -- there at each end, can go on to there, and has nothing on its way there only.
    pub Reached-converges :
        (z a : Arrived)
        → Reached server client z
        → IsQuiet server client z
        → Reached server client a
        → Behind a z × Steps server client a z × (IsQuiet server client a → a ≡ z)
    Reached-converges z a rz q r =
        let (a', steps, h) = catch_up a r rz in
        let e = Behind-antisym z a' h (Reached-Behind z q (Steps-trans r steps)) in
        (
          Reached-Behind z q r,
          subst (Steps server client a) e steps,
          λ q'. Behind-antisym z a (Reached-Behind a q' rz) (Reached-Behind z q r),
        )
