-- ===== src/Examples/Server/Protocol.antt =====
-- The server's side of the protocol as a state machine, apart from the code: what it may send, and when.
use fakepostmaster.Prelude.{ℕ, ◌≡◌, refl, Bool, true, false, List, [], ◌∷◌, ◌++◌, concat_map, ap}
use fakepostmaster.Outcome.{ok}
use fakepostmaster.Buffer.{BytesCrate}
use fakepostmaster.Handler.Server.{Executed, Executor}
use fakepostmaster.Handler.Server.Answering.{answer}
use fakepostmaster.Handler.Server.Transcript.{challenge, welcome, server_version, ready, refusal}

pub data Phase : Type 0 where
  opened challenged serving closed : Phase

-- An answer is to a query, with what was executed for it.
pub data Event : Type 0 where
  challenges welcomes refuses : Event
  answers : List ℕ → Executed → Event

module _ (B : BytesCrate) where
  abbrev pub event_bytes : Event → List ℕ
  event_bytes challenges = challenge
  event_bytes welcomes = welcome ++ server_version ++ ready
  event_bytes refuses = refusal
  event_bytes (answers query result) = answer B result

  abbrev pub transcript : List Event → List ℕ
  transcript events = concat_map event_bytes events

module _ (accepted : Bool) (execute : Executor) where
  pub data Step : Phase → Event → Phase → Type 0 where
    challenge_client : Step opened challenges challenged
    welcome_client : accepted ≡ true → Step challenged welcomes serving
    refuse_client : accepted ≡ false → Step challenged refuses closed
    answer_query :
        (query : List ℕ) (result : Executed)
        → execute query ≡ ok result
        → Step serving (answers query result) serving

  pub data Run : Phase → List Event → Phase → Type 0 where
    stop : (p : Phase) → Run p [] p
    step :
        {p q r : Phase} {e : Event} {es : List Event} → Step p e q → Run q es r → Run p (e ∷ es) r

  -- What was executed, for the queries that have been answered.
  abbrev pub AreExecuted : List (List ℕ × Executed) → Type 0
  AreExecuted [] = Unit
  AreExecuted ((query, result) ∷ more) = (execute query ≡ ok result) × AreExecuted more

  abbrev pub answers_of : List (List ℕ × Executed) → List Event
  answers_of [] = []
  answers_of ((query, result) ∷ more) = answers query result ∷ answers_of more

  -- What has happened up to a phase of a connection.
  pub data History : Phase → List Event → Type 0 where
    nothing : History opened []
    asked : History challenged (challenges ∷ [])
    turned_away : accepted ≡ false → History closed (challenges ∷ refuses ∷ [])
    answered :
        (done : List (List ℕ × Executed))
        → accepted ≡ true
        → AreExecuted done
        → History serving (challenges ∷ welcomes ∷ answers_of done)

  -- A run while queries are answered is made of answers.
  serving-Run :
      {es : List Event} {p : Phase}
      → Run serving es p
      → (done : List (List ℕ × Executed)) × (p ≡ serving)
        × (es ≡ answers_of done)
        × AreExecuted done
  serving-Run (stop _) = ([], refl, refl, tt)
  serving-Run (step (answer_query query result e) more) =
      let (done, p, es, v) = serving-Run more in
      ((query, result) ∷ done, p, ap (λ t. answers query result ∷ t) es, (e, v))

  closed-Run : {es : List Event} {p : Phase} → Run closed es p → (p ≡ closed) × (es ≡ [])
  closed-Run (stop _) = (refl, refl)
  closed-Run (step s more) = elim s [ ]

  -- Every run of the protocol from its start has such a history.
  pub Run-History : {es : List Event} {p : Phase} → Run opened es p → History p es
  Run-History (stop _) = nothing
  Run-History (step challenge_client (stop _)) = asked
  Run-History (step challenge_client (step (welcome_client a) more)) =
      let (done, p, es, v) = serving-Run more in rw (p, es) (answered done a v)
  Run-History (step challenge_client (step (refuse_client a) more)) =
      let (p, es) = closed-Run more in rw (p, es) (turned_away a)
