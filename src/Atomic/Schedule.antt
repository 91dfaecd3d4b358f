-- ===== src/Atomic/Schedule.antt =====
-- Turns of the threads, in an order that is chosen beforehand.
use ojalvo_chat.Prelude.{ℕ, ◌≡◌, refl, List, [], ◌∷◌}
use ojalvo_chat.Glib.{Glib}
use ojalvo_chat.Cjson.{Cjson}
use ojalvo_chat.Server.{Server, Handler}
use ojalvo_chat.Server.Monad.{Outcome, Network, done, fault}
use ojalvo_chat.Atomic.Pool.{
  Work, finished, blocked, next, Pool, put, client_work, connect, turn, stop, Turns, then_turn,
}

-- A client of that descriptor, which will send the chunks, gets a thread; or a thread gets a turn.
pub data Move : Type 0 where
  arrive : ℕ → ℕ → List (List ℕ) → Move
  go : ℕ → Move

module _ ⦃G : Glib⦄ ⦃C : Cjson⦄ ⦃N : Network⦄ where
  abbrev admit : Work → ℕ → ℕ → List (List ℕ) → Pool → Pool
  admit finished i fd chunks p = record p { threads = put p.threads i (client_work chunks fd) }
  admit blocked i fd chunks p = p
  admit (next m k) i fd chunks p = p

  abbrev resume : {B : Type 0} → ℕ → (B → Work) → Outcome Server B → Pool → Pool
  resume i k (done b s) p = record { server = s; threads = put p.threads i (k b) }
  resume i k (fault f s) p = record { server = s; threads = put p.threads i blocked }

  abbrev proceed : Work → ℕ → Pool → Pool
  proceed finished i p = p
  proceed blocked i p = p
  proceed (next m k) i p = resume i k (m p.server) p

  abbrev move : Move → Pool → Pool
  move (arrive i fd chunks) p = admit (p.threads i) i fd chunks p
  move (go i) p = proceed (p.threads i) i p

  -- A move that is not possible changes nothing.
  abbrev pub play : List Move → Pool → Pool
  play [] p = p
  play (m ∷ ms) p = play ms (move m p)

  admit-Turns :
      (w : Work) (i fd : ℕ) (chunks : List (List ℕ)) (p : Pool)
      → p.threads i ≡ w
      → Turns p
      → Turns (admit w i fd chunks p)
  admit-Turns finished i fd chunks p e h = then_turn h (connect i fd chunks e)
  admit-Turns blocked i fd chunks p e h = h
  admit-Turns (next m k) i fd chunks p e h = h

  resume-Turns :
      {B : Type 0} (o : Outcome Server B) (m : Handler B) (k : B → Work) (i : ℕ) (p : Pool)
      → p.threads i ≡ next m k
      → m p.server ≡ o
      → Turns p
      → Turns (resume i k o p)
  resume-Turns (done b s) m k i p e f h = then_turn h (turn i m k b s e f)
  resume-Turns (fault x s) m k i p e f h = then_turn h (stop i m k x s e f)

  proceed-Turns : (w : Work) (i : ℕ) (p : Pool) → p.threads i ≡ w → Turns p → Turns (proceed w i p)
  proceed-Turns finished i p e h = h
  proceed-Turns blocked i p e h = h
  proceed-Turns (next m k) i p e h = resume-Turns (m p.server) m k i p e refl h

  move-Turns : (m : Move) (p : Pool) → Turns p → Turns (move m p)
  move-Turns (arrive i fd chunks) p h = admit-Turns (p.threads i) i fd chunks p refl h
  move-Turns (go i) p h = proceed-Turns (p.threads i) i p refl h

  pub play-Turns : (ms : List Move) (p : Pool) → Turns p → Turns (play ms p)
  play-Turns [] p h = h
  play-Turns (m ∷ ms) p h = play-Turns ms (move m p) (move-Turns m p h)
