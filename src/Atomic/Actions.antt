-- ===== src/Atomic/Actions.antt =====
-- Actions that are made of atomic parts, as those of server/src/message_handler.c are.
use ojalvo_chat.Prelude.{◌≡◌, refl, Bool, true, false, Option, none, some, if◌then◌else◌}
use ojalvo_chat.Glib.{Glib}
use ojalvo_chat.Cjson.{Cjson}
use ojalvo_chat.Server.{Server, Handler}
use ojalvo_chat.Server.Monad.{Network, Fault, Outcome, done, fault, continue, pure, gets, ◌>>=◌}
use ojalvo_chat.Atomic.{Atomics, rest}

module _ ⦃G : Glib⦄ ⦃C : Cjson⦄ ⦃N : Network⦄ where
  -- What holds of the state in which an action returns, and of the one in which it stops at a fault.
  pub data Comes {A : Type 0} (Q : A → Server → Type 0) (T : Server → Type 0)
      : Outcome Server A → Type 0 where
    returned : {a : A} {s : Server} → Q a s → Comes Q T (done a s)
    stopped : {f : Fault} {s : Server} → T s → Comes Q T (fault f s)

  pub Comes-bind :
      {A B : Type 0} {Q : B → Server → Type 0} {T : Server → Type 0} {m : Outcome Server A}
      {k : A → Handler B}
      → Comes (λ a s. Comes Q T (k a s)) T m
      → Comes Q T (continue m k)
  unfolding continue
  Comes-bind (returned h) = h
  Comes-bind (stopped h) = stopped h

  pub Comes-mono :
      {A : Type 0} {R Q : A → Server → Type 0} {T U : Server → Type 0} {m : Outcome Server A}
      → ((a : A) (s : Server) → R a s → Q a s)
      → ((s : Server) → T s → U s)
      → Comes R T m
      → Comes Q U m
  Comes-mono f g (returned h) = returned (f _ _ h)
  Comes-mono f g (stopped h) = stopped (g _ h)

  -- The outcome is reached from the state in atomic steps, at a fault too.
  abbrev pub Moves : {A : Type 0} → Server → Outcome Server A → Type 0
  Moves s o = Comes (λ a t. Atomics s t) (Atomics s) o

  -- What returns leaves the mutex of the rooms as it was.
  abbrev pub Keeps : {A : Type 0} → Server → A → Server → Type 0
  Keeps s a t = Atomics s t × (t.rooms_locked ≡ s.rooms_locked)

  abbrev pub Reaches : {A : Type 0} → Server → Outcome Server A → Type 0
  Reaches s o = Comes (Keeps s) (Atomics s) o

  -- An action that is one part, or parts one after the other.
  pub data Parts : (A : Type 0) → Handler A → Type 1 where
    part : {A : Type 0} {m : Handler A} → ((s : Server) → Reaches s (m s)) → Parts A m
    in_turn :
        {A B : Type 0} {m : Handler A} {k : A → Handler B}
        → Parts A m
        → ((a : A) → Parts B (k a))
        → Parts B (m >>= k)

  abbrev pub IsAtomic : {A : Type 0} → Handler A → Type 1
  IsAtomic {A} m = Parts A m

  -- Parts that change nothing, and choices.
  pub pure-IsAtomic : {A : Type 0} (a : A) → IsAtomic (pure a)
  pure-IsAtomic a = part λ s. returned (rest, refl)

  pub gets-IsAtomic : {A : Type 0} (f : Server → A) → IsAtomic (gets f)
  gets-IsAtomic f = part λ s. returned (rest, refl)

  pub if-IsAtomic :
      {A : Type 0} (b : Bool) (m n : Handler A)
      → IsAtomic m
      → IsAtomic n
      → IsAtomic (if b then m else n)
  if-IsAtomic true m n p q = p
  if-IsAtomic false m n p q = q

  pub elim-IsAtomic :
      {A X : Type 0} (o : Option X) (m : Handler A) (k : X → Handler A)
      → IsAtomic m
      → ((x : X) → IsAtomic (k x))
      → IsAtomic (elim o as (λ _. Handler A) [ none ↦ m | some x ↦ k x ])
  elim-IsAtomic none m k p q = p
  elim-IsAtomic (some x) m k p q = q x
