-- ===== src/Atomic/Pool.antt =====
-- The threads of server/src/client_handler.c, started by server/src/main.c, where other threads may
-- act between any two parts of a thread's work.
use ojalvo_chat.Prelude.{
  ℕ, ◌≡◌, refl, sym, ap, ◌∙◌, ◌⊎◌, arith, false, List, ◌==◌, if◌then◌else◌, Bool-cases, inl, inr,
}
use mathlib.Core.Path.{subst}
use ojalvo_chat.Glib.{Glib}
use ojalvo_chat.Cjson.{Cjson}
use ojalvo_chat.Server.{Server, Handler, initial_server}
use ojalvo_chat.Server.Monad.{Fault, Outcome, Network, done, fault}
use ojalvo_chat.Atomic.{Atomics, rest, Atomics-append}
use ojalvo_chat.Atomic.Actions.{Keeps, Reaches, returned, stopped, IsAtomic, part, in_turn}
use ojalvo_chat.Atomic.Lines.{handle_client-IsAtomic}

module _ ⦃G : Glib⦄ where
  -- What a thread has still to do: nothing, or a part, and then what its result makes of the rest.
  -- A blocked thread stopped at a fault and does nothing more.
  pub data Work : Type 1 where
    finished blocked : Work
    next : {B : Type 0} (m : Handler B) → (B → Work) → Work

  -- The numbers of the threads; one with nothing to do is free for a new client.
  pub record Pool : Type 1 where
    pub server : Server
    pub threads : ℕ → Work

  abbrev pub start_up : Pool
  start_up = record { server = initial_server; threads = λ i. finished }

  abbrev pub put : (ℕ → Work) → ℕ → Work → ℕ → Work
  put threads i w j = if i == j then w else threads j

  module _ ⦃C : Cjson⦄ ⦃N : Network⦄ where
    -- The parts of an action, and then what its result makes of the rest.
    pub in_parts : {A : Type 0} {m : Handler A} → IsAtomic m → (A → Work) → Work
    in_parts (part {m = m} h) k = next m k
    in_parts (in_turn p q) k = in_parts p λ a. in_parts (q a) k

    -- `handle_client` of a client that sends the chunks.
    abbrev pub client_work : List (List ℕ) → ℕ → Work
    client_work chunks fd = in_parts (handle_client-IsAtomic chunks fd) λ _. finished

    -- A thread whose part stops at a fault stays where it stopped: what it did in the part is done,
    -- and if it held the mutex of the rooms, it holds it for ever. Another thread that needs that
    -- mutex then stops in its turn.
    pub data Turn (p : Pool) : Pool → Type 1 where
      connect :
          (i fd : ℕ) (chunks : List (List ℕ))
          → p.threads i ≡ finished
          → Turn p (record p { threads = put p.threads i (client_work chunks fd) })
      turn :
          (i : ℕ) {B : Type 0} (m : Handler B) (k : B → Work) (b : B) (s : Server)
          → p.threads i ≡ next m k
          → m p.server ≡ done b s
          → Turn p (record { server = s; threads = put p.threads i (k b) })
      stop :
          (i : ℕ) {B : Type 0} (m : Handler B) (k : B → Work) (f : Fault) (s : Server)
          → p.threads i ≡ next m k
          → m p.server ≡ fault f s
          → Turn p (record { server = s; threads = put p.threads i blocked })

    pub data Turns : Pool → Type 1 where
      start : Turns start_up
      then_turn : {p q : Pool} → Turns p → Turn p q → Turns q

    -- Every part of the work is atomic.
    pub AreAtomic : Work → Type 1
    AreAtomic finished = Unit {1}
    AreAtomic blocked = Unit {1}
    AreAtomic (next m k) = ((s : Server) → Reaches s (m s)) × ((b : _) → AreAtomic (k b))

    in_parts-AreAtomic :
        {A : Type 0} {m : Handler A} (p : IsAtomic m) (k : A → Work)
        → ((a : A) → AreAtomic (k a))
        → AreAtomic (in_parts p k)
    unfolding in_parts AreAtomic
    in_parts-AreAtomic (part h) k r = (h, r)
    in_parts-AreAtomic (in_turn p q) k r = in_parts-AreAtomic p _ λ a. in_parts-AreAtomic (q a) k r

    -- The rooms are unlocked, or some thread is blocked.
    abbrev pub UnlockedOrBlocked : Pool → Type 1
    UnlockedOrBlocked p = (p.server.rooms_locked ≡ false) ⊎ ((i : ℕ) × (p.threads i ≡ blocked))

    -- What holds of a pool between turns.
    pub record IsOrderly (p : Pool) : Type 1 where
      pub reached : Atomics initial_server p.server
      pub unlocked : UnlockedOrBlocked p
      pub atomic : (i : ℕ) → AreAtomic (p.threads i)

    put-Each :
        (P : Work → Type 1) (threads : ℕ → Work) (i : ℕ) (w : Work)
        → P w
        → ((j : ℕ) → P (threads j))
        → (j : ℕ) → P (put threads i w j)
    put-Each P threads i w h k j = elim (Bool-cases (i == j)) [
      | inl e ↦ rw e h
      | inr e ↦ rw e (k j)
    ]

    taken : (p : Pool) (i : ℕ) (w : Work) → IsOrderly p → p.threads i ≡ w → AreAtomic w
    taken p i w h e = subst AreAtomic e (h.atomic i)

    turned :
        {B : Type 0} (s : Server) (o : Outcome Server B) (b : B) (t : Server)
        → o ≡ done b t
        → Reaches s o
        → Keeps s b t
    turned s o b t e h = ends (subst (Reaches s) e h)
      where
        ends : Reaches s (done b t) → Keeps s b t
        ends (returned k) = k

    stuck :
        {B : Type 0} (s : Server) (o : Outcome Server B) (f : Fault) (t : Server)
        → o ≡ fault f t
        → Reaches s o
        → Atomics s t
    stuck {B} s o f t e h = ends (subst (Reaches s) e h)
      where
        ends : Reaches {A = B} s (fault f t) → Atomics s t
        ends (stopped k) = k

    abbrev IsBlocked : Work → Type 0
    IsBlocked finished = ⊥
    IsBlocked blocked = Unit {0}
    IsBlocked (next m k) = ⊥

    put_same : (threads : ℕ → Work) (i : ℕ) (w : Work) → put threads i w i ≡ w
    put_same threads i w = ground arith

    -- A thread that is not blocked and takes a turn leaves the blocked ones as they are.
    still_blocked :
        (threads : ℕ → Work) (i j : ℕ) (v w : Work)
        → threads i ≡ v
        → (IsBlocked v → ⊥)
        → threads j ≡ blocked
        → put threads i w j ≡ blocked
    still_blocked threads i j v w e n b = elim (Bool-cases (i == j)) [
      | inl y ↦
          let same : i ≡ j = ground (arith, y) in
          absurd (n (subst IsBlocked (sym b ∙ ap threads (sym same) ∙ e) tt))
      | inr y ↦ rw y b
    ]

    kept_unlocked :
        (p : Pool) (i : ℕ) (v w : Work) (s : Server)
        → p.threads i ≡ v
        → (IsBlocked v → ⊥)
        → s.rooms_locked ≡ p.server.rooms_locked
        → UnlockedOrBlocked p
        → UnlockedOrBlocked (record { server = s; threads = put p.threads i w })
    kept_unlocked p i v w s e n same (inl h) = inl (same ∙ h)
    kept_unlocked p i v w s e n same (inr (j, b)) = inr (j, still_blocked p.threads i j v w e n b)

    Turn-IsOrderly : {p q : Pool} → Turn p q → IsOrderly p → IsOrderly q
    unfolding AreAtomic
    Turn-IsOrderly {p} (connect i fd chunks e) h = record {
      reached = h.reached;
      unlocked =
          kept_unlocked p i finished (client_work chunks fd) p.server e (λ x. x) refl h.unlocked;
      atomic =
          put-Each AreAtomic p.threads i _
            (in_parts-AreAtomic (handle_client-IsAtomic chunks fd) _ λ _. tt) h.atomic;
    }
    Turn-IsOrderly {p} (turn i m k b s e f) h =
        let (atomic, others) = taken p i (next m k) h e in
        let (l, same) = turned p.server (m p.server) b s f (atomic p.server) in
        record {
          reached = Atomics-append h.reached l;
          unlocked = kept_unlocked p i (next m k) (k b) s e (λ x. x) same h.unlocked;
          atomic = put-Each AreAtomic p.threads i _ (others b) h.atomic;
        }
    Turn-IsOrderly {p} (stop i m k f s e g) h =
        let (atomic, others) = taken p i (next m k) h e in
        record {
          reached = Atomics-append h.reached (stuck p.server (m p.server) f s g (atomic p.server));
          unlocked = inr (i, put_same p.threads i blocked);
          atomic = put-Each AreAtomic p.threads i _ tt h.atomic;
        }

    pub Turns-IsOrderly : {p : Pool} → Turns p → IsOrderly p
    unfolding AreAtomic
    Turns-IsOrderly start = record { reached = rest; unlocked = inl refl; atomic = λ i. tt }
    Turns-IsOrderly (then_turn h t) = Turn-IsOrderly t (Turns-IsOrderly h)
