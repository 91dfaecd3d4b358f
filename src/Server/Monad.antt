-- ===== src/Server/Monad.antt =====
-- Actions on the server's state: they may stop at a fault, and they leave a trace on the sockets.
use ojalvo_chat.Prelude.{ℕ, Bool, List, Text}

-- A NULL pointer is passed where a string is read, a mutex is locked by the thread that holds it, or
-- something is freed that is not allocated.
pub data Fault : Type 0 where
  null_pointer deadlock bad_free : Fault

-- What the kernel sees: `send` of some bytes to a descriptor, and whether it returned -1 or a
-- count; `close` of a descriptor.
pub data Event : Type 0 where
  sent : ℕ → Text → Bool → Event
  closed : ℕ → Event

-- Whether a call of `send` succeeds, as the network chooses; it may depend on all that happened.
pub record Network : Type 0 where
  pub accepts : List Event → ℕ → Text → Bool

-- A result and the state that is left, or a fault and the state in which the thread stands then.
pub data Outcome {ℓ} (S A : Type ℓ) : Type ℓ where
  done : A → S → Outcome S A
  fault : Fault → S → Outcome S A

abbrev pub Action {ℓ} : Type ℓ → Type ℓ → Type ℓ
Action S A = S → Outcome S A

module _ {ℓ} {S A : Type ℓ} where
  abbrev pub pure : A → Action S A
  pure a s = done a s

  abbrev pub raise : Fault → Action S A
  raise f s = fault f s

  abbrev pub gets : (S → A) → Action S A
  gets f s = done (f s) s

module _ {ℓ} {S A B : Type ℓ} where
  unfoldable pub continue : Outcome S A → (A → Action S B) → Outcome S B
  continue (done a s) k = k a s
  continue (fault f s) k = fault f s

  infixl 10 ◌>>=◌ ◌>>◌
  abbrev pub ◌>>=◌ : Action S A → (A → Action S B) → Action S B
  ◌>>=◌ m k s = continue (m s) k

  abbrev pub ◌>>◌ : Action S A → Action S B → Action S B
  m >> n = m >>= λ _. n
