-- ===== src/Server/Ends.antt =====
-- How an action ends: with a result and a state that satisfy `Q`, or at a fault that `F` allows.
use ojalvo_chat.Server.Monad.{Fault, Outcome, Action, done, fault, continue}

pub data Ends {S A : Type 0} (F : Fault → Type 0) (Q : A → S → Type 0) : Outcome S A → Type 0 where
  returns : {a : A} {s : S} → Q a s → Ends F Q (done a s)
  stops : {f : Fault} {s : S} → F f → Ends F Q (fault f s)

-- The rest of an action after a part that ends in a state from which the rest ends in `Q`.
pub Ends-bind :
    {S A B : Type 0} {F : Fault → Type 0} {Q : B → S → Type 0} {m : Outcome S A}
    {k : A → Action S B}
    → Ends F (λ a s. Ends F Q (k a s)) m
    → Ends F Q (continue m k)
unfolding continue
Ends-bind (returns h) = h
Ends-bind (stops h) = stops h

pub Ends-mono :
    {S A : Type 0} {F : Fault → Type 0} {R Q : A → S → Type 0} {m : Outcome S A}
    → ((a : A) (s : S) → R a s → Q a s)
    → Ends F R m
    → Ends F Q m
Ends-mono f (returns h) = returns (f _ _ h)
Ends-mono f (stops h) = stops h

-- What stops at no fault stops at none that is not allowed.
pub anyhow :
    {S A : Type 0} {F : Fault → Type 0} {Q : A → S → Type 0} {m : Outcome S A}
    → Ends (λ f. ⊥) Q m
    → Ends F Q m
anyhow (returns h) = returns h
anyhow (stops h) = absurd h

-- What stops at a fault of `F` stops at one of `H`.
pub Ends-allow :
    {S A : Type 0} {F H : Fault → Type 0} {Q : A → S → Type 0} {m : Outcome S A}
    → ((f : Fault) → F f → H f)
    → Ends F Q m
    → Ends H Q m
Ends-allow k (returns h) = returns h
Ends-allow k (stops h) = stops (k _ h)
