-- ===== src/Message/Memory/Balance.antt =====
-- The blocks that a message of server/src/message.c holds, and message_destroy.
use ojalvo_chat.Prelude.{
  codes, ℕ, ◌+◌, ◌≤◌, ◌≡◌, refl, List, [], ◌∷◌, Option, none, some, ◌==◌, if◌then◌else◌, Bool-cases,
  Option-cases, inl, inr, arith,
}
use ojalvo_chat.Cjson.{Cjson}
use ojalvo_chat.Message.Memory.{
  Allocator, Heap, Allocating, StoredString, StoredNames, StoredJson, StoredMessage,
  stored_message_init, string_at, json_at, take_out, free, free_strings, free_names, allocate,
  message_destroy, detach_users,
}
use ojalvo_chat.Server.Monad.{Fault, Outcome, continue}
use ojalvo_chat.Server.Ends.{Ends, returns, Ends-bind, Ends-mono}

-- How many blocks of that address a pointer holds, and a list.
abbrev pub has : ℕ → Option ℕ → ℕ
has p none = 0
has p (some q) = if q == p then 1 else 0

abbrev pub count : ℕ → List ℕ → ℕ
count p [] = 0
count p (q ∷ qs) = (if q == p then 1 else 0) + count p qs

take_out-count :
    (p : ℕ) (l : List ℕ)
    → 1 ≤ count p l
    → (l' : List ℕ) × (take_out p l ≡ some l') × ((q : ℕ) → count q l ≡ has q (some p) + count q l')
unfolding take_out
take_out-count p [] h = absurd (omega (arith, h))
take_out-count p (q ∷ qs) h = elim (Bool-cases (q == p)) [
  | inl e ↦ (qs, rw e refl, λ x. ground (arith, e))
  | inr e ↦
      let (l, f, k) = take_out-count p qs (ground (arith, h, e)) in
      (q ∷ l, rw (e, take_out, f) refl, λ x. omega (arith, k x))
]

-- The blocks that are allocated are those of `r`.
abbrev pub Live : (ℕ → ℕ) → Heap → Type 0
Live r h = (p : ℕ) → count p h.live ≡ r p

pub free-Live :
    (o : Option ℕ) (h : Heap) (r : ℕ → ℕ)
    → Live (λ p. has p o + r p) h
    → Ends (λ f. ⊥) (λ _ t. Live r t) (free o h)
unfolding free
free-Live none h r k = returns λ p. omega (arith, k p)
free-Live (some q) h r k =
    let (l, e, f) = take_out-count q h.live (ground (arith, k q)) in
    rw (e, free) (returns λ p. omega (arith, f p, k p))

-- An action after a part of which the end is known.
pub after :
    {A B : Type 0} {F : Fault → Type 0} {R : A → Heap → Type 0} {Q : B → Heap → Type 0}
    {m : Outcome Heap A} {k : A → Allocating B}
    → Ends F R m
    → ((a : A) (t : Heap) → R a t → Ends F Q (k a t))
    → Ends F Q (continue m k)
after h k = Ends-bind (Ends-mono k h)

abbrev pub names_count : ℕ → List (Option StoredString) → ℕ
names_count p [] = 0
names_count p (o ∷ os) = has p (string_at o) + names_count p os

abbrev pub names_has : ℕ → Option StoredNames → ℕ
names_has p none = 0
names_has p (some u) = names_count p u.names + has p (some u.at)

free_strings-Live :
    (os : List (Option StoredString)) (h : Heap) (r : ℕ → ℕ)
    → Live (λ p. names_count p os + r p) h
    → Ends (λ f. ⊥) (λ _ t. Live r t) (free_strings os h)
unfolding free_strings
free_strings-Live [] h r k = returns λ p. omega (arith, k p)
free_strings-Live (o ∷ os) h r k = Ends-bind (
    Ends-mono (λ _ t l. free_strings-Live os t r l)
      (free-Live (string_at o) h (λ p. names_count p os + r p) λ p. omega (arith, k p)))

free_names-Live :
    (o : Option StoredNames) (h : Heap) (r : ℕ → ℕ)
    → Live (λ p. names_has p o + r p) h
    → Ends (λ f. ⊥) (λ _ t. Live r t) (free_names o h)
unfolding free_names
free_names-Live none h r k = returns λ p. omega (arith, k p)
free_names-Live (some u) h r k = Ends-bind (
    Ends-mono (λ _ t l. free-Live (some u.at) t r l)
      (free_strings-Live u.names h (λ p. has p (some u.at) + r p) λ p. omega (arith, k p)))

module _ ⦃A : Allocator⦄ where
  pub allocate-Live :
      (h : Heap) (r : ℕ → ℕ)
      → Live r h
      → Ends (λ f. ⊥) (λ o t. Live (λ p. has p o + r p) t) (allocate h)
  unfolding allocate
  allocate-Live h r k = elim (Bool-cases (A.grants h.attempts)) [
    | inl e ↦ rw e (returns λ p. omega (arith, k p))
    | inr e ↦ rw e (returns λ p. omega (arith, k p))
  ]

module _ ⦃C : Cjson⦄ where
  -- The blocks of a message, and some more.
  abbrev pub holds : StoredMessage → (ℕ → ℕ) → ℕ → ℕ
  holds m r p =
      has p (string_at m.username)
      + (has p (string_at m.operation)
          + (has p (string_at m.result)
              + (has p (string_at m.extra)
                  + (has p (string_at m.status)
                      + (has p (string_at m.text)
                          + (has p (string_at m.roomname)
                              + (has p (json_at m.users) + (names_has p m.usernames + r p))))))))

  pub message_destroy-Live :
      (m : StoredMessage) (h : Heap) (r : ℕ → ℕ)
      → Live (holds m r) h
      → Ends (λ f. ⊥) (λ m' t. (m' ≡ stored_message_init) × Live r t) (message_destroy m h)
  unfolding message_destroy
  message_destroy-Live m h r k = after (free-Live (string_at m.username) h _ k) λ _ t1 k1.
      after (free-Live (string_at m.operation) t1 _ k1) λ _ t2 k2.
        after (free-Live (string_at m.result) t2 _ k2) λ _ t3 k3.
          after (free-Live (string_at m.extra) t3 _ k3) λ _ t4 k4.
            after (free-Live (string_at m.status) t4 _ k4) λ _ t5 k5.
              after (free-Live (string_at m.text) t5 _ k5) λ _ t6 k6.
                after (free-Live (string_at m.roomname) t6 _ k6) λ _ t7 k7.
                  after (free-Live (json_at m.users) t7 _ k7) λ _ t8 k8.
                    after (free_names-Live m.usernames t8 r k8) λ _ t9 k9. returns (refl, k9)

  pub detach_users-Live :
      (tree : StoredJson) (h : Heap) (r : ℕ → ℕ)
      → Live r h
      → Ends
          (λ f. ⊥)
          (λ d t. Live (λ p. has p (json_at d.0) + r p) t × (d.1.at ≡ tree.at))
          (detach_users tree h)
  unfolding detach_users
  detach_users-Live tree h r k = elim (Option-cases (C.detach_item tree.json (codes "users")).0) [
    | inl e ↦ rw (e, detach_users) (returns ((λ p. omega (arith, k p)), refl))
    | inr (j, e) ↦ rw (e, detach_users) (returns ((λ p. omega (arith, k p)), refl))
  ]
