-- ===== src/Message/Memory/Freed.antt =====
-- What is allocated after message_from_json and message_destroy of server/src/message.c.
use ojalvo_chat.Prelude.{
  ℕ, ◌+◌, ◌≡◌, refl, Bool, false, Option, none, some, Text, codes, ◌==◌, if◌then◌else◌, Bool-cases,
  Option-cases, inl, inr, arith,
}
use ojalvo_chat.Cjson.{Cjson}
use ojalvo_chat.Server.Ends.{Ends, returns, Ends-bind}
use ojalvo_chat.Message.Memory.{
  Allocator, json_at, Heap, StoredJson, StoredMessage, stored_message_init, allocate,
  message_destroy, parse_tree, read_tree, message_from_json_into,
}
use ojalvo_chat.Message.Memory.Balance.{has, count, Live, after, message_destroy-Live}
use ojalvo_chat.Message.Memory.Copying.{copy_message-Live}

module _ ⦃A : Allocator⦄ ⦃C : Cjson⦄ where
  -- The tree that cJSON_Parse returned, if it returned one.
  abbrev pub tree_count : Text → Heap → ℕ → ℕ
  tree_count json_raw h p = elim (C.parse json_raw) [
    | none ↦ 0
    | some json ↦ if A.grants h.attempts then (if h.attempts == p then 1 else 0) else 0
  ]

  -- Destroying the message leaves the blocks of `r`.
  abbrev Frees : (ℕ → ℕ) → StoredMessage → Heap → Type 0
  Frees r msg t =
      Ends (λ f. ⊥) (λ m u. (m ≡ stored_message_init) × Live r u) (message_destroy msg t)

  abbrev remaining : Text → Heap → Bool → ℕ → ℕ
  remaining json_raw h ok p = (if ok then 0 else tree_count json_raw h p) + count p h.live

  parse_tree-Live :
      (json_raw : Text) (h : Heap)
      → Ends
          (λ f. ⊥)
          (λ o t.
            Live (λ p. has p (json_at o) + count p h.live) t
            × ((p : ℕ) → has p (json_at o) ≡ tree_count json_raw h p))
          (parse_tree json_raw h)
  unfolding parse_tree allocate
  parse_tree-Live json_raw h = elim (Option-cases (C.parse json_raw)) [
    | inl e ↦ rw (e, parse_tree) (returns ((λ p. omega arith), (λ p. rw (e, tree_count) refl)))
    | inr (json, e) ↦ elim (Bool-cases (A.grants h.attempts)) [
      | inl f ↦
          rw (e, parse_tree, f, allocate)
            (Ends-bind (returns (returns ((λ p. omega arith), (λ p. rw (e, tree_count, f) refl)))))
      | inr f ↦
          rw (e, parse_tree, f, allocate)
            (Ends-bind (returns (returns ((λ p. omega arith), (λ p. rw (e, tree_count, f) refl)))))
    ]
  ]

  refused :
      (json_raw : Text) (h t : Heap)
      → Live (remaining json_raw h false) t
      → Frees (remaining json_raw h false) stored_message_init t
  refused json_raw h t l = message_destroy-Live stored_message_init t _ λ p. omega (arith, l p)

  -- For any text, and whichever allocations fail, message_from_json frees nothing that is not
  -- allocated, nor does message_destroy after it, which sets the message to its initial state;
  -- where message_from_json returned true, the same blocks are allocated then as before, and where
  -- it returned false, these and the tree that cJSON_Parse returned, if it returned one.
  pub message_from_json-frees :
      (json_raw : Text) (h : Heap)
      → Ends
          (λ f. ⊥)
          (λ (ok, msg) t.
            Ends
              (λ f. ⊥)
              (λ m u.
                (m ≡ stored_message_init)
                × ((p : ℕ)
                    → count p u.live
                      ≡ (if ok then 0 else tree_count json_raw h p) + count p h.live))
              (message_destroy msg t))
          (message_from_json_into json_raw h)
  unfolding message_from_json_into read_tree
  message_from_json-frees json_raw h = after (parse_tree-Live json_raw h) taken
    where
      taken :
          (o : Option StoredJson) (t : Heap)
          → Live (λ p. has p (json_at o) + count p h.live) t
            × ((p : ℕ) → has p (json_at o) ≡ tree_count json_raw h p)
          → Ends (λ f. ⊥) (λ (ok, msg) u. Frees (remaining json_raw h ok) msg u) (read_tree o t)
      taken none t (l, e) = returns (refused json_raw h t λ p. omega (arith, l p, e p))
      taken (some tree) t (l, e) = elim (Bool-cases (C.is_object tree.json)) [
        | inr f ↦ rw f (returns (refused json_raw h t λ p. omega (arith, l p, e p)))
        | inl f ↦ elim (Option-cases (C.get_object_item tree.json (codes "type"))) [
          | inl g ↦ rw (f, g) (returns (refused json_raw h t λ p. omega (arith, l p, e p)))
          | inr (type_item, g) ↦
              rw (f, g)
                (after (copy_message-Live tree type_item t (λ p. count p h.live) l)
                  λ m u k. returns (message_destroy-Live m u _ λ p. omega (arith, k p)))
        ]
      ]
