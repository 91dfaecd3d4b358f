-- ===== src/Message/Memory/Writing.antt =====
-- server/src/message.c: message_to_json with the memory that it allocates and frees.
use mathlib.Core.Option
use ojalvo_chat.Prelude.{
  ℕ, ◌+◌, ◌≡◌, refl, ◌&&◌, Option, none, some, Text, codes, length, ltb, ◌==◌, if◌then◌else◌,
  Bool-cases, Option-cases, inl, inr, arith,
}
use ojalvo_chat.Cjson.{Cjson}
use ojalvo_chat.Server.Monad.{pure, ◌>>=◌, ◌>>◌}
use ojalvo_chat.Server.Ends.{Ends, returns, Ends-mono}
use ojalvo_chat.Message.{Message, add_string, add_fields}
use ojalvo_chat.Message.Kind.{message_type_to_string}
use ojalvo_chat.Message.Memory.{
  Allocator, Allocating, Heap, StoredString, string_at, free, allocate, strdup,
}
use ojalvo_chat.Message.Memory.Balance.{has, count, Live, after, free-Live}
use ojalvo_chat.Message.Memory.Copying.{strdup-Live}

module _ ⦃C : Cjson⦄ where
  -- The object with its fields; cJSON_AddStringToObject adds nothing for NULL. What cJSON allocates
  -- inside a tree is taken to be there.
  unfoldable pub filled_object : Option StoredString → Message → C.Json
  filled_object type_name msg =
      add_fields msg
        (add_string (codes "type") (Option.map (λ s. s.text) type_name) C.create_object)

  -- The text for `out_json`, or `none` where it does not fit, after which the printed text is freed.
  unfoldable pub copy_out : Option StoredString → ℕ → Allocating (Option Text)
  copy_out none out_json_size = pure none
  copy_out (some printed) out_json_size = do
    free (some printed.at)
    pure (if ltb out_json_size (length printed.text + 1) then none else some printed.text)

  module _ ⦃A : Allocator⦄ where
    -- cJSON_PrintUnformatted
    unfoldable pub print_tree : C.Json → Allocating (Option StoredString)
    print_tree json = elim (C.print json) [ none ↦ pure none | some text ↦ strdup text ]

    unfoldable pub write_object : Option ℕ → Message → ℕ → Allocating (Option Text)
    write_object none msg out_json_size = pure none
    write_object (some json) msg out_json_size = do
      type_name ← strdup (message_type_to_string msg.kind)
      printed ← print_tree (filled_object type_name msg)
      free (some json)
      copy_out printed out_json_size

    unfoldable pub message_to_json_into : Message → ℕ → Allocating (Option Text)
    message_to_json_into msg out_json_size = do json ← allocate; write_object json msg out_json_size

    -- The copy of the name of the type, if there was memory for it and for the object.
    abbrev pub name_count : Heap → ℕ → ℕ
    name_count h p =
        if A.grants h.attempts && A.grants (h.attempts + 1)
        then (if h.attempts + 1 == p then 1 else 0)
        else 0

    print_tree-Live :
        (json : C.Json) (h : Heap) (r : ℕ → ℕ)
        → Live r h
        → Ends (λ f. ⊥) (λ o t. Live (λ p. has p (string_at o) + r p) t) (print_tree json h)
    unfolding print_tree
    print_tree-Live json h r k = elim (Option-cases (C.print json)) [
      | inl e ↦ rw (e, print_tree) (returns λ p. omega (arith, k p))
      | inr (text, e) ↦ rw (e, print_tree) (strdup-Live text h r k)
    ]

    copy_out-Live :
        (o : Option StoredString) (size : ℕ) (h : Heap) (r : ℕ → ℕ)
        → Live (λ p. has p (string_at o) + r p) h
        → Ends (λ f. ⊥) (λ _ t. Live r t) (copy_out o size h)
    unfolding copy_out
    copy_out-Live none size h r k = returns λ p. omega (arith, k p)
    copy_out-Live (some s) size h r k = after (free-Live (some s.at) h r k) λ _ t l. returns l

    -- An allocation says in the heap that it leaves whether it succeeded.
    allocate_at :
        (h : Heap) (r : ℕ → ℕ)
        → Live r h
        → Ends
            (λ f. ⊥)
            (λ o t.
              Live (λ p. has p o + r p) t
              × (t.attempts ≡ h.attempts + 1)
              × ((p : ℕ)
                  → has p o
                    ≡ (if A.grants h.attempts then (if h.attempts == p then 1 else 0) else 0)))
            (allocate h)
    unfolding allocate
    allocate_at h r k = elim (Bool-cases (A.grants h.attempts)) [
      | inl e ↦ rw e (returns ((λ p. omega (arith, k p)), refl, (λ p. refl)))
      | inr e ↦ rw e (returns ((λ p. omega (arith, k p)), refl, (λ p. refl)))
    ]

    strdup_at :
        (text : Text) (h : Heap) (r : ℕ → ℕ)
        → Live r h
        → Ends
            (λ f. ⊥)
            (λ o t.
              Live (λ p. has p (string_at o) + r p) t
              × ((p : ℕ)
                  → has p (string_at o)
                    ≡ (if A.grants h.attempts then (if h.attempts == p then 1 else 0) else 0)))
            (strdup text h)
    unfolding strdup
    strdup_at text h r k = after (allocate_at h r k) copied
      where
        copied :
            (o : Option ℕ) (t : Heap)
            → Live (λ p. has p o + r p) t
              × (t.attempts ≡ h.attempts + 1)
              × ((p : ℕ)
                  → has p o
                    ≡ (if A.grants h.attempts then (if h.attempts == p then 1 else 0) else 0))
            → Ends
                (λ f. ⊥)
                (λ s u.
                  Live (λ p. has p (string_at s) + r p) u
                  × ((p : ℕ)
                      → has p (string_at s)
                        ≡ (if A.grants h.attempts then (if h.attempts == p then 1 else 0) else 0)))
                (pure (Option.map (λ n. record { at = n; text = text }) o) t)
        copied none t (l, _, e) = returns (l, e)
        copied (some n) t (l, _, e) = returns (l, e)

    -- Whichever allocations fail, message_to_json frees nothing that is not allocated, and
    -- afterwards the blocks from before are allocated and, where there was memory for the object
    -- and for it, the copy of the name of the message's type, which stays allocated.
    pub message_to_json-leaves :
        (msg : Message) (out_json_size : ℕ) (h : Heap)
        → Ends
            (λ f. ⊥)
            (λ o t. (p : ℕ) → count p t.live ≡ name_count h p + count p h.live)
            (message_to_json_into msg out_json_size h)
    unfolding message_to_json_into write_object
    message_to_json-leaves msg size h =
        after (allocate_at h (λ p. count p h.live) λ p. refl) written
      where
        written :
            (o : Option ℕ) (t : Heap)
            → Live (λ p. has p o + count p h.live) t
              × (t.attempts ≡ h.attempts + 1)
              × ((p : ℕ)
                  → has p o
                    ≡ (if A.grants h.attempts then (if h.attempts == p then 1 else 0) else 0))
            → Ends
                (λ f. ⊥)
                (λ _ u. (p : ℕ) → count p u.live ≡ name_count h p + count p h.live)
                (write_object o msg size t)
        written none t (l, n, e) = elim (Bool-cases (A.grants h.attempts)) [
          | inl f ↦ absurd (ground (arith, e h.attempts, f))
          | inr f ↦ returns λ p. ground (arith, l p, f)
        ]
        written (some json) t (l, n, e) =
            after (strdup_at (message_type_to_string msg.kind) t _ l) λ o1 t1 (l1, e1).
              after (print_tree-Live (filled_object o1 msg) t1 _ l1) λ o2 t2 l2.
                after
                  (free-Live (some json) t2
                    (λ p. has p (string_at o2) + (has p (string_at o1) + count p h.live))
                    λ p. omega (arith, l2 p))
                  λ _ t3 l3.
                    Ends-mono (λ _ t4 l4 p. ground (arith, l4 p, e json, rw n at (e1 p)))
                      (copy_out-Live o2 size t3 _ l3)
