-- ===== src/Message/Memory/Copying.antt =====
-- The blocks that message_from_json of server/src/message.c allocates for its copies.
use mathlib.Core.Option
use ojalvo_chat.Prelude.{
  codes, ◌&&◌, ltb, length, ℕ, ◌+◌, ap, List, [], ◌∷◌, Option, none, some, Text, Bool-cases,
  Option-cases, inl, inr, arith,
}
use ojalvo_chat.Cjson.{Cjson}
use ojalvo_chat.Message.{string_of}
use ojalvo_chat.Message.Memory.{
  Allocator, Heap, StoredJson, stored_message_init, string_at, strdup, copy_string, string_field,
  copy_items, fill_names, copy_usernames, copy_message,
}
use ojalvo_chat.Server.Monad.{done}
use ojalvo_chat.Server.Ends.{Ends, returns}
use ojalvo_chat.Message.Memory.Balance.{
  has, Live, after, names_count, names_has, holds, free-Live, allocate-Live, detach_users-Live,
}

module _ ⦃A : Allocator⦄ where
  pub strdup-Live :
      (text : Text) (h : Heap) (r : ℕ → ℕ)
      → Live r h
      → Ends (λ f. ⊥) (λ o t. Live (λ p. has p (string_at o) + r p) t) (strdup text h)
  unfolding strdup
  strdup-Live text h r k = after (allocate-Live h r k) stored
    where
      stored :
          (o : Option ℕ) (t : Heap)
          → Live (λ p. has p o + r p) t
          → Ends
              (λ f. ⊥)
              (λ s u. Live (λ p. has p (string_at s) + r p) u)
              (done (Option.map (λ n. record { at = n; text = text }) o) t)
      stored none t l = returns l
      stored (some n) t l = returns l

  module _ ⦃C : Cjson⦄ where
    copy_string-Live :
        (o : Option Text) (h : Heap) (r : ℕ → ℕ)
        → Live r h
        → Ends (λ f. ⊥) (λ s t. Live (λ p. has p (string_at s) + r p) t) (copy_string o h)
    unfolding copy_string
    copy_string-Live none h r k = returns λ p. omega (arith, k p)
    copy_string-Live (some text) h r k = strdup-Live text h r k

    copy_items-Live :
        (items : List C.Json) (h : Heap) (r : ℕ → ℕ)
        → Live r h
        → Ends (λ f. ⊥) (λ os t. Live (λ p. names_count p os + r p) t) (copy_items items h)
    unfolding copy_items
    copy_items-Live [] h r k = returns λ p. omega (arith, k p)
    copy_items-Live (item ∷ items) h r k = elim (Option-cases (C.string_value item)) [
      | inl e ↦ rw (e, copy_items) (copy_items-Live items h r k)
      | inr (text, e) ↦
          rw (e, copy_items)
            (after (strdup-Live text h r k) λ o t l.
              after (copy_items-Live items t _ l) λ os u n. returns λ p. omega (arith, n p))
    ]

    copy_usernames-Live :
        (o : Option C.Json) (h : Heap) (r : ℕ → ℕ)
        → Live r h
        → Ends (λ f. ⊥) (λ u t. Live (λ p. names_has p u + r p) t) (copy_usernames o h)
    unfolding copy_usernames fill_names
    copy_usernames-Live none h r k = returns λ p. omega (arith, k p)
    copy_usernames-Live (some array) h r k =
        elim (Bool-cases (C.is_array array && ltb 0 (length (C.array_items array)))) [
          | inr e ↦ rw e (returns λ p. omega (arith, k p))
          | inl e ↦ rw e (after (allocate-Live h r k) filled)
        ]
      where
        filled :
            (o : Option ℕ) (t : Heap)
            → Live (λ p. has p o + r p) t
            → Ends
                (λ f. ⊥)
                (λ u v. Live (λ p. names_has p u + r p) v)
                (fill_names o (C.array_items array) t)
        filled none t l = returns l
        filled (some n) t l =
            after (copy_items-Live (C.array_items array) t _ l)
              λ os v q. returns λ p. omega (arith, q p)

    pub copy_message-Live :
        (tree : StoredJson) (type_item : C.Json) (h : Heap) (r : ℕ → ℕ)
        → Live (λ p. has p (some tree.at) + r p) h
        → Ends (λ f. ⊥) (λ m t. Live (holds m r) t) (copy_message tree type_item h)
    unfolding copy_message string_field
    copy_message-Live tree type_item h r k = after (field (codes "username") h _ k) λ o1 t1 k1.
        after (field (codes "operation") t1 _ k1) λ o2 t2 k2.
          after (field (codes "result") t2 _ k2) λ o3 t3 k3.
            after (field (codes "extra") t3 _ k3) λ o4 t4 k4.
              after (field (codes "status") t4 _ k4) λ o5 t5 k5.
                after (field (codes "text") t5 _ k5) λ o6 t6 k6.
                  after (field (codes "roomname") t6 _ k6) λ o7 t7 k7.
                    after (detach_users-Live tree t7 _ k7) λ d t8 (k8, same).
                      after
                        (copy_usernames-Live (C.get_object_item d.1.json (codes "usernames")) t8 _
                          k8)
                        λ o9 t9 k9.
                          after
                            (free-Live (some d.1.at) t9
                              (holds
                                (record stored_message_init {
                                  username = o1;
                                  operation = o2;
                                  result = o3;
                                  extra = o4;
                                  status = o5;
                                  text = o6;
                                  roomname = o7;
                                  users = d.0;
                                  usernames = o9;
                                })
                                r)
                              λ p. omega (arith, k9 p, ap (λ a. has p (some a)) same))
                            λ _ t10 k10. returns k10
      where
        field :
            (name : Text) (t : Heap) (q : ℕ → ℕ)
            → Live q t
            → Ends
                (λ f. ⊥)
                (λ o u. Live (λ p. has p (string_at o) + q p) u)
                (copy_string (string_of (C.get_object_item tree.json name)) t)
        field name t q l = copy_string-Live _ t q l
