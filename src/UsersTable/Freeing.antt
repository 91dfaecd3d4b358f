-- ===== src/UsersTable/Freeing.antt =====
-- What users_table_destroy frees.
use ojalvo_chat.Prelude.{
  ℕ, ◌≡◌, refl, List, [], ◌∷◌, Option, none, some, Text, str_eq, str_eq_iff, arith, Option-cases,
  inl, inr,
}
use ojalvo_chat.Glib.{Glib, find_key, Distinct}
use ojalvo_chat.User.{User}
use ojalvo_chat.UsersTable.{UsersTable, store, free_values, users_table_destroy}
use ojalvo_chat.UsersTable.Invariant.{IsValid, Live}

-- The pairs are what is still to be freed: each leads to a live struct of that name, and each live
-- struct is in the pairs.
record Holds (pairs : List (Text × ℕ)) (heap : ℕ → Option User) : Type 0 where
  live : (n : Text) (p : ℕ) → find_key str_eq pairs n ≡ some p → Live (heap p) (λ u. u.username ≡ n)
  found : (p : ℕ) (u : User) → heap p ≡ some u → find_key str_eq pairs u.username ≡ some p

module _ ⦃G : Glib⦄ where
  freed_first :
      (n : Text) (p : ℕ) (rest : List (Text × ℕ)) (heap : ℕ → Option User)
      → find_key str_eq rest n ≡ none
      → Holds ((n, p) ∷ rest) heap
      → Holds rest (store heap p none)
  freed_first n p rest heap d h = record {
    live = λ m q e. ground (arith, e, d, h.live m q, h.live n p, str_eq_iff n m, str_eq_iff n n);
    found = λ q u e. ground (arith, e, h.found q u, str_eq_iff n u.username);
  }

  free_values-none :
      (pairs : List (Text × ℕ)) (heap : ℕ → Option User)
      → Distinct str_eq pairs
      → Holds pairs heap
      → (rest : ℕ → Option User) × (free_values pairs heap ≡ some rest) × ((p : ℕ) → rest p ≡ none)
  unfolding free_values
  free_values-none [] heap d h = (
    heap,
    refl,
    λ p. elim (Option-cases (heap p)) [
      | inl e ↦ e
      | inr (u, e) ↦ absurd (ground (arith, h.found p u e))
    ],
  )
  free_values-none ((n, p) ∷ rest) heap (d, ds) h = elim (Option-cases (heap p)) [
    | inl e ↦ absurd (ground (arith, e, h.live n p, str_eq_iff n n))
    | inr (u, e) ↦
        rw (e, free_values)
          (free_values-none rest (store heap p none) ds (freed_first n p rest heap d h))
  ]

  -- Destroying a table with sound pointers frees every struct, and none twice.
  pub users_table_destroy-none :
      (t : UsersTable)
      → IsValid t
      → (rest : ℕ → Option User) × (users_table_destroy t ≡ some rest) × ((p : ℕ) → rest p ≡ none)
  unfolding users_table_destroy
  users_table_destroy-none t v =
      free_values-none (G.strings.entries t.table) t.heap (G.strings.entries-Distinct t.table)
        (record {
          live = λ n p e. ground (arith, e, v.named n p, G.strings.lookup-entries t.table n);
          found =
              λ p u e. ground (arith, e, v.owned p u, G.strings.lookup-entries t.table u.username);
        })
