-- ===== src/UsersTable/Listing.antt =====
-- What a traversal of a users table meets.
use mathlib.Core.List.{filter_map}
use ojalvo_chat.Prelude.{
  ℕ, ◌≡◌, refl, ◌∙◌, List, [], ◌∷◌, Option, none, some, Text, str_eq, str_eq_iff, str_eq_refl,
  if◌then◌else◌, arith, Option-cases, Bool-cases, inl, inr,
}
use ojalvo_chat.Glib.{Glib, find_key, Distinct}
use ojalvo_chat.User.{User}
use ojalvo_chat.UsersTable.{UsersTable, deref, users_table_iter, users_table_find_by_username}
use ojalvo_chat.UsersTable.Invariant.{IsValid, Live}

-- The first user of a list with the name, and the names of the users that come after it.
abbrev pub find_named : List User → Text → Option User
find_named [] n = none
find_named (u ∷ us) n = if str_eq u.username n then some u else find_named us n

-- No name stands twice.
abbrev pub EachOnce : List User → Type 0
EachOnce [] = Unit {0}
EachOnce (u ∷ us) = (find_named us u.username ≡ none) × EachOnce us

abbrev Names : (ℕ → Option User) → List (Text × ℕ) → Type 0
Names heap l =
    (n : Text) (p : ℕ) → find_key str_eq l n ≡ some p → Live (heap p) (λ u. u.username ≡ n)

abbrev at_pointer : (ℕ → Option User) → Option ℕ → Option User
at_pointer heap none = none
at_pointer heap (some p) = heap p

Names-rest :
    (heap : ℕ → Option User) (j : Text) (p : ℕ) (l : List (Text × ℕ))
    → find_key str_eq l j ≡ none
    → Names heap ((j, p) ∷ l)
    → Names heap l
Names-rest heap j p l d h n q e = elim (Bool-cases (str_eq j n)) [
  | inl f ↦ absurd (ground (arith, d, e, (str_eq_iff j n).0 f))
  | inr f ↦ h n q (ground (arith, f, e))
]

Names-first :
    (heap : ℕ → Option User) (j : Text) (p : ℕ) (l : List (Text × ℕ))
    → Names heap ((j, p) ∷ l)
    → Live (heap p) (λ u. u.username ≡ j)
Names-first heap j p l h = h j p (ground (arith, str_eq_refl j))

listed :
    (heap : ℕ → Option User) (l : List (Text × ℕ))
    → Distinct str_eq l
    → Names heap l
    → (n : Text)
    → find_named (filter_map (λ e. heap e.1) l) n ≡ at_pointer heap (find_key str_eq l n)
unfolding filter_map
listed heap [] d h n = refl
listed heap ((j, p) ∷ l) (d, ds) h n = elim (Option-cases (heap p)) [
  | inl e ↦ absurd (rw e at (Names-first heap j p l h))
  | inr (u, e) ↦
      ground (arith, e, Names-first heap j p l h, listed heap l ds (Names-rest heap j p l d h) n)
]

listed-EachOnce :
    (heap : ℕ → Option User) (l : List (Text × ℕ))
    → Distinct str_eq l
    → Names heap l
    → EachOnce (filter_map (λ e. heap e.1) l)
unfolding filter_map
listed-EachOnce heap [] d h = tt
listed-EachOnce heap ((j, p) ∷ l) (d, ds) h = elim (Option-cases (heap p)) [
  | inl e ↦ absurd (rw e at (Names-first heap j p l h))
  | inr (u, e) ↦ rw e (
    ground (
      arith,
      e,
      Names-first heap j p l h,
      d,
      listed heap l ds (Names-rest heap j p l d h) u.username,
    ),
    listed-EachOnce heap l ds (Names-rest heap j p l d h),
  )
]

module _ ⦃G : Glib⦄ where
  -- A traversal of a table with sound pointers meets each name once, and it meets exactly the users
  -- that searches by name find.
  pub users_table_iter-find :
      (t : UsersTable)
      → IsValid t
      → EachOnce (users_table_iter t)
        × ((n : Text) → find_named (users_table_iter t) n ≡ users_table_find_by_username t n)
  unfolding users_table_iter users_table_find_by_username
  users_table_iter-find t v = (
    listed-EachOnce t.heap entries (G.strings.entries-Distinct t.table) names,
    λ n. listed t.heap entries (G.strings.entries-Distinct t.table) names n ∙ found n,
  )
    where
      entries : List (Text × ℕ)
      entries = G.strings.entries t.table

      names : Names t.heap entries
      names n p e = v.named n p (ground (arith, e, G.strings.lookup-entries t.table n))

      same : (o : Option ℕ) → at_pointer t.heap o ≡ deref t o
      same none = refl
      same (some p) = refl

      found :
          (n : Text)
          → at_pointer t.heap (find_key str_eq entries n) ≡ deref t (G.strings.lookup t.table n)
      found n = rw (G.strings.lookup-entries t.table n) (same (G.strings.lookup t.table n))
