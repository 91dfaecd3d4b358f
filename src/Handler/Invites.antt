-- ===== src/Handler/Invites.antt =====
-- Which users an invitation finds, and which name it misses.
use mathlib.Core.List.{map}
use ojalvo_chat.Prelude.{
  ◌≡◌, refl, Bool, true, false, ◌||◌, List, [], ◌∷◌, none, Text, str_eq, str_eq_iff, arith,
  Option-cases, inl, inr,
}
use ojalvo_chat.Glib.{Glib}
use ojalvo_chat.User.{User}
use ojalvo_chat.UsersTable.{UsersTable, users_table_find_by_username}
use ojalvo_chat.Server.Synced.{IsSound}
use ojalvo_chat.Handler.Rooms.{Invited, missing, found, add_found, find_invited}

module _ ⦃G : Glib⦄ where
  abbrev pub is_among : Text → List Text → Bool
  is_among n [] = false
  is_among n (m ∷ names) = str_eq m n || is_among n names

  -- A missing name is one of those asked for, and nobody has it; the users that are found have
  -- the names asked for, in order.
  abbrev pub Answers : UsersTable → List Text → Invited → Type 0
  Answers t names (missing n) =
      (is_among n names ≡ true) × (users_table_find_by_username t n ≡ none)
  Answers t names (found us) = map (λ u. u.username) us ≡ names

  add_found-Answers :
      (t : UsersTable) (u : User) (n : Text) (names : List Text) (i : Invited)
      → u.username ≡ n
      → Answers t names i
      → Answers t (n ∷ names) (add_found u i)
  add_found-Answers t u n names (missing m) e (h, k) = (ground (arith, h), k)
  add_found-Answers t u n names (found us) e h = ground (arith, h, e)

  -- In a sound table, the search for the invited users either finds for every name, in order, a
  -- user of that name, or comes back with one of the names that no user has.
  pub find_invited-Answers :
      (t : UsersTable) (names : List Text) → IsSound t → Answers t names (find_invited t names)
  unfolding find_invited
  find_invited-Answers t [] h = refl
  find_invited-Answers t (n ∷ names) h = elim (Option-cases (users_table_find_by_username t n)) [
    | inl e ↦ rw (e, find_invited) (ground (arith, str_eq_iff n n), e)
    | inr (u, e) ↦
        rw (e, find_invited)
          (add_found-Answers t u n names _ ((h.consistent.names n u e).0)
            (find_invited-Answers t names h))
  ]
