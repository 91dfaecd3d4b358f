-- ===== src/Handler/Presence.antt =====
-- An action on a room that exists, and what searches find in a table after a user entered or left.
use ojalvo_chat.Prelude.{
  is_some, ℕ, ◌≡◌, refl, ap, ◌∙◌, Bool, true, false, Option, none, some, Text, ◌==◌, str_eq_refl,
  str_eq, Bool-cases, List, [], ◌∷◌, length, ◌≤◌, sym, arith, Option-cases, inl, inr,
}
use mathlib.Core.List.{filter_map}
use ojalvo_chat.Glib.{Glib}
use ojalvo_chat.UsersTable.Listing.{find_named, users_table_iter-find}
use ojalvo_chat.Cjson.{Cjson}
use ojalvo_chat.User.{User}
use ojalvo_chat.UsersTable.{
  UsersTable, users_table_contains_by_client_fd, users_table_find_by_client_fd,
  users_table_find_by_username, users_table_remove, users_table_iter, users_table_size,
  users_table_add_with_status,
}
use ojalvo_chat.UsersTable.View.{fits}
use ojalvo_chat.UsersTable.Directory.{users_table_remove-directory, add_with_status-directory}
use ojalvo_chat.Room.{Room}
use ojalvo_chat.RoomTable.{
  RoomTable, room_table_find, room_table_contains, room_table_write, room_table_remove,
}
use ojalvo_chat.RoomTable.Visits.{find-write, find-remove}
use ojalvo_chat.Server.{Server, Handler, room_table_with}
use ojalvo_chat.Server.Monad.{Network, Fault}
use ojalvo_chat.Server.Ends.{Ends, returns, Ends-bind, Ends-mono}
use ojalvo_chat.Server.Synced.{IsSound, IsSynced}
use ojalvo_chat.UsersTable.Invariant.{IsValid, users_table_remove-IsValid}
use ojalvo_chat.Handler.Rooms.{in_room}

length-filter_map :
    {A B : Type 0} (f : A → Option B) (l : List A) → length (filter_map f l) ≤ length l
unfolding filter_map
length-filter_map f [] = omega arith
length-filter_map f (x ∷ l) = elim (Option-cases (f x)) [
  | inl e ↦ rw e (omega (arith, length-filter_map f l))
  | inr (y, e) ↦ rw e (omega (arith, length-filter_map f l))
]

module _ ⦃G : Glib⦄ where
  none_listed : (us : List User) (n : Text) → length us ≡ 0 → find_named us n ≡ none
  none_listed [] n e = refl
  none_listed (u ∷ us) n e = absurd (omega (arith, e))

  length-users_table_iter : (t : UsersTable) → length (users_table_iter t) ≤ users_table_size t
  unfolding users_table_iter users_table_size
  length-users_table_iter t = length-filter_map (λ e. t.heap e.1) (G.strings.entries t.table)

  pub with_found :
      {A : Type 0} (F : Fault → Type 0) (Q : Option A → Server → Type 0) (name : Text)
      (action : Text → Room → Handler A) (s : Server) (room : Room)
      → s.rooms_locked ≡ false
      → room_table_find s.rooms name ≡ some room
      → Ends F
          (λ a t. Q (some a) (record t { rooms_locked = false }))
          (action name room (record s { rooms_locked = true }))
      → Ends F Q (room_table_with name action s)
  unfolding room_table_with
  with_found F Q name action s room e f h =
      rw (e, f) (Ends-bind (Ends-bind (Ends-mono (λ a t q. returns (returns q)) h)))

  pub removed :
      (t : UsersTable) (n : Text)
      → IsValid t
      → users_table_find_by_username (users_table_remove t n).0 n ≡ none
  removed t n v =
      ap (λ d. d.by_name n) (users_table_remove-directory t n v) ∙ ground (arith, str_eq_refl n)

  pub removed_others :
      (t : UsersTable) (n : Text)
      → IsValid t
      → (k : Text) → str_eq n k ≡ false
      → users_table_find_by_username (users_table_remove t n).0 k ≡ users_table_find_by_username t k
  removed_others t n v k e =
      ap (λ d. d.by_name k) (users_table_remove-directory t n v) ∙ ground (arith, e)

  -- A table of size zero finds nobody.
  find-none :
      (t : UsersTable) (n : Text)
      → IsValid t
      → (users_table_size t == 0) ≡ true
      → users_table_find_by_username t n ≡ none
  find-none t n v e =
      sym ((users_table_iter-find t v).1 n)
      ∙ none_listed (users_table_iter t) n (ground (arith, length-users_table_iter t, e))

  -- If a table is empty without a user, it had no other.
  pub was_last :
      (t : UsersTable) (n : Text)
      → IsValid t
      → (users_table_size (users_table_remove t n).0 == 0) ≡ true
      → (k : Text) (x : User) → users_table_find_by_username t k ≡ some x
      → str_eq n k ≡ true
  was_last t n v e k x f = elim (Bool-cases (str_eq n k)) [
    | inl y ↦ y
    | inr y ↦ absurd (
        ground (
          arith,
          removed_others t n v k y,
          find-none (users_table_remove t n).0 k (users_table_remove-IsValid t n v) e,
          f,
        ))
  ]

  pub written :
      (t : RoomTable) (n : Text) (r : Room) → room_table_find (room_table_write t n r) n ≡ some r
  written t n r = ground (arith, find-write t n r n, str_eq_refl n)

  pub dropped : (t : RoomTable) (n : Text) → room_table_find (room_table_remove t n).0 n ≡ none
  dropped t n = ground (arith, find-remove t n n, str_eq_refl n)

  -- Whoever is registered, and is not a member by descriptor, is not one by name either.
  pub not_named :
      (us t : UsersTable) (u : User)
      → IsSound us
      → IsSynced us t
      → users_table_find_by_username us u.username ≡ some u
      → users_table_contains_by_client_fd t u.socket_fd ≡ false
      → users_table_find_by_username t u.username ≡ none
  unfolding users_table_contains_by_client_fd users_table_find_by_client_fd
  not_named us t u g h e f = elim (Option-cases (users_table_find_by_username t u.username)) [
    | inl n ↦ n
    | inr (x, n) ↦
        let same = h.registered.at u.username x n in
        let (p, q) = h.sound.consistent.names u.username x n in
        absurd (ground (arith, same, q, e, f))
  ]

  pub entered :
      (t : UsersTable) (u : User)
      → IsValid t
      → fits u.username ≡ true
      → users_table_find_by_username t u.username ≡ none
      → users_table_find_by_client_fd
          (users_table_add_with_status t u.username u.socket_fd u.status).0
          u.socket_fd
        ≡ some u
  entered t u v f e =
      ap (λ d. d.by_fd u.socket_fd) (add_with_status-directory t u.username u.socket_fd u.status v)
      ∙ ground (arith, f, e)

  pub contains-find_fd :
      (t : UsersTable) (fd : ℕ)
      → IsValid t
      → users_table_contains_by_client_fd t fd ≡ is_some (users_table_find_by_client_fd t fd)
  unfolding users_table_contains_by_client_fd users_table_find_by_client_fd
  contains-find_fd t fd v = elim (Option-cases (G.ints.lookup t.table_by_fd fd)) [
    | inl e ↦ rw e refl
    | inr (p, e) ↦ rw e (ground (arith, v.indexed fd p e))
  ]

  -- Where a user entered, all other descriptors find what they found.
  pub entered_others :
      (t : UsersTable) (u : User) (fd : ℕ)
      → IsValid t
      → users_table_find_by_username t u.username ≡ none
      → (u.socket_fd == fd) ≡ false
      → users_table_find_by_client_fd
          (users_table_add_with_status t u.username u.socket_fd u.status).0
          fd
        ≡ users_table_find_by_client_fd t fd
  entered_others t u fd k e f =
      ap (λ d. d.by_fd fd) (add_with_status-directory t u.username u.socket_fd u.status k)
      ∙ ground (arith, f, e)

module _ ⦃G : Glib⦄ ⦃C : Cjson⦄ ⦃N : Network⦄ where
  pub in_room-Ends :
      (F : Fault → Type 0) (Q : Bool → Server → Type 0) (operation name : Text) (fd : ℕ)
      (act : User → Handler Bool) (s : Server) (room : Room) (u : User)
      → room_table_find s.rooms name ≡ some room
      → users_table_find_by_client_fd s.users fd ≡ some u
      → Ends F Q (act u s)
      → Ends F Q (in_room operation name fd act s)
  unfolding in_room room_table_contains room_table_find
  in_room-Ends F Q operation name fd act s room u e f h =
      Ends-bind (returns (rw e (Ends-bind (returns (rw f h)))))
