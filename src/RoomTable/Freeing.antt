-- ===== src/RoomTable/Freeing.antt =====
-- What destroying rooms frees.
use ojalvo_chat.Prelude.{
  ℕ, ◌≡◌, refl, ◌∙◌, List, [], ◌∷◌, ◌++◌, All, Option, none, some, Text, str_eq, str_eq_refl,
  str_eq_iff, sym, arith,
}
use ojalvo_chat.Glib.{Glib, find_key, Distinct}
use ojalvo_chat.User.{User}
use ojalvo_chat.UsersTable.Invariant.{IsValid}
use ojalvo_chat.UsersTable.Freeing.{users_table_destroy-none}
use ojalvo_chat.Room.{Room, room_destroy}
use ojalvo_chat.RoomTable.{RoomTable, room_table_find, free_rooms, room_table_destroy}

abbrev pub AreEmpty : List (ℕ → Option User) → Type 0
AreEmpty = All λ heap. (p : ℕ) → heap p ≡ none

AreEmpty-append : (xs ys : List (ℕ → Option User)) → AreEmpty xs → AreEmpty ys → AreEmpty (xs ++ ys)
AreEmpty-append [] ys h k = k
AreEmpty-append (x ∷ xs) ys (e, h) k = (e, AreEmpty-append xs ys h k)

module _ ⦃G : Glib⦄ where
  room_destroy-none :
      (room : Room)
      → IsValid room.members
      → IsValid room.guests
      → (heaps : List (ℕ → Option User)) × (room_destroy room ≡ some heaps) × AreEmpty heaps
  unfolding room_destroy
  room_destroy-none room v w =
      let (m, e, h) = users_table_destroy-none room.members v in
      let (g, f, k) = users_table_destroy-none room.guests w in
      (m ∷ g ∷ [], rw (e, f) refl, (h, (k, tt)))

  HasValid : List (Text × Room) → Type 0
  HasValid pairs =
      (name : Text) (room : Room)
      → find_key str_eq pairs name ≡ some room
      → IsValid room.members × IsValid room.guests

  rest_HasValid :
      (name : Text) (room : Room) (rest : List (Text × Room))
      → find_key str_eq rest name ≡ none
      → HasValid ((name, room) ∷ rest)
      → HasValid rest
  unfolding HasValid
  rest_HasValid name room rest d h n r e = h n r (ground (arith, e, d, str_eq_iff name n))

  free_rooms-none :
      (pairs : List (Text × Room))
      → Distinct str_eq pairs
      → HasValid pairs
      → (heaps : List (ℕ → Option User)) × (free_rooms pairs ≡ some heaps) × AreEmpty heaps
  unfolding free_rooms HasValid
  free_rooms-none [] d h = ([], refl, tt)
  free_rooms-none ((name, room) ∷ rest) (d, ds) h =
      let valid = h name room (rw (str_eq_refl name) refl) in
      let (xs, e, k) = room_destroy-none room valid.0 valid.1 in
      let (ys, f, l) = free_rooms-none rest ds (rest_HasValid name room rest d h) in
      (xs ++ ys, rw (e, free_rooms, f) refl, AreEmpty-append xs ys k l)

  pub room_table_destroy-none :
      (t : RoomTable)
      → ((name : Text) (room : Room)
          → room_table_find t name ≡ some room
          → IsValid room.members × IsValid room.guests)
      → (heaps : List (ℕ → Option User)) × (room_table_destroy t ≡ some heaps) × AreEmpty heaps
  unfolding room_table_destroy room_table_find HasValid
  room_table_destroy-none t h =
      free_rooms-none (G.strings.entries t) (G.strings.entries-Distinct t)
        (λ name room e. h name room (sym (G.strings.lookup-entries t name) ∙ e))
