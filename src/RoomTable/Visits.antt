-- ===== src/RoomTable/Visits.antt =====
-- What the operations on rooms do to each room: visitors reach every room once.
use ojalvo_chat.Prelude.{
  ◌≡◌, refl, Option, none, some, Text, str_eq, str_eq_iff, List, [], ◌∷◌, arith, if◌then◌else◌,
}
use mathlib.Core.Option
use ojalvo_chat.Glib.{Glib, find_key, Distinct}
use ojalvo_chat.UsersTable.{users_table_init}
use ojalvo_chat.Room.{Room, room_init}
use ojalvo_chat.RoomTable.{
  RoomTable, visit, room_table_find, room_table_write, room_table_remove, room_table_for_each,
  room_table_add,
}

abbrev visited : {R : Type 0} → (R → R) → Option R → Option R → Option R
visited f none old = old
visited f (some r) old = some (f r)

module _ ⦃G : Glib⦄ where
  open G use {strings}

  find-visit :
      (f : Room → Room) (l : List (Text × Room)) (t : RoomTable) (n : Text)
      → Distinct str_eq l
      → strings.lookup (visit f l t) n ≡ visited f (find_key str_eq l n) (strings.lookup t n)
  unfolding visit
  find-visit f [] t n d = refl
  find-visit f ((j, r) ∷ l) t n d = ground (
    arith,
    find-visit f l (strings.insert t j (f r)) n d.1,
    strings.lookup-insert t j (f r) n,
    str_eq_iff j n,
  )

  -- room_table_for_each applies the visitor to every room, and to each once.
  pub find-for_each :
      (t : RoomTable) (f : Room → Room) (n : Text)
      → room_table_find (room_table_for_each t f) n ≡ Option.map f (room_table_find t n)
  unfolding room_table_find room_table_for_each
  find-for_each t f n = ground (
    arith,
    find-visit f (strings.entries t) t n (strings.entries-Distinct t),
    strings.lookup-entries t n,
  )

  pub find-write :
      (t : RoomTable) (n : Text) (r : Room) (m : Text)
      → room_table_find (room_table_write t n r) m
        ≡ (if str_eq n m then some r else room_table_find t m)
  unfolding room_table_find room_table_write
  find-write t n r m = strings.lookup-insert t n r m

  pub find-remove :
      (t : RoomTable) (n m : Text)
      → room_table_find (room_table_remove t n).0 m
        ≡ (if str_eq n m then none else room_table_find t m)
  unfolding room_table_find room_table_remove
  find-remove t n m = strings.lookup-remove t n m

  abbrev pub new_room : Text → Room
  new_room n = record { roomname = n; members = users_table_init; guests = users_table_init }

  -- After room_table_add returned true the name finds a new room with no members and no guests, and
  -- all other names find what they found; after it returned false nothing changed.
  pub find-add :
      (t : RoomTable) (n m : Text)
      → room_table_find (room_table_add t n).0 m ≡ (
          if (room_table_add t n).1
          then (if str_eq n m then some (new_room n) else room_table_find t m)
          else room_table_find t m)
  unfolding room_table_find room_table_add room_init
  find-add t n m = ground (arith, strings.lookup-insert t n (new_room n) m)
