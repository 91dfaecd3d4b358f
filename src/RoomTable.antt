-- ===== src/RoomTable.antt =====
-- server/src/room_table.c: the rooms by name. Each function is given here without its lock; the
-- lock, which is held while a room action or a visitor runs, is in Server. A pointer to a room is
-- the key under which the table holds it, since the table is the only place that holds rooms.
pub mod Visits
pub mod Freeing
use mathlib.Core.List.{foldl}
use ojalvo_chat.Prelude.{
  Bool, true, false, Option, none, some, Text, is_some, if◌then◌else◌, ℕ, List, [], ◌∷◌, ◌++◌,
}
use ojalvo_chat.Prelude.Options.{◌>>=◌}
use ojalvo_chat.Glib.{Glib}
use ojalvo_chat.User.{User}
use ojalvo_chat.Room.{Room, room_init, room_destroy}

module _ ⦃G : Glib⦄ where
  open G use {strings}

  abbrev pub RoomTable : Type 0
  RoomTable = strings.Table Room

  abbrev pub room_table_init : RoomTable
  room_table_init = strings.new

  unfoldable pub room_table_add : RoomTable → Text → RoomTable × Bool
  room_table_add t roomname = elim (room_init (some roomname)) [
    | none ↦ (t, false)
    | some room ↦
        if is_some (strings.lookup t roomname)
        then (t, false)
        else (strings.insert t roomname room, true)
  ]

  unfoldable pub room_table_contains : RoomTable → Text → Bool
  room_table_contains t roomname = is_some (strings.lookup t roomname)

  unfoldable pub room_table_find : RoomTable → Text → Option Room
  room_table_find t roomname = strings.lookup t roomname

  -- A write through the pointer to the room under a key.
  unfoldable pub room_table_write : RoomTable → Text → Room → RoomTable
  room_table_write t roomname room = strings.insert t roomname room

  unfoldable pub room_table_remove : RoomTable → Text → RoomTable × Bool
  room_table_remove t roomname = (strings.remove t roomname, is_some (strings.lookup t roomname))

  visit : (Room → Room) → List (Text × Room) → RoomTable → RoomTable
  visit visitor [] t = t
  visit visitor ((name, room) ∷ rest) t = visit visitor rest (strings.insert t name (visitor room))

  -- The visitors of the program change the room that they are given and nothing else.
  unfoldable pub room_table_for_each : RoomTable → (Room → Room) → RoomTable
  unfolding visit
  room_table_for_each t visitor = visit visitor (strings.entries t) t

  -- `room_free` of the values of a hash table's pairs.
  free_rooms : List (Text × Room) → Option (List (ℕ → Option User))
  free_rooms [] = some []
  free_rooms ((roomname, room) ∷ rest) = do
    heaps ← room_destroy room
    others ← free_rooms rest
    some (heaps ++ others)

  -- The heaps of all rooms as they are left.
  unfoldable pub room_table_destroy : RoomTable → Option (List (ℕ → Option User))
  unfolding free_rooms
  room_table_destroy t = free_rooms (strings.entries t)
