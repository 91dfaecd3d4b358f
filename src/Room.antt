-- ===== src/Room.antt =====
-- server/src/room.c and room.h: a room, with its members and its guests.
use ojalvo_chat.Prelude.{
  ◌||◌, List, [], ◌∷◌, Option, none, some, Text, length, ltb, ◌==◌, ℕ, if◌then◌else◌,
}
use ojalvo_chat.Prelude.Options.{◌>>=◌}
use ojalvo_chat.Glib.{Glib}
use ojalvo_chat.User.{User}
use ojalvo_chat.UsersTable.{UsersTable, users_table_init, users_table_destroy}

-- ROOM_ROOMNAME_MAX_LENGTH
abbrev pub roomname_max_length : ℕ
roomname_max_length = 16

module _ ⦃G : Glib⦄ where
  pub record Room : Type 0 where
    pub roomname : Text
    pub members : UsersTable
    pub guests : UsersTable

  -- `none` where the function returns false.
  unfoldable pub room_init : Option Text → Option Room
  room_init none = none
  room_init (some roomname) =
      if length roomname == 0 || ltb roomname_max_length (length roomname)
      then none
      else some
          (record { roomname = roomname; members = users_table_init; guests = users_table_init })

  -- The heaps of the two tables as they are left, or `none` where a struct would be freed twice.
  unfoldable pub room_destroy : Room → Option (List (ℕ → Option User))
  room_destroy room = do
    members ← users_table_destroy room.members
    guests ← users_table_destroy room.guests
    some (members ∷ guests ∷ [])
