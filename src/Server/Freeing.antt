-- ===== src/Server/Freeing.antt =====
-- What destroying the tables of the server frees.
use ojalvo_chat.Prelude.{ℕ, ◌≡◌, List, Option, none, some}
use ojalvo_chat.Glib.{Glib}
use ojalvo_chat.User.{User}
use ojalvo_chat.UsersTable.{users_table_destroy}
use ojalvo_chat.UsersTable.Freeing.{users_table_destroy-none}
use ojalvo_chat.RoomTable.{room_table_destroy}
use ojalvo_chat.RoomTable.Freeing.{AreEmpty, room_table_destroy-none}
use ojalvo_chat.Server.{Server}
use ojalvo_chat.Server.Invariant.{IsGood}

module _ ⦃G : Glib⦄ where
  -- In a good state, destroying the table of users and the table of rooms, with the members and
  -- guests of each, frees every User struct, and none twice.
  pub destroy-AreEmpty :
      (s : Server)
      → IsGood s
      → ((heap : ℕ → Option User) × (users_table_destroy s.users ≡ some heap)
          × ((p : ℕ) → heap p ≡ none))
        × ((heaps : List (ℕ → Option User)) × (room_table_destroy s.rooms ≡ some heaps)
            × AreEmpty heaps)
  destroy-AreEmpty s g = (
    users_table_destroy-none s.users g.inv.users.valid,
    room_table_destroy-none s.rooms λ name room e. (
      (g.inv.rooms name room e).members.sound.valid,
      (g.inv.rooms name room e).guests.sound.valid,
    ),
  )
