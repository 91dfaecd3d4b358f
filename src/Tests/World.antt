-- ===== src/Tests/World.antt =====
-- A hash table, a JSON library and a network for the concrete inputs, and a server with two users.
use ojalvo_chat.Prelude.{
  ◌≡◌, refl, true, false, none, some, Text, codes, str_eq, ◌==◌, if◌then◌else◌,
}
use ojalvo_chat.Glib.{Glib}
use ojalvo_chat.Glib.Model.{list_glib}
use ojalvo_chat.User.{active, user_init}
use ojalvo_chat.UsersTable.{
  UsersTable, users_table_init, users_table_add, users_table_add_with_status,
  users_table_find_by_client_fd, users_table_find_by_username,
}
use ojalvo_chat.Room.{Room}
use ojalvo_chat.RoomTable.{room_table_write, room_table_init}
use ojalvo_chat.RoomTable.Visits.{new_room}
use ojalvo_chat.Server.{Server, initial_server}
use ojalvo_chat.Server.Monad.{Network}
use ojalvo_chat.Server.Synced.{
  IsSound, users_table_init-IsSound, users_table_add-IsSound, add-IsSynced,
  users_table_init-IsSynced,
}
use ojalvo_chat.Server.Invariant.{IsGood, initial_server-Inv, users_table_add-Inv, write-Inv}

instance abbrev pub glib_list : Glib
glib_list = list_glib

-- Descriptor 5 cannot be reached.
instance abbrev pub all_but_five : Network
all_but_five = record { accepts = λ tr fd t. if fd == 5 then false else true }

abbrev pub ana : Text
ana = codes "ana"

abbrev pub bob : Text
bob = codes "bob"

abbrev pub lobby : Text
lobby = codes "lobby"

abbrev pub only_ana : UsersTable
only_ana = (users_table_add users_table_init ana 4).0

abbrev pub two_users : UsersTable
two_users = (users_table_add only_ana bob 5).0

ana_is_free :
    (users_table_find_by_client_fd users_table_init 4 ≡ none)
    × (users_table_find_by_username users_table_init ana ≡ none)
unfolding users_table_find_by_client_fd users_table_find_by_username users_table_init
ana_is_free = (refl, refl)

bob_is_free :
    (users_table_find_by_client_fd only_ana 5 ≡ none)
    × (users_table_find_by_username only_ana bob ≡ none)
unfolding users_table_find_by_client_fd users_table_find_by_username users_table_add user_init
    users_table_init str_eq
bob_is_free = (refl, refl)

ana_is_known :
    users_table_find_by_username two_users ana
    ≡ some (record { username = ana; socket_fd = 4; status = active })
unfolding users_table_find_by_username users_table_add user_init users_table_init str_eq
ana_is_known = refl

bob_is_known :
    users_table_find_by_username two_users bob
    ≡ some (record { username = bob; socket_fd = 5; status = active })
unfolding users_table_find_by_username users_table_add user_init users_table_init str_eq
bob_is_known = refl

two_users-IsSound : IsSound two_users
two_users-IsSound =
    users_table_add-IsSound only_ana bob 5
      (users_table_add-IsSound users_table_init ana 4 users_table_init-IsSound ana_is_free.0)
      bob_is_free.0

-- Ana and Bob are identified, and Bob is in a room to which Ana is invited.
abbrev pub room_with_bob : Room
room_with_bob = record (new_room lobby) {
  members = (users_table_add_with_status users_table_init bob 5 active).0;
  guests = (users_table_add_with_status users_table_init ana 4 active).0;
}

abbrev pub talking : Server
talking = record initial_server {
  users = two_users;
  rooms = room_table_write room_table_init lobby room_with_bob;
}

pub talking-IsGood : IsGood talking
talking-IsGood = record {
  inv =
      write-Inv two_users room_table_init lobby room_with_bob
        (record {
          members =
              add-IsSynced two_users users_table_init _ two_users-IsSound
                (users_table_init-IsSynced two_users) bob_is_known;
          guests =
              add-IsSynced two_users users_table_init _ two_users-IsSound
                (users_table_init-IsSynced two_users) ana_is_known;
        })
        (users_table_add-Inv only_ana room_table_init bob 5
          (users_table_add-Inv users_table_init room_table_init ana 4 initial_server-Inv
            ana_is_free.0 ana_is_free.1)
          bob_is_free.0 bob_is_free.1);
  unlocked = refl;
}
