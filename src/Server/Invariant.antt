-- ===== src/Server/Invariant.antt =====
-- The invariant of the server: its tables are sound, and the rooms hold registered users as the
-- server knows them.
use ojalvo_chat.Prelude.{
  ℕ, ◌≡◌, false, none, some, Text, str_eq, arith, Option-cases, Bool-cases, inl, inr,
}
use mathlib.Core.Path.{subst}
use ojalvo_chat.Glib.{Glib}
use ojalvo_chat.User.{User}
use ojalvo_chat.UsersTable.{
  UsersTable, users_table_find_by_username, users_table_find_by_client_fd, users_table_add,
}
use ojalvo_chat.Room.{Room}
use ojalvo_chat.RoomTable.{
  RoomTable, room_table_find, room_table_for_each, room_table_write, room_table_remove,
  room_table_add,
}
use ojalvo_chat.RoomTable.Visits.{find-for_each, find-write, find-remove, find-add, new_room}
use ojalvo_chat.Server.{Server, initial_server}
use ojalvo_chat.Server.Synced.{
  IsSound, RoomIsSynced, Inv, users_table_init-IsSound, users_table_init-IsSynced,
  users_table_add-IsSound, users_table_add-IsSynced,
}

module _ ⦃G : Glib⦄ where
  pub users_table_add-Inv :
      (us : UsersTable) (rs : RoomTable) (n : Text) (fd : ℕ)
      → Inv us rs
      → users_table_find_by_client_fd us fd ≡ none
      → users_table_find_by_username us n ≡ none
      → Inv (users_table_add us n fd).0 rs
  users_table_add-Inv us rs n fd v e f = record {
    users = users_table_add-IsSound us n fd v.users e;
    rooms = λ name room h. record {
      members = users_table_add-IsSynced us _ n fd v.users f (v.rooms name room h).members;
      guests = users_table_add-IsSynced us _ n fd v.users f (v.rooms name room h).guests;
    };
  }

  -- A visitor that keeps each room synced with the users as they are to be.
  pub for_each-Inv :
      (us vs : UsersTable) (rs : RoomTable) (f : Room → Room)
      → IsSound vs
      → ((room : Room) → RoomIsSynced us room → RoomIsSynced vs (f room))
      → Inv us rs
      → Inv vs (room_table_for_each rs f)
  for_each-Inv us vs rs f s keep v = record { users = s; rooms = rooms }
    where
      rooms :
          (name : Text) (room : Room)
          → room_table_find (room_table_for_each rs f) name ≡ some room
          → RoomIsSynced vs room
      rooms name room h = elim (Option-cases (room_table_find rs name)) [
        | inl e ↦ absurd (cc (h, find-for_each rs f name, e))
        | inr (old, e) ↦
            subst (RoomIsSynced vs) (ground (arith, find-for_each rs f name, e, h))
              (keep old (v.rooms name old e))
      ]

  pub write-Inv :
      (us : UsersTable) (rs : RoomTable) (n : Text) (r : Room)
      → RoomIsSynced us r
      → Inv us rs
      → Inv us (room_table_write rs n r)
  write-Inv us rs n r s v = record {
    users = v.users;
    rooms = λ name room h. elim (Bool-cases (str_eq n name)) [
      | inl e ↦ subst (RoomIsSynced us) (ground (arith, find-write rs n r name, e, h)) s
      | inr e ↦ v.rooms name room (ground (arith, find-write rs n r name, e, h))
    ];
  }

  pub room_table_remove-Inv :
      (us : UsersTable) (rs : RoomTable) (n : Text) → Inv us rs → Inv us (room_table_remove rs n).0
  room_table_remove-Inv us rs n v = record {
    users = v.users;
    rooms = λ name room h. v.rooms name room (ground (arith, find-remove rs n name, h));
  }

  new_room-IsSynced : (us : UsersTable) (n : Text) → RoomIsSynced us (new_room n)
  new_room-IsSynced us n = record {
    members = users_table_init-IsSynced us;
    guests = users_table_init-IsSynced us;
  }

  pub room_table_add-Inv :
      (us : UsersTable) (rs : RoomTable) (n : Text) → Inv us rs → Inv us (room_table_add rs n).0
  room_table_add-Inv us rs n v = record {
    users = v.users;
    rooms = λ name room h. elim (Bool-cases (room_table_add rs n).1) [
      | inr e ↦ v.rooms name room (ground (arith, find-add rs n name, e, h))
      | inl e ↦ elim (Bool-cases (str_eq n name)) [
        | inr f ↦ v.rooms name room (ground (arith, find-add rs n name, e, f, h))
        | inl f ↦
            subst (RoomIsSynced us) (ground (arith, find-add rs n name, e, f, h))
              (new_room-IsSynced us n)
      ]
    ];
  }

  pub initial_server-Inv : Inv initial_server.users initial_server.rooms
  unfolding room_table_find
  initial_server-Inv = record {
    users = users_table_init-IsSound;
    rooms = λ name room h. cc (h, G.strings.lookup-new {V = Room} name);
  }

  -- Between two messages the invariant holds and the rooms are unlocked.
  pub record IsGood (s : Server) : Type 0 where
    pub inv : Inv s.users s.rooms
    pub unlocked : s.rooms_locked ≡ false

  -- What a search by descriptor finds has that descriptor, and is found by its name.
  pub own_fd :
      (s : Server) (fd : ℕ) (u : User)
      → IsGood s
      → users_table_find_by_client_fd s.users fd ≡ some u
      → u.socket_fd ≡ fd
  own_fd s fd u g e = (g.inv.users.consistent.fds fd u e).0

  pub own_name :
      (s : Server) (fd : ℕ) (u : User)
      → IsGood s
      → users_table_find_by_client_fd s.users fd ≡ some u
      → users_table_find_by_username s.users u.username ≡ some u
  own_name s fd u g e = (g.inv.users.consistent.fds fd u e).1
