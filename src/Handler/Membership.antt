-- ===== src/Handler/Membership.antt =====
-- Who is in a room after a request to leave it.
use ojalvo_chat.Prelude.{
  ℕ, ◌≡◌, refl, true, false, Option, none, some, Text, str_eq, ◌==◌, Bool-cases, inl, inr,
}
use ojalvo_chat.Glib.{Glib}
use ojalvo_chat.Cjson.{Cjson}
use ojalvo_chat.User.{User}
use ojalvo_chat.UsersTable.{
  UsersTable, users_table_contains_by_client_fd, users_table_find_by_client_fd,
  users_table_find_by_username, users_table_remove, users_table_size,
}
use ojalvo_chat.Room.{Room}
use ojalvo_chat.RoomTable.{RoomTable, room_table_find, room_table_write}
use ojalvo_chat.Message.{Message}
use ojalvo_chat.Server.{Server, room_table_with}
use ojalvo_chat.Server.Monad.{bad_free, Network, Fault, null_pointer, deadlock}
use ojalvo_chat.Server.Ends.{Ends, returns, Ends-bind, Ends-mono}
use ojalvo_chat.Server.Invariant.{IsGood}
use ojalvo_chat.UsersTable.Invariant.{IsValid}
use ojalvo_chat.Handler.Rooms.{room_is_a_member, room_notify_members}
use ojalvo_chat.Handler.RoomTalk.{
  room_leave, drop_room, leave_room, process_leave_room, as_member, if_member,
}
use ojalvo_chat.Handler.Effects.{room_table_with-Ends, notify_members-Ends}
use ojalvo_chat.Handler.Presence.{
  with_found, removed, removed_others, was_last, written, dropped, in_room-Ends,
}

abbrev pub IsDeadlock : Fault → Type 0
IsDeadlock null_pointer = ⊥
IsDeadlock bad_free = ⊥
IsDeadlock deadlock = Unit {0}

module _ ⦃G : Glib⦄ where
  -- The room is gone, and nobody but the user was a member of it; or it has members, which are those
  -- from before without the user, and the guests from before.
  abbrev pub HasLeft : Room → User → Option Room → Type 0
  HasLeft before u none =
      (n : Text) (x : User)
      → users_table_find_by_username before.members n ≡ some x
      → str_eq u.username n ≡ true
  HasLeft before u (some room) =
      (users_table_find_by_username room.members u.username ≡ none)
      × ((n : Text)
          → str_eq u.username n ≡ false
          → users_table_find_by_username room.members n
            ≡ users_table_find_by_username before.members n)
      × (room.guests ≡ before.guests)
      × ((users_table_size room.members == 0) ≡ false)

module _ ⦃G : Glib⦄ ⦃C : Cjson⦄ ⦃N : Network⦄ where
  -- The notice to the members changes neither users nor rooms.
  pub notice :
      (Q : UsersTable → RoomTable → Type 0) (name : Text) (m : Message) (fd : ℕ) (s : Server)
      → s.rooms_locked ≡ false
      → Q s.users s.rooms
      → Ends IsDeadlock
          (λ o t. Q t.users t.rooms)
          (room_table_with name (room_notify_members m fd) s)
  unfolding room_notify_members
  notice Q name m fd s e q =
      room_table_with-Ends IsDeadlock _ name _ s e q
        λ room f. notify_members-Ends IsDeadlock _ name m fd _ refl tt (λ tr. q)

  leave_room-HasLeft :
      (name : Text) (fd : ℕ) (u : User) (s : Server) (room : Room)
      → s.rooms_locked ≡ false
      → room_table_find s.rooms name ≡ some room
      → IsValid room.members
      → Ends IsDeadlock
          (λ ok t. (t.users ≡ s.users) × HasLeft room u (room_table_find t.rooms name))
          (leave_room name fd u s)
  unfolding leave_room room_leave drop_room
  leave_room-HasLeft name fd u s room e f v = Ends-bind (
      with_found IsDeadlock _ name (room_leave u) s room e f (
        returns (
          Ends-bind (elim (Bool-cases (users_table_size members == 0)) [
            | inl k ↦ rw k (
                returns (
                  Ends-bind (
                    Ends-mono (λ o t q. returns q)
                      (notice (λ us rs. (us ≡ s.users) × HasLeft room u (room_table_find rs name))
                        name _ fd _ refl
                        (
                          refl,
                          rw (dropped (room_table_write s.rooms name _) name)
                              (was_last room.members u.username v k),
                        )))))
            | inr k ↦ rw k (
                returns (
                  Ends-bind (
                    Ends-mono (λ o t q. returns q)
                      (notice (λ us rs. (us ≡ s.users) × HasLeft room u (room_table_find rs name))
                        name _ fd _ refl
                        (
                          refl,
                          rw (written s.rooms name _) (
                            removed room.members u.username v,
                            removed_others room.members u.username v,
                            refl,
                            k,
                          ),
                        )))))
          ]))))
    where
      members : UsersTable
      members = (users_table_remove room.members u.username).0

  -- When a member leaves a room from a good state, the users of the server are the same, and one of
  -- two things holds: the room is gone, and nobody else was a member of it; or it has members, who
  -- are those from before without the user, and the guests from before. Or the thread stops at a
  -- deadlock.
  pub process_leave_room-HasLeft :
      (m : Message) (fd : ℕ) (s : Server) (name : Text) (room : Room) (u : User)
      → IsGood s
      → m.roomname ≡ some name
      → room_table_find s.rooms name ≡ some room
      → users_table_find_by_client_fd s.users fd ≡ some u
      → users_table_contains_by_client_fd room.members u.socket_fd ≡ true
      → Ends IsDeadlock
          (λ ok t. (t.users ≡ s.users) × HasLeft room u (room_table_find t.rooms name))
          (process_leave_room m fd s)
  unfolding process_leave_room as_member if_member room_is_a_member
  process_leave_room-HasLeft m fd s name room u g e f h k = rw e (
      in_room-Ends IsDeadlock _ _ name fd _ s room u f h (
        Ends-bind (
          with_found IsDeadlock _ name (room_is_a_member u) s room g.unlocked f (
            returns (
              rw k (
                leave_room-HasLeft name fd u (record s { rooms_locked = false }) room refl f
                  (g.inv.rooms name room f).members.sound.valid))))))
