-- ===== src/Handler/Joining.antt =====
-- Who is in a room after a request to join it.
use ojalvo_chat.Prelude.{
  ℕ, ◌≡◌, refl, true, false, List, Option, none, some, Text, codes, Bool-cases, inl, inr,
}
use ojalvo_chat.Glib.{Glib}
use ojalvo_chat.Cjson.{Cjson}
use ojalvo_chat.User.{User}
use ojalvo_chat.UsersTable.{
  users_table_contains_by_client_fd, users_table_find_by_client_fd, users_table_find_by_username,
  users_table_remove, users_table_add_with_status,
}
use ojalvo_chat.UsersTable.View.{fits}
use ojalvo_chat.Room.{Room}
use ojalvo_chat.RoomTable.{room_table_find, room_table_write}
use ojalvo_chat.Message.{Message}
use ojalvo_chat.Server.{Server}
use ojalvo_chat.Server.Monad.{Network, Event}
use ojalvo_chat.Server.Ends.{Ends, returns, Ends-bind, Ends-mono, anyhow}
use ojalvo_chat.Server.Synced.{RoomIsSynced, add-IsSynced, remove-IsSynced_same}
use ojalvo_chat.Server.Invariant.{IsGood, own_name, write-Inv}
use ojalvo_chat.Handler.Farewell.{Gone, process_disconnect-Gone}
use ojalvo_chat.Handler.Rooms.{
  room_is_a_member, join_room, join_as_guest, room_from_guest_to_member, room_is_a_guest,
  process_join_room,
}
use ojalvo_chat.Handler.Chat.{response}
use ojalvo_chat.Server.Sends.{IfSo, if_so, if_not, arrives, server_send-arrives}
use ojalvo_chat.Handler.Presence.{with_found, removed, written, not_named, entered, in_room-Ends}
use ojalvo_chat.Handler.Membership.{IsDeadlock, notice}

module _ ⦃G : Glib⦄ where
  -- The user is a member of the room and no guest of it.
  abbrev pub HasJoined : User → Option Room → Type 0
  HasJoined u none = ⊥
  HasJoined u (some room) =
      (users_table_find_by_client_fd room.members u.socket_fd ≡ some u)
      × (users_table_find_by_username room.guests u.username ≡ none)

module _ ⦃G : Glib⦄ ⦃C : Cjson⦄ ⦃N : Network⦄ where
  -- The answer to one who joined.
  abbrev pub welcome : Text → Message
  welcome name = response (codes "JOIN_ROOM") (codes "SUCCESS") (some name)

  join_as_guest-HasJoined :
      (u : User) (name : Text) (fd : ℕ) (s : Server) (room : Room)
      → IsGood s
      → room_table_find s.rooms name ≡ some room
      → users_table_find_by_client_fd s.users fd ≡ some u
      → users_table_contains_by_client_fd room.members u.socket_fd ≡ false
      → fits u.username ≡ true
      → Ends IsDeadlock
          (λ ok t.
            IfSo
              (arrives s.trace fd (welcome name))
              ((ok ≡ true) × (t.users ≡ s.users) × HasJoined u (room_table_find t.rooms name))
              (Gone fd t))
          (join_as_guest u name fd s)
  unfolding join_as_guest room_from_guest_to_member
  join_as_guest-HasJoined u name fd s room g f h k fit = Ends-bind (
      with_found IsDeadlock _ name (room_from_guest_to_member u) s room g.unlocked f (
        returns (
          Ends-bind (
            server_send-arrives IsDeadlock _ fd _ _
              (elim (Bool-cases (arrives s.trace fd (welcome name))) [
                | inl y ↦ rw y (
                    Ends-bind (
                      Ends-mono (λ o t (q, r). returns (if_so refl (refl, q, r)))
                        (notice (λ us rs. (us ≡ s.users) × HasJoined u (room_table_find rs name))
                          name _ fd _ refl
                          (
                            refl,
                            rw (written s.rooms name _) (
                              entered room.members u synced.members.sound.valid fit (
                                  not_named s.users room.members u g.inv.users synced.members named
                                    k),
                              removed room.guests u.username synced.guests.sound.valid,
                            ),
                          ))))
                | inr y ↦ rw y (
                    Ends-mono (λ ok t q. if_not refl q)
                      (anyhow (process_disconnect-Gone fd _ good)))
              ])))))
    where
      named : users_table_find_by_username s.users u.username ≡ some u
      named = own_name s fd u g h

      synced : RoomIsSynced s.users room
      synced = g.inv.rooms name room f

      good :
          {tr : List Event}
          → IsGood (record s {
            rooms = room_table_write s.rooms name (record room {
              guests = (users_table_remove room.guests u.username).0;
              members =
                  (users_table_add_with_status room.members u.username u.socket_fd u.status).0;
            });
            rooms_locked = false;
            trace = tr;
          })
      good = record {
        inv =
            write-Inv s.users s.rooms name _
              (record {
                members = add-IsSynced s.users room.members u g.inv.users synced.members named;
                guests = remove-IsSynced_same s.users room.guests u.username synced.guests;
              })
              g.inv;
        unlocked = refl;
      }

  -- When an invited guest who is not yet a member, and whose name is of the length that user_init
  -- takes, joins a room from a good state, then if the answer SUCCESS arrives the handler returns
  -- true, the users of the server are the same, and the user is a member of the room and no guest
  -- of it; if it does not arrive the client is disconnected and gone from all tables. Or the thread
  -- stops at a deadlock.
  pub process_join_room-HasJoined :
      (m : Message) (fd : ℕ) (s : Server) (name : Text) (room : Room) (u : User)
      → IsGood s
      → m.roomname ≡ some name
      → room_table_find s.rooms name ≡ some room
      → users_table_find_by_client_fd s.users fd ≡ some u
      → users_table_contains_by_client_fd room.members u.socket_fd ≡ false
      → users_table_contains_by_client_fd room.guests u.socket_fd ≡ true
      → fits u.username ≡ true
      → Ends IsDeadlock
          (λ ok t.
            IfSo
              (arrives s.trace fd (welcome name))
              ((ok ≡ true) × (t.users ≡ s.users) × HasJoined u (room_table_find t.rooms name))
              (Gone fd t))
          (process_join_room m fd s)
  unfolding process_join_room join_room room_is_a_member room_is_a_guest
  process_join_room-HasJoined m fd s name room u g e f h k l fit = rw e (
      in_room-Ends IsDeadlock _ _ name fd _ s room u f h (
        Ends-bind (
          with_found IsDeadlock _ name (room_is_a_member u) s room g.unlocked f (
            returns (
              rw k (
                Ends-bind (
                  with_found IsDeadlock _ name (room_is_a_guest u) _ room refl f (
                    returns (
                      rw l (
                        join_as_guest-HasJoined u name fd (record s { rooms_locked = false }) room
                          (record { inv = g.inv; unlocked = refl }) f h k fit))))))))))
