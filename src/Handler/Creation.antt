-- ===== src/Handler/Creation.antt =====
-- Who is in a room that was just made.
use ojalvo_chat.Prelude.{
  ℕ, ◌≡◌, inl, inr, refl, ap, ◌∙◌, true, false, List, Option, none, some, Text, str_eq_refl, take,
  ◌==◌, if◌then◌else◌, arith, codes, Bool-cases,
}
use ojalvo_chat.Glib.{Glib}
use ojalvo_chat.Cjson.{Cjson}
use ojalvo_chat.User.{User}
use ojalvo_chat.UsersTable.{
  users_table_init, users_table_add_with_status, users_table_find_by_client_fd,
}
use ojalvo_chat.UsersTable.Invariant.{users_table_init-IsValid}
use ojalvo_chat.UsersTable.View.{fits}
use ojalvo_chat.UsersTable.Directory.{directory-init, add_with_status-directory}
use ojalvo_chat.Room.{Room, roomname_max_length}
use ojalvo_chat.RoomTable.{
  RoomTable, room_table_find, room_table_add, room_table_contains, room_table_write,
}
use ojalvo_chat.RoomTable.Visits.{find-add, new_room}
use ojalvo_chat.Message.{Message}
use ojalvo_chat.Server.{Server}
use ojalvo_chat.Server.Monad.{Network, Event}
use ojalvo_chat.Server.Ends.{Ends, returns, Ends-bind, Ends-mono}
use ojalvo_chat.Server.Synced.{add-IsSynced, users_table_init-IsSynced}
use ojalvo_chat.Server.Invariant.{IsGood, room_table_add-Inv, write-Inv, own_name}
use ojalvo_chat.Handler.Notify.{send_or_disconnect}
use ojalvo_chat.Handler.Rooms.{room_add_creator, create_room, process_new_room}
use ojalvo_chat.Handler.Chat.{response}
use ojalvo_chat.Server.Sends.{IfSo, if_so, if_not, arrives, server_send-arrives}
use ojalvo_chat.Handler.Farewell.{Gone, process_disconnect-Gone}
use ojalvo_chat.Handler.Presence.{with_found, written}

module _ ⦃G : Glib⦄ where
  -- The user is the only member of the room, and nobody is invited to it.
  abbrev pub HasOnly : User → Option Room → Type 0
  HasOnly u none = ⊥
  HasOnly u (some room) =
      ((fd : ℕ)
        → users_table_find_by_client_fd room.members fd
          ≡ (if u.socket_fd == fd then some u else none))
      × (room.guests ≡ users_table_init)

  abbrev founded : User → Text → Room
  founded u name = record (new_room name) {
    members = (users_table_add_with_status users_table_init u.username u.socket_fd u.status).0;
  }

  founded-HasOnly :
      (u : User) (name : Text) → fits u.username ≡ true → HasOnly u (some (founded u name))
  founded-HasOnly u name f = (only, refl)
    where
      only :
          (fd : ℕ)
          → users_table_find_by_client_fd (founded u name).members fd
            ≡ (if u.socket_fd == fd then some u else none)
      only fd =
          ap (λ d. d.by_fd fd)
            (add_with_status-directory users_table_init u.username u.socket_fd u.status
              users_table_init-IsValid)
          ∙ ground (
            arith,
            f,
            ap (λ d. d.by_name u.username) directory-init,
            ap (λ d. d.by_fd fd) directory-init,
          )

module _ ⦃G : Glib⦄ ⦃C : Cjson⦄ ⦃N : Network⦄ where
  -- The answer to one who made a room.
  abbrev pub founding : Text → Message
  founding name = response (codes "NEW_ROOM") (codes "SUCCESS") (some name)

  create_room-HasOnly :
      (name : Text) (fd : ℕ) (s : Server) (u : User)
      → IsGood s
      → users_table_find_by_client_fd s.users fd ≡ some u
      → fits u.username ≡ true
      → (room_table_add s.rooms name).1 ≡ true
      → Ends
          (λ f. ⊥)
          (λ ok t.
            IfSo
              (arrives s.trace fd (founding name))
              ((ok ≡ true) × (t.users ≡ s.users) × HasOnly u (room_table_find t.rooms name))
              (Gone fd t))
          (create_room name fd s)
  unfolding create_room room_add_creator send_or_disconnect
  create_room-HasOnly name fd s u g e f added = Ends-bind (
      returns (
        Ends-bind (
          returns (
            rw added (
              Ends-bind (
                returns (
                  rw e (
                    Ends-bind (
                      with_found (λ f. ⊥) _ name (room_add_creator u) _ (new_room name) g.unlocked
                        there
                        (returns (
                          Ends-bind (
                            server_send-arrives (λ f. ⊥) _ fd _ _
                              (elim (Bool-cases (arrives s.trace fd (founding name))) [
                                | inl y ↦ rw y (
                                    returns (
                                      if_so refl (
                                        refl,
                                        refl,
                                        rw (written rooms name (founded u name))
                                            (founded-HasOnly u name f),
                                      )))
                                | inr y ↦ rw y (
                                    Ends-mono (λ ok t q. if_not refl q)
                                      (process_disconnect-Gone fd _ good))
                              ])))))))))))))
    where
      rooms : RoomTable
      rooms = (room_table_add s.rooms name).0

      there : room_table_find rooms name ≡ some (new_room name)
      there = ground (arith, find-add s.rooms name name, added, str_eq_refl name)

      good :
          {tr : List Event}
          → IsGood (record s {
            rooms = room_table_write rooms name (founded u name);
            rooms_locked = false;
            trace = tr;
          })
      good = record {
        inv =
            write-Inv s.users rooms name _
              (record {
                members =
                    add-IsSynced s.users users_table_init u g.inv.users
                      (users_table_init-IsSynced s.users) (own_name s fd u g e);
                guests = users_table_init-IsSynced s.users;
              })
              (room_table_add-Inv s.users s.rooms name g.inv);
        unlocked = refl;
      }

  -- When an identified user whose name is of the length that user_init takes asks from a good state
  -- for a new room and room_table_add accepts the cut name, then if the answer SUCCESS arrives the
  -- handler returns true, the users of the server are the same, the user is the only member of the
  -- room, and nobody is invited to it; if it does not arrive the client is gone from all tables.
  pub process_new_room-HasOnly :
      (m : Message) (fd : ℕ) (s : Server) (name : Text) (u : User)
      → IsGood s
      → m.roomname ≡ some name
      → room_table_contains s.rooms name ≡ false
      → (room_table_add s.rooms (take roomname_max_length name)).1 ≡ true
      → users_table_find_by_client_fd s.users fd ≡ some u
      → fits u.username ≡ true
      → Ends
          (λ f. ⊥)
          (λ ok t.
            IfSo
              (arrives s.trace fd (founding (take roomname_max_length name)))
              ((ok ≡ true)
                × (t.users ≡ s.users)
                × HasOnly u (room_table_find t.rooms (take roomname_max_length name)))
              (Gone fd t))
          (process_new_room m fd s)
  unfolding process_new_room
  process_new_room-HasOnly m fd s name u g e f added h fit = rw e (
      Ends-bind
        (returns (rw f (create_room-HasOnly (take roomname_max_length name) fd s u g h fit added))))
