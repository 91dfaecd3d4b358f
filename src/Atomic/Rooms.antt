-- ===== src/Atomic/Rooms.antt =====
-- The atomic parts of the handlers of server/src/message_handler.c for rooms and invitations.
use ojalvo_chat.Prelude.{
  ℕ, ◌≡◌, refl, Bool, true, false, ◌||◌, List, [], ◌∷◌, Option, none, some, Text, codes, take,
}
use ojalvo_chat.Glib.{Glib}
use ojalvo_chat.Cjson.{Cjson}
use ojalvo_chat.User.{User}
use ojalvo_chat.UsersTable.{users_table_find_by_client_fd, users_table_find_by_username}
use ojalvo_chat.UsersTable.Shared.{add_with_status, remove}
use ojalvo_chat.Room.{Room, roomname_max_length}
use ojalvo_chat.RoomTable.{room_table_add, room_table_contains}
use ojalvo_chat.Message.{Message, message_init}
use ojalvo_chat.Message.Kind.{MessageType}
use ojalvo_chat.Server.{Handler, room_table_with}
use ojalvo_chat.Server.Monad.{Network, pure, gets, continue, done, ◌>>=◌, ◌>>◌}
use ojalvo_chat.Handler.Notify.{send_or_disconnect}
use ojalvo_chat.Handler.Chat.{response}
use ojalvo_chat.Handler.Rooms.{
  write_room, room_add_creator, room_add_to_guests, room_is_a_member, room_is_a_guest,
  room_from_guest_to_member, was_set, Invited, missing, found, create_room, process_new_room,
  invite_each, invite_all, add_found, search_invited, invite_from, no_such_room, in_room, invite_as,
  process_invite, join_as_guest, join_room, process_join_room,
}
use ojalvo_chat.Atomic.{
  Changes, same, members, guests, rest, once, add_room, change_room, has_fields,
}
use ojalvo_chat.Atomic.Actions.{
  returned, IsAtomic, part, in_turn, pure-IsAtomic, gets-IsAtomic, if-IsAtomic, elim-IsAtomic,
}
use ojalvo_chat.Atomic.Common.{
  server_send-IsAtomic, room_table_with-IsAtomic, notify_room-IsAtomic, process_disconnect-IsAtomic,
  send_invalid_and_disconnect-IsAtomic, send_or_disconnect-IsAtomic,
}

module _ ⦃G : Glib⦄ ⦃C : Cjson⦄ ⦃N : Network⦄ where
  -- A visit that stores a changed room.
  write_room-IsAtomic :
      (name : Text) (change : Room → Room)
      → ((room : Room) → Changes room (change room))
      → IsAtomic (room_table_with name (λ name room. write_room name (change room)))
  write_room-IsAtomic name change h =
      room_table_with-IsAtomic name (λ name room. write_room name (change room))
        λ room s e f. returned (once (change_room name f (h room)))

  -- A visit that only looks.
  pub look-IsAtomic :
      {A : Type 0} (name : Text) (answer : Room → A)
      → IsAtomic (room_table_with name (λ name room. pure (answer room)))
  look-IsAtomic name answer =
      room_table_with-IsAtomic name (λ name room. pure (answer room)) λ room s e f. returned rest

  pub member-IsAtomic :
      (user : User) (name : Text) → IsAtomic (room_table_with name (room_is_a_member user))
  unfolding room_is_a_member
  member-IsAtomic user name = look-IsAtomic name _

  guest-IsAtomic :
      (user : User) (name : Text) → IsAtomic (room_table_with name (room_is_a_guest user))
  unfolding room_is_a_guest
  guest-IsAtomic user name = look-IsAtomic name _

  add_creator-IsAtomic :
      (user : User) (name : Text) → IsAtomic (room_table_with name (room_add_creator user))
  unfolding room_add_creator
  add_creator-IsAtomic user name =
      write_room-IsAtomic name _
        λ room. members (add_with_status user.username user.socket_fd user.status) same

  add_to_guests-IsAtomic :
      (user : User) (name : Text) → IsAtomic (room_table_with name (room_add_to_guests user))
  unfolding room_add_to_guests
  add_to_guests-IsAtomic user name =
      write_room-IsAtomic name _
        λ room. guests (add_with_status user.username user.socket_fd user.status) same

  to_member-IsAtomic :
      (user : User) (name : Text) → IsAtomic (room_table_with name (room_from_guest_to_member user))
  unfolding room_from_guest_to_member
  to_member-IsAtomic user name = write_room-IsAtomic name _ λ room.
      members (add_with_status user.username user.socket_fd user.status)
        (guests (remove user.username) same)

  respond-IsAtomic :
      (operation result : Text) (extra : Option Text) (fd : ℕ)
      → IsAtomic (send_or_disconnect fd (response operation result extra) fd)
  unfolding has_fields
  respond-IsAtomic operation result extra fd =
      send_or_disconnect-IsAtomic fd (response operation result extra) fd refl

  founded : Text → ℕ → Handler Bool
  founded name fd = do
    table ← gets (λ s. s.users)
    elim (users_table_find_by_client_fd table fd) [
      | none ↦ pure false
      | some creator ↦ do
        room_table_with name (room_add_creator creator)
        send_or_disconnect fd (response (codes "NEW_ROOM") (codes "SUCCESS") (some name)) fd
    ]

  founded-IsAtomic : (name : Text) (fd : ℕ) → IsAtomic (founded name fd)
  unfolding founded
  founded-IsAtomic name fd = in_turn (gets-IsAtomic _) λ table.
      elim-IsAtomic (users_table_find_by_client_fd table fd) _ _ (pure-IsAtomic false)
        λ creator. in_turn (add_creator-IsAtomic creator name) λ _. respond-IsAtomic _ _ _ fd

  create_room-IsAtomic : (name : Text) (fd : ℕ) → IsAtomic (create_room name fd)
  unfolding create_room founded continue
  create_room-IsAtomic name fd =
      in_turn
        (part
          {m = λ s.
            done (room_table_add s.rooms name).1
              (record s { rooms = (room_table_add s.rooms name).0 })}
          λ s. returned (once (add_room name), refl))
        λ added.
          if-IsAtomic added (founded name fd) (pure false) (founded-IsAtomic name fd)
            (pure-IsAtomic false)

  pub process_new_room-IsAtomic : (m : Message) (fd : ℕ) → IsAtomic (process_new_room m fd)
  unfolding process_new_room
  process_new_room-IsAtomic m fd = elim-IsAtomic m.roomname _ _ (pure-IsAtomic false) λ name.
      in_turn (gets-IsAtomic _) λ rooms.
        if-IsAtomic (room_table_contains rooms name) _ _ (respond-IsAtomic _ _ _ fd)
          (create_room-IsAtomic (take roomname_max_length name) fd)

  invite_each-IsAtomic :
      (name : Text) (m : Message) (us : List User)
      → has_fields m.kind m ≡ true
      → IsAtomic (invite_each name m us)
  unfolding invite_each
  invite_each-IsAtomic name m [] r = pure-IsAtomic true
  invite_each-IsAtomic name m (u ∷ us) r = in_turn (member-IsAtomic u name) λ member.
      in_turn (guest-IsAtomic u name) λ guest.
        if-IsAtomic (was_set member || was_set guest) _ _ (pure-IsAtomic true) (
          in_turn (add_to_guests-IsAtomic u name) λ _.
            in_turn (server_send-IsAtomic u.socket_fd m r) λ ok.
              if-IsAtomic ok _ _ (invite_each-IsAtomic name m us r)
                (process_disconnect-IsAtomic u.socket_fd))

  invite_all-IsAtomic :
      (invited : Invited) (from : User) (name : Text) (fd : ℕ)
      → IsAtomic (invite_all invited from name fd)
  unfolding invite_all has_fields
  invite_all-IsAtomic (missing who) from name fd = respond-IsAtomic _ _ _ fd
  invite_all-IsAtomic (found us) from name fd = invite_each-IsAtomic name _ us refl

  search_invited-IsAtomic : (names : List Text) → IsAtomic (search_invited names)
  unfolding search_invited
  search_invited-IsAtomic [] = pure-IsAtomic (found [])
  search_invited-IsAtomic (name ∷ names) = in_turn (gets-IsAtomic _) λ table.
      elim-IsAtomic (users_table_find_by_username table name) _ _ (pure-IsAtomic (missing name))
        λ u. in_turn (search_invited-IsAtomic names) λ rest. pure-IsAtomic (add_found u rest)

  invite_as-IsAtomic :
      (name : Text) (names : List Text) (fd : ℕ) (from : User)
      → IsAtomic (invite_as name names fd from)
  unfolding invite_as invite_from
  invite_as-IsAtomic name names fd from = in_turn (member-IsAtomic from name) λ member.
      if-IsAtomic (was_set member) _ _
        (in_turn (search_invited-IsAtomic names)
          λ invited. invite_all-IsAtomic invited from name fd)
        (send_invalid_and_disconnect-IsAtomic fd)

  pub in_room-IsAtomic :
      (operation name : Text) (fd : ℕ) (act : User → Handler Bool)
      → ((u : User) → IsAtomic (act u))
      → IsAtomic (in_room operation name fd act)
  unfolding in_room no_such_room
  in_room-IsAtomic operation name fd act h = in_turn (gets-IsAtomic _) λ rooms.
      if-IsAtomic (room_table_contains rooms name) _ _
        (in_turn (gets-IsAtomic _) λ table.
          elim-IsAtomic (users_table_find_by_client_fd table fd) _ act
            (send_invalid_and_disconnect-IsAtomic fd) h)
        (respond-IsAtomic _ _ _ fd)

  pub process_invite-IsAtomic : (m : Message) (fd : ℕ) → IsAtomic (process_invite m fd)
  unfolding process_invite
  process_invite-IsAtomic m fd = elim-IsAtomic m.roomname _ _ (pure-IsAtomic false) λ name.
      elim-IsAtomic m.usernames _ _ (pure-IsAtomic false)
        λ names. in_room-IsAtomic _ name fd _ (invite_as-IsAtomic name names fd)

  join_room-IsAtomic : (user : User) (name : Text) (fd : ℕ) → IsAtomic (join_room user name fd)
  unfolding join_room join_as_guest has_fields
  join_room-IsAtomic user name fd = in_turn (member-IsAtomic user name) λ member.
      if-IsAtomic (was_set member) _ _ (pure-IsAtomic true) (
        in_turn (guest-IsAtomic user name) λ guest.
          if-IsAtomic (was_set guest) _ _
            (in_turn (to_member-IsAtomic user name) λ _.
              in_turn
                (server_send-IsAtomic fd
                  (response (codes "JOIN_ROOM") (codes "SUCCESS") (some name)) refl)
                λ ok.
                  if-IsAtomic ok _ _
                    (in_turn
                      (notify_room-IsAtomic name
                        (record message_init {
                          kind = MessageType.joined_room;
                          roomname = some name;
                          username = some user.username;
                        })
                        fd refl)
                      λ _. pure-IsAtomic true)
                    (process_disconnect-IsAtomic fd))
            (respond-IsAtomic _ _ _ fd))

  pub process_join_room-IsAtomic : (m : Message) (fd : ℕ) → IsAtomic (process_join_room m fd)
  unfolding process_join_room
  process_join_room-IsAtomic m fd =
      elim-IsAtomic m.roomname _ _ (pure-IsAtomic false)
        λ name. in_room-IsAtomic _ name fd _ λ user. join_room-IsAtomic user name fd
