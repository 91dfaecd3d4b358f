-- ===== src/Handler/Rooms.antt =====
-- server/src/message_handler.c: new rooms, invitations, and joining.
use ojalvo_chat.Prelude.{
  ℕ, Bool, true, false, ◌||◌, List, [], ◌∷◌, Option, none, some, Text, codes, take, if◌then◌else◌,
}
use ojalvo_chat.Glib.{Glib}
use ojalvo_chat.Cjson.{Cjson}
use ojalvo_chat.User.{User}
use ojalvo_chat.UsersTable.{
  UsersTable, users_table_add_with_status, users_table_contains_by_client_fd, users_table_remove,
  users_table_find_by_username, users_table_find_by_client_fd,
}
use ojalvo_chat.Room.{Room, roomname_max_length}
use ojalvo_chat.RoomTable.{room_table_add, room_table_contains, room_table_write}
use ojalvo_chat.Message.{Message, message_init}
use ojalvo_chat.Message.Kind.{MessageType}
use ojalvo_chat.Server.{Handler, room_table_with, server_send}
use ojalvo_chat.Server.Monad.{Network, done, pure, gets, ◌>>=◌, ◌>>◌}
use ojalvo_chat.Handler.Notify.{
  members_of, notify_all_but_self, process_disconnect, send_invalid_and_disconnect,
  send_or_disconnect,
}
use ojalvo_chat.Handler.Chat.{response}

module _ ⦃G : Glib⦄ where
  abbrev pub write_room : Text → Room → Handler (Unit {0})
  write_room name room s = done tt (record s { rooms = room_table_write s.rooms name room })

  unfoldable pub room_add_creator : User → Text → Room → Handler (Unit {0})
  room_add_creator user name room = write_room name (record room {
    members = (users_table_add_with_status room.members user.username user.socket_fd user.status).0;
  })

  unfoldable pub room_add_to_guests : User → Text → Room → Handler (Unit {0})
  room_add_to_guests user name room = write_room name (record room {
    guests = (users_table_add_with_status room.guests user.username user.socket_fd user.status).0;
  })

  unfoldable pub room_is_a_member : User → Text → Room → Handler Bool
  room_is_a_member user name room =
      pure (users_table_contains_by_client_fd room.members user.socket_fd)

  unfoldable pub room_is_a_guest : User → Text → Room → Handler Bool
  room_is_a_guest user name room =
      pure (users_table_contains_by_client_fd room.guests user.socket_fd)

  unfoldable pub room_from_guest_to_member : User → Text → Room → Handler (Unit {0})
  room_from_guest_to_member user name room = write_room name (record room {
    guests = (users_table_remove room.guests user.username).0;
    members = (users_table_add_with_status room.members user.username user.socket_fd user.status).0;
  })

  -- `ctx.is_in_room` after a visit that can only set it.
  abbrev pub was_set : Option Bool → Bool
  was_set none = false
  was_set (some b) = b

  -- What the search for the invited users comes to: a name with no user, or a user for each name.
  pub data Invited : Type 0 where
    missing : Text → Invited
    found : List User → Invited

  abbrev pub add_found : User → Invited → Invited
  add_found user (missing name) = missing name
  add_found user (found users) = found (user ∷ users)

  unfoldable pub find_invited : UsersTable → List Text → Invited
  find_invited table [] = found []
  find_invited table (name ∷ names) =
      let rest = find_invited table names in
      elim (users_table_find_by_username table name) [
        | none ↦ missing name
        | some user ↦ add_found user rest
      ]

  module _ ⦃C : Cjson⦄ ⦃N : Network⦄ where
    unfoldable pub room_notify_members : Message → ℕ → Text → Room → Handler (Unit {0})
    room_notify_members message client_fd name room =
        notify_all_but_self (members_of name) message client_fd

    unfoldable pub create_room : Text → ℕ → Handler Bool
    create_room rm_name client_fd = do
      rooms ← gets (λ s. s.rooms)
      let (rooms', added) = room_table_add rooms rm_name
      (λ s. done tt (record s { rooms = rooms' }))
      if added
          then (do
            table ← gets (λ s. s.users)
            elim (users_table_find_by_client_fd table client_fd) [
              | none ↦ pure false
              | some creator ↦ do
                room_table_with rm_name (room_add_creator creator)
                send_or_disconnect client_fd
                    (response (codes "NEW_ROOM") (codes "SUCCESS") (some rm_name)) client_fd
            ])
          else pure false

    -- The name is cut for the new room, and is looked up as it came.
    unfoldable pub process_new_room : Message → ℕ → Handler Bool
    process_new_room msg_in client_fd = elim msg_in.roomname [
      | none ↦ pure false
      | some roomname ↦ do
        rooms ← gets (λ s. s.rooms)
        if room_table_contains rooms roomname
            then send_or_disconnect client_fd
                (response (codes "NEW_ROOM") (codes "ROOM_ALREADY_EXISTS")
                  (some (take roomname_max_length roomname)))
                client_fd
            else create_room (take roomname_max_length roomname) client_fd
    ]

    -- The loop over the invited users: it returns at the first that is in the room already.
    unfoldable pub invite_each : Text → Message → List User → Handler Bool
    invite_each roomname invitation [] = pure true
    invite_each roomname invitation (user ∷ users) =
        let rest = invite_each roomname invitation users in
        (do
          member ← room_table_with roomname (room_is_a_member user)
          guest ← room_table_with roomname (room_is_a_guest user)
          if was_set member || was_set guest then pure true else (do
            room_table_with roomname (room_add_to_guests user)
            ok ← server_send user.socket_fd invitation
            if ok then rest else process_disconnect user.socket_fd))

    -- The invitations go out if every name has a user.
    unfoldable pub invite_all : Invited → User → Text → ℕ → Handler Bool
    invite_all (missing name) user_from roomname client_fd =
        send_or_disconnect client_fd (response (codes "INVITE") (codes "NO_SUCH_USER") (some name))
          client_fd
    invite_all (found users) user_from roomname client_fd =
        invite_each roomname
          (record message_init {
            kind = MessageType.invitation;
            username = some user_from.username;
            roomname = some roomname;
          })
          users

    -- The loop over the names: each search is a call of its own.
    unfoldable pub search_invited : List Text → Handler Invited
    search_invited [] = pure (found [])
    search_invited (name ∷ names) = do
      table ← gets (λ s. s.users)
      elim (users_table_find_by_username table name) [
        | none ↦ pure (missing name)
        | some user ↦ do rest ← search_invited names; pure (add_found user rest)
      ]

    unfoldable pub invite_from : User → Text → List Text → ℕ → Handler Bool
    invite_from user_from roomname usernames client_fd = do
      invited ← search_invited usernames
      invite_all invited user_from roomname client_fd

    -- The answer where there is no room of that name.
    unfoldable pub no_such_room : Text → Text → ℕ → Handler Bool
    no_such_room operation roomname client_fd =
        send_or_disconnect client_fd (response operation (codes "NO_SUCH_ROOM") (some roomname))
          client_fd

    -- What the requests about a room have in common: the room must exist, and the client must be
    -- identified.
    unfoldable pub in_room : Text → Text → ℕ → (User → Handler Bool) → Handler Bool
    in_room operation roomname client_fd act = do
      rooms ← gets (λ s. s.rooms)
      if room_table_contains rooms roomname
          then (do
            table ← gets (λ s. s.users)
            elim (users_table_find_by_client_fd table client_fd) [
              | none ↦ send_invalid_and_disconnect client_fd
              | some user_from ↦ act user_from
            ])
          else no_such_room operation roomname client_fd

    unfoldable pub invite_as : Text → List Text → ℕ → User → Handler Bool
    invite_as roomname usernames client_fd user_from = do
      member ← room_table_with roomname (room_is_a_member user_from)
      if was_set member
          then invite_from user_from roomname usernames client_fd
          else send_invalid_and_disconnect client_fd

    unfoldable pub process_invite : Message → ℕ → Handler Bool
    process_invite msg_in client_fd = elim msg_in.roomname [
      | none ↦ pure false
      | some roomname ↦ elim msg_in.usernames [
        | none ↦ pure false
        | some usernames ↦
            in_room (codes "INVITE") roomname client_fd (invite_as roomname usernames client_fd)
      ]
    ]

    unfoldable pub join_as_guest : User → Text → ℕ → Handler Bool
    join_as_guest user_from roomname client_fd = do
      room_table_with roomname (room_from_guest_to_member user_from)
      ok ← server_send client_fd (response (codes "JOIN_ROOM") (codes "SUCCESS") (some roomname))
      if ok
          then (do
            room_table_with roomname (
                room_notify_members
                  (record message_init {
                    kind = MessageType.joined_room;
                    roomname = some roomname;
                    username = some user_from.username;
                  })
                  client_fd)
            pure true)
          else process_disconnect client_fd

    unfoldable pub join_room : User → Text → ℕ → Handler Bool
    join_room user_from roomname client_fd = do
      member ← room_table_with roomname (room_is_a_member user_from)
      if was_set member then pure true else (do
        guest ← room_table_with roomname (room_is_a_guest user_from)
        if was_set guest
            then join_as_guest user_from roomname client_fd
            else send_or_disconnect client_fd
                (response (codes "JOIN_ROOM") (codes "NOT_INVITED") (some roomname)) client_fd)

    unfoldable pub process_join_room : Message → ℕ → Handler Bool
    process_join_room msg_in client_fd = elim msg_in.roomname [
      | none ↦ pure false
      | some roomname ↦
          in_room (codes "JOIN_ROOM") roomname client_fd
            λ user_from. join_room user_from roomname client_fd
    ]
