-- ===== src/Handler/RoomTalk.antt =====
-- server/src/message_handler.c: what the members of a room may ask of it.
use ojalvo_chat.Prelude.{ℕ, Bool, true, false, Option, none, some, Text, ◌==◌, codes, if◌then◌else◌}
use ojalvo_chat.Glib.{Glib}
use ojalvo_chat.Cjson.{Cjson}
use ojalvo_chat.User.{User}
use ojalvo_chat.UsersTable.{users_table_remove, users_table_iter, users_table_size}
use ojalvo_chat.Room.{Room}
use ojalvo_chat.RoomTable.{room_table_remove, room_table_write}
use ojalvo_chat.Message.{Message, message_init}
use ojalvo_chat.Message.Kind.{MessageType}
use ojalvo_chat.Server.{Handler, room_table_with}
use ojalvo_chat.Server.Monad.{Network, done, pure, ◌>>=◌, ◌>>◌}
use ojalvo_chat.Handler.Notify.{send_or_disconnect}
use ojalvo_chat.Handler.Chat.{response, add_users_to}
use ojalvo_chat.Handler.Rooms.{was_set, room_is_a_member, room_notify_members, in_room}

module _ ⦃G : Glib⦄ where
  -- Whether the room is empty now.
  unfoldable pub room_leave : User → Text → Room → Handler Bool
  room_leave user name room s =
      let members = (users_table_remove room.members user.username).0 in
      done (users_table_size members == 0)
        (record s { rooms = room_table_write s.rooms name (record room { members = members }) })

  unfoldable pub drop_room : Text → Handler (Unit {0})
  drop_room roomname s = done tt (record s { rooms = (room_table_remove s.rooms roomname).0 })

  module _ ⦃C : Cjson⦄ where
    unfoldable pub room_users : Text → Room → Handler C.Json
    room_users name room = pure (add_users_to C.create_object (users_table_iter room.members))

    -- `users` as the visit leaves it: an empty object where the room is gone.
    abbrev pub object_or_empty : Option C.Json → C.Json
    object_or_empty none = C.create_object
    object_or_empty (some object) = object

  module _ ⦃C : Cjson⦄ ⦃N : Network⦄ where
    -- The answer to one who is not a member.
    unfoldable pub not_joined : Text → Text → ℕ → Handler Bool
    not_joined operation roomname client_fd =
        send_or_disconnect client_fd (response operation (codes "NOT_JOINED") (some roomname))
          client_fd

    -- A request of members only.
    unfoldable pub if_member : Text → Text → ℕ → (User → Handler Bool) → User → Handler Bool
    if_member operation roomname client_fd act user_from = do
      member ← room_table_with roomname (room_is_a_member user_from)
      if was_set member then act user_from else not_joined operation roomname client_fd

    unfoldable pub as_member : Text → Text → ℕ → (User → Handler Bool) → Handler Bool
    as_member operation roomname client_fd act =
        in_room operation roomname client_fd (if_member operation roomname client_fd act)

    unfoldable pub list_members : Text → ℕ → User → Handler Bool
    list_members roomname client_fd user_from = do
      object ← room_table_with roomname room_users
      send_or_disconnect client_fd
          (record message_init {
            kind = MessageType.room_user_list;
            roomname = some roomname;
            users = some (object_or_empty object);
          })
          client_fd

    unfoldable pub process_room_users : Message → ℕ → Handler Bool
    process_room_users msg_in client_fd = elim msg_in.roomname [
      | none ↦ pure false
      | some roomname ↦
          as_member (codes "ROOM_USERS") roomname client_fd (list_members roomname client_fd)
    ]

    unfoldable pub say_to_members : Text → Text → ℕ → User → Handler Bool
    say_to_members roomname text client_fd user_from = do
      room_table_with roomname (
          room_notify_members
            (record message_init {
              kind = MessageType.room_text_from;
              roomname = some roomname;
              username = some user_from.username;
              text = some text;
            })
            client_fd)
      pure true

    unfoldable pub process_room_text : Message → ℕ → Handler Bool
    process_room_text msg_in client_fd = elim msg_in.roomname [
      | none ↦ pure false
      | some roomname ↦ elim msg_in.text [
        | none ↦ pure false
        | some text ↦
            as_member (codes "ROOM_TEXT") roomname client_fd
              (say_to_members roomname text client_fd)
      ]
    ]

    unfoldable pub leave_room : Text → ℕ → User → Handler Bool
    leave_room roomname client_fd user_from = do
      empty ← room_table_with roomname (room_leave user_from)
      (if was_set empty then drop_room roomname else pure tt)
      room_table_with roomname (
          room_notify_members
            (record message_init {
              kind = MessageType.left_room;
              roomname = some roomname;
              username = some user_from.username;
            })
            client_fd)
      pure true

    unfoldable pub process_leave_room : Message → ℕ → Handler Bool
    process_leave_room msg_in client_fd = elim msg_in.roomname [
      | none ↦ pure false
      | some roomname ↦
          as_member (codes "LEAVE_ROOM") roomname client_fd (leave_room roomname client_fd)
    ]
