-- ===== src/Atomic/Talk.antt =====
-- The atomic parts of the handlers of server/src/message_handler.c for the members of a room, and
-- of the choice of the handler.
use ojalvo_chat.Prelude.{ℕ, refl, Bool, true, false, Option, none, some, Text, codes}
use ojalvo_chat.Glib.{Glib}
use ojalvo_chat.Cjson.{Cjson}
use ojalvo_chat.User.{User}
use ojalvo_chat.UsersTable.{users_table_contains_by_client_fd}
use ojalvo_chat.UsersTable.Shared.{remove}
use ojalvo_chat.Message.{Message, message_init}
use ojalvo_chat.Message.Kind.{MessageType}
use ojalvo_chat.Server.{Handler, room_table_with}
use ojalvo_chat.Server.Monad.{Network, pure}
use ojalvo_chat.Handler.{
  process_identified, reject_unidentified, when_identified, process_kind, message_handler_process,
}
use ojalvo_chat.Handler.Chat.{response}
use ojalvo_chat.Handler.Rooms.{was_set}
use ojalvo_chat.Handler.RoomTalk.{
  room_leave, drop_room, room_users, object_or_empty, not_joined, if_member, as_member,
  list_members, process_room_users, say_to_members, process_room_text, leave_room,
  process_leave_room,
}
use ojalvo_chat.Atomic.{members, same, once, remove_room, change_room, has_fields}
use ojalvo_chat.Atomic.Actions.{
  returned, IsAtomic, part, in_turn, pure-IsAtomic, gets-IsAtomic, if-IsAtomic, elim-IsAtomic,
}
use ojalvo_chat.Atomic.Common.{
  server_send-IsAtomic, room_table_with-IsAtomic, notify_room-IsAtomic, process_disconnect-IsAtomic,
  send_or_disconnect-IsAtomic,
}
use ojalvo_chat.Atomic.Handlers.{
  process_identify-IsAtomic, process_status-IsAtomic, process_users-IsAtomic, process_text-IsAtomic,
  process_public_text-IsAtomic,
}
use ojalvo_chat.Atomic.Rooms.{
  look-IsAtomic, member-IsAtomic, in_room-IsAtomic, process_new_room-IsAtomic,
  process_invite-IsAtomic, process_join_room-IsAtomic,
}

module _ ⦃G : Glib⦄ ⦃C : Cjson⦄ ⦃N : Network⦄ where
  as_member-IsAtomic :
      (operation name : Text) (fd : ℕ) (act : User → Handler Bool)
      → ((u : User) → IsAtomic (act u))
      → IsAtomic (as_member operation name fd act)
  unfolding as_member if_member not_joined has_fields
  as_member-IsAtomic operation name fd act h = in_room-IsAtomic operation name fd _ λ u.
      in_turn (member-IsAtomic u name) λ member. if-IsAtomic (was_set member) _ _ (h u) (
        send_or_disconnect-IsAtomic fd (response operation (codes "NOT_JOINED") (some name)) fd
          refl)

  list_members-IsAtomic : (name : Text) (fd : ℕ) (u : User) → IsAtomic (list_members name fd u)
  unfolding list_members room_users has_fields
  list_members-IsAtomic name fd u = in_turn (look-IsAtomic name _) λ object.
      send_or_disconnect-IsAtomic fd
        (record message_init {
          kind = MessageType.room_user_list;
          roomname = some name;
          users = some (object_or_empty object);
        })
        fd refl

  pub process_room_users-IsAtomic : (m : Message) (fd : ℕ) → IsAtomic (process_room_users m fd)
  unfolding process_room_users
  process_room_users-IsAtomic m fd =
      elim-IsAtomic m.roomname _ _ (pure-IsAtomic false)
        λ name. as_member-IsAtomic _ name fd _ (list_members-IsAtomic name fd)

  say_to_members-IsAtomic :
      (name text : Text) (fd : ℕ) (u : User) → IsAtomic (say_to_members name text fd u)
  unfolding say_to_members has_fields
  say_to_members-IsAtomic name text fd u =
      in_turn
        (notify_room-IsAtomic name
          (record message_init {
            kind = MessageType.room_text_from;
            roomname = some name;
            username = some u.username;
            text = some text;
          })
          fd refl)
        λ _. pure-IsAtomic true

  pub process_room_text-IsAtomic : (m : Message) (fd : ℕ) → IsAtomic (process_room_text m fd)
  unfolding process_room_text
  process_room_text-IsAtomic m fd = elim-IsAtomic m.roomname _ _ (pure-IsAtomic false) λ name.
      elim-IsAtomic m.text _ _ (pure-IsAtomic false)
        λ text. as_member-IsAtomic _ name fd _ (say_to_members-IsAtomic name text fd)

  leave-IsAtomic : (u : User) (name : Text) → IsAtomic (room_table_with name (room_leave u))
  unfolding room_leave
  leave-IsAtomic u name =
      room_table_with-IsAtomic name _
        λ room s e f. returned (once (change_room name f (members (remove u.username) same)))

  -- Between the visit that empties the room and its removal other threads may act.
  leave_room-IsAtomic : (name : Text) (fd : ℕ) (u : User) → IsAtomic (leave_room name fd u)
  unfolding leave_room drop_room has_fields
  leave_room-IsAtomic name fd u = in_turn (leave-IsAtomic u name) λ empty.
      in_turn
        (if-IsAtomic (was_set empty) (drop_room name) (pure tt)
          (part λ s. returned (once (remove_room name), refl)) (pure-IsAtomic tt))
        λ _.
          in_turn
            (notify_room-IsAtomic name
              (record message_init {
                kind = MessageType.left_room;
                roomname = some name;
                username = some u.username;
              })
              fd refl)
            λ _. pure-IsAtomic true

  pub process_leave_room-IsAtomic : (m : Message) (fd : ℕ) → IsAtomic (process_leave_room m fd)
  unfolding process_leave_room
  process_leave_room-IsAtomic m fd =
      elim-IsAtomic m.roomname _ _ (pure-IsAtomic false)
        λ name. as_member-IsAtomic _ name fd _ (leave_room-IsAtomic name fd)

  process_identified-IsAtomic :
      (kind : MessageType) (m : Message) (fd : ℕ) → IsAtomic (process_identified kind m fd)
  unfolding process_identified
  process_identified-IsAtomic MessageType.status m fd = process_status-IsAtomic m fd
  process_identified-IsAtomic MessageType.users m fd = process_users-IsAtomic fd
  process_identified-IsAtomic MessageType.text m fd = process_text-IsAtomic m fd
  process_identified-IsAtomic MessageType.public_text m fd = process_public_text-IsAtomic m fd
  process_identified-IsAtomic MessageType.new_room m fd = process_new_room-IsAtomic m fd
  process_identified-IsAtomic MessageType.invite m fd = process_invite-IsAtomic m fd
  process_identified-IsAtomic MessageType.join_room m fd = process_join_room-IsAtomic m fd
  process_identified-IsAtomic MessageType.room_users m fd = process_room_users-IsAtomic m fd
  process_identified-IsAtomic MessageType.room_text m fd = process_room_text-IsAtomic m fd
  process_identified-IsAtomic MessageType.leave_room m fd = process_leave_room-IsAtomic m fd
  process_identified-IsAtomic _ m fd = pure-IsAtomic true

  when_identified-IsAtomic :
      (kind : MessageType) (m : Message) (fd : ℕ) → IsAtomic (when_identified kind m fd)
  unfolding when_identified reject_unidentified has_fields
  when_identified-IsAtomic kind m fd = in_turn (gets-IsAtomic _) λ table.
      if-IsAtomic (users_table_contains_by_client_fd table fd) _ _
        (process_identified-IsAtomic kind m fd)
        (in_turn
          (server_send-IsAtomic fd (response (codes "INVALID") (codes "NOT_IDENTIFIED") none) refl)
          λ _. in_turn (process_disconnect-IsAtomic fd) λ _. pure-IsAtomic true)

  process_kind-IsAtomic :
      (kind : MessageType) (m : Message) (fd : ℕ) → IsAtomic (process_kind kind m fd)
  unfolding process_kind
  process_kind-IsAtomic MessageType.unknown m fd = pure-IsAtomic false
  process_kind-IsAtomic MessageType.disconnect m fd = process_disconnect-IsAtomic fd
  process_kind-IsAtomic MessageType.identify m fd = process_identify-IsAtomic m fd
  process_kind-IsAtomic kind m fd = when_identified-IsAtomic kind m fd

  pub message_handler_process-IsAtomic :
      (o : Option Message) (fd : ℕ) → IsAtomic (message_handler_process o fd)
  unfolding message_handler_process
  message_handler_process-IsAtomic none fd = pure-IsAtomic false
  message_handler_process-IsAtomic (some m) fd = process_kind-IsAtomic m.kind m fd
