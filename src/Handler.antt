-- ===== src/Handler.antt =====
-- server/src/message_handler.c: the dispatch of a message to its handler. The handlers are in the
-- modules below; each runs on its own here, with nothing of another thread between its steps.
pub mod Notify
pub mod Chat
pub mod Rooms
pub mod RoomTalk
pub mod Effects
pub mod Sound
pub mod Delivery
pub mod Farewell
pub mod Answers
pub mod Invites
pub mod Presence
pub mod Membership
pub mod Joining
pub mod Guests
pub mod Inviting
pub mod Notice
pub mod Arrival
pub mod Creation
pub mod Deadlock
pub mod Dropping
pub mod Receivers
pub mod Listed
use ojalvo_chat.Prelude.{ℕ, Bool, true, false, Option, none, some, codes, if◌then◌else◌}
use ojalvo_chat.Glib.{Glib}
use ojalvo_chat.Cjson.{Cjson}
use ojalvo_chat.UsersTable.{users_table_contains_by_client_fd}
use ojalvo_chat.Message.{Message}
use ojalvo_chat.Message.Kind.{MessageType}
use ojalvo_chat.Server.{Server, Handler, server_send}
use ojalvo_chat.Server.Monad.{Network, pure, gets, ◌>>=◌, ◌>>◌}
use ojalvo_chat.Handler.Notify.{process_disconnect}
use ojalvo_chat.Handler.Chat.{
  response, process_identify, process_status, process_users, process_text, process_public_text,
}
use ojalvo_chat.Handler.Rooms.{process_new_room, process_invite, process_join_room}
use ojalvo_chat.Handler.RoomTalk.{process_room_users, process_room_text, process_leave_room}

module _ ⦃G : Glib⦄ ⦃C : Cjson⦄ ⦃N : Network⦄ where
  -- The `switch` on the kind of message of an identified client.
  unfoldable pub process_identified : MessageType → Message → ℕ → Handler Bool
  process_identified MessageType.status msg_in client_fd = process_status msg_in client_fd
  process_identified MessageType.users msg_in client_fd = process_users client_fd
  process_identified MessageType.text msg_in client_fd = process_text msg_in client_fd
  process_identified MessageType.public_text msg_in client_fd = process_public_text msg_in client_fd
  process_identified MessageType.new_room msg_in client_fd = process_new_room msg_in client_fd
  process_identified MessageType.invite msg_in client_fd = process_invite msg_in client_fd
  process_identified MessageType.join_room msg_in client_fd = process_join_room msg_in client_fd
  process_identified MessageType.room_users msg_in client_fd = process_room_users msg_in client_fd
  process_identified MessageType.room_text msg_in client_fd = process_room_text msg_in client_fd
  process_identified MessageType.leave_room msg_in client_fd = process_leave_room msg_in client_fd
  process_identified _ msg_in client_fd = pure true

  unfoldable pub reject_unidentified : ℕ → Handler Bool
  reject_unidentified client_fd = do
    server_send client_fd (response (codes "INVALID") (codes "NOT_IDENTIFIED") none)
    process_disconnect client_fd
    pure true

  unfoldable pub when_identified : MessageType → Message → ℕ → Handler Bool
  when_identified kind msg_in client_fd = do
    table ← gets (λ s. s.users)
    if users_table_contains_by_client_fd table client_fd
        then process_identified kind msg_in client_fd
        else reject_unidentified client_fd

  unfoldable pub process_kind : MessageType → Message → ℕ → Handler Bool
  process_kind MessageType.unknown msg_in client_fd = pure false
  process_kind MessageType.disconnect msg_in client_fd = process_disconnect client_fd
  process_kind MessageType.identify msg_in client_fd = process_identify msg_in client_fd
  process_kind kind msg_in client_fd = when_identified kind msg_in client_fd

  -- A NULL message is `none`.
  unfoldable pub message_handler_process : Option Message → ℕ → Handler Bool
  message_handler_process none client_fd = pure false
  message_handler_process (some msg_in) client_fd = process_kind msg_in.kind msg_in client_fd
