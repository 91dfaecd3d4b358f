-- ===== src/Atomic/Handlers.antt =====
-- The atomic parts of the handlers of server/src/message_handler.c for names, statuses and texts.
use ojalvo_chat.Prelude.{ℕ, refl, true, false, Option, none, some, Text, ◌==◌, codes, str_eq}
use ojalvo_chat.Glib.{Glib}
use ojalvo_chat.Cjson.{Cjson}
use ojalvo_chat.User.{User, Status, status_from_string}
use ojalvo_chat.UsersTable.{
  users_table_find_by_client_fd, users_table_find_by_username, users_table_add,
}
use ojalvo_chat.UsersTable.Shared.{add, change_status_by_client_fd}
use ojalvo_chat.Room.{Room}
use ojalvo_chat.Message.{Message, message_init}
use ojalvo_chat.Message.Kind.{MessageType}
use ojalvo_chat.Server.Monad.{Network, continue}
use ojalvo_chat.Handler.Notify.{non_null, store_users}
use ojalvo_chat.Handler.Chat.{
  status_eq, room_update_status, identify_new, identify_taken, identify_as, process_identify,
  update_status, process_status, process_users, is_self, send_text, text_named, process_text,
  process_public_text, response,
}
use ojalvo_chat.Atomic.{rest, Changes, same, members, guests, has_fields}
use ojalvo_chat.Atomic.Actions.{
  stopped, IsAtomic, part, in_turn, pure-IsAtomic, gets-IsAtomic, if-IsAtomic, elim-IsAtomic,
}
use ojalvo_chat.Atomic.Common.{
  server_send-IsAtomic, change_users-IsAtomic, each_room-IsAtomic, notify_all-IsAtomic,
  process_disconnect-IsAtomic, send_invalid_and_disconnect-IsAtomic, send_or_disconnect-IsAtomic,
}

module _ ⦃G : Glib⦄ ⦃C : Cjson⦄ ⦃N : Network⦄ where
  non_null-IsAtomic : (o : Option Text) → IsAtomic (non_null o)
  unfolding non_null
  non_null-IsAtomic none = part λ s. stopped rest
  non_null-IsAtomic (some t) = pure-IsAtomic t

  identify_new-IsAtomic : (name : Text) (fd : ℕ) → IsAtomic (identify_new name fd)
  unfolding identify_new store_users continue has_fields
  identify_new-IsAtomic name fd =
      in_turn (change_users-IsAtomic (λ s. (users_table_add s.users name fd).1) (add name fd))
        λ added.
          if-IsAtomic added _ _
            (in_turn
              (server_send-IsAtomic fd (response (codes "IDENTIFY") (codes "SUCCESS") (some name))
                refl)
              λ ok.
                if-IsAtomic ok _ _
                  (in_turn
                    (notify_all-IsAtomic
                      (record message_init { kind = MessageType.new_user; username = some name }) fd
                      refl)
                    λ _. pure-IsAtomic true)
                  (process_disconnect-IsAtomic fd))
            (pure-IsAtomic false)

  identify_taken-IsAtomic :
      (name : Text) (holder : User) (fd : ℕ) → IsAtomic (identify_taken name holder fd)
  unfolding identify_taken has_fields
  identify_taken-IsAtomic name holder fd =
      if-IsAtomic (holder.socket_fd == fd) _ _ (pure-IsAtomic true) (
        in_turn (server_send-IsAtomic fd _ refl)
          λ _. in_turn (process_disconnect-IsAtomic fd) λ _. pure-IsAtomic true)

  -- The two searches are two parts.
  identify_as-IsAtomic : (name : Text) (fd : ℕ) → IsAtomic (identify_as name fd)
  unfolding identify_as
  identify_as-IsAtomic name fd = in_turn (gets-IsAtomic _) λ table.
      elim-IsAtomic (users_table_find_by_client_fd table fd) _ _
        (in_turn (gets-IsAtomic _) λ now.
          elim-IsAtomic (users_table_find_by_username now name) _ _ (identify_new-IsAtomic name fd)
            (λ holder. identify_taken-IsAtomic name holder fd))
        λ user.
          if-IsAtomic (str_eq user.username name) _ _ (pure-IsAtomic true)
            (send_invalid_and_disconnect-IsAtomic fd)

  pub process_identify-IsAtomic : (m : Message) (fd : ℕ) → IsAtomic (process_identify m fd)
  unfolding process_identify
  process_identify-IsAtomic m fd =
      elim-IsAtomic m.username _ _ (pure-IsAtomic false) λ name. identify_as-IsAtomic _ fd

  room_update_status-Changes :
      (fd : ℕ) (status : Status) (room : Room) → Changes room (room_update_status fd status room)
  unfolding room_update_status
  room_update_status-Changes fd status room =
      guests (change_status_by_client_fd fd status)
        (members (change_status_by_client_fd fd status) same)

  update_status-IsAtomic :
      (user : User) (status : Status) (text : Text) (fd : ℕ)
      → IsAtomic (update_status user status text fd)
  unfolding update_status store_users continue has_fields
  update_status-IsAtomic user status text fd =
      if-IsAtomic (status_eq user.status status) _ _ (pure-IsAtomic true) (
        in_turn (change_users-IsAtomic (λ s. tt) (change_status_by_client_fd fd status)) λ _.
          in_turn (each_room-IsAtomic _ (room_update_status-Changes user.socket_fd status)) λ _.
            in_turn
              (notify_all-IsAtomic
                (record message_init {
                  kind = MessageType.new_status;
                  username = some user.username;
                  status = some text;
                })
                fd refl)
              λ _. pure-IsAtomic true)

  pub process_status-IsAtomic : (m : Message) (fd : ℕ) → IsAtomic (process_status m fd)
  unfolding process_status
  process_status-IsAtomic m fd = elim-IsAtomic m.status _ _ (pure-IsAtomic false) λ text.
      elim-IsAtomic (status_from_string (some text)) _ _ (send_invalid_and_disconnect-IsAtomic fd)
        λ status. in_turn (gets-IsAtomic _) λ table.
          elim-IsAtomic (users_table_find_by_client_fd table fd) _ _ (pure-IsAtomic true)
            λ user. update_status-IsAtomic user status text fd

  pub process_users-IsAtomic : (fd : ℕ) → IsAtomic (process_users fd)
  unfolding process_users has_fields
  process_users-IsAtomic fd =
      in_turn (gets-IsAtomic _) λ table. send_or_disconnect-IsAtomic fd _ fd refl

  send_text-IsAtomic : (to : User) (text : Option Text) (fd : ℕ) → IsAtomic (send_text to text fd)
  unfolding send_text has_fields
  send_text-IsAtomic to text fd = in_turn (gets-IsAtomic _) λ table.
      elim-IsAtomic (users_table_find_by_client_fd table fd) _ _ (pure-IsAtomic false) λ from.
        in_turn (non_null-IsAtomic text) λ body.
          send_or_disconnect-IsAtomic to.socket_fd
            (record message_init {
              kind = MessageType.text_from;
              username = some from.username;
              text = some body;
            })
            fd refl

  text_named-IsAtomic :
      (name : Text) (text : Option Text) (fd : ℕ) → IsAtomic (text_named name text fd)
  unfolding text_named has_fields
  text_named-IsAtomic name text fd = in_turn (gets-IsAtomic _) λ table.
      elim-IsAtomic (users_table_find_by_username table name) _ _
        (send_or_disconnect-IsAtomic fd (response (codes "TEXT") (codes "NO_SUCH_USER") (some name))
          fd refl)
        λ to. in_turn (gets-IsAtomic _) λ now.
          if-IsAtomic (is_self to (users_table_find_by_client_fd now fd)) _ _ (pure-IsAtomic true)
            (send_text-IsAtomic to text fd)

  pub process_text-IsAtomic : (m : Message) (fd : ℕ) → IsAtomic (process_text m fd)
  unfolding process_text
  process_text-IsAtomic m fd =
      in_turn (non_null-IsAtomic m.username) λ name. text_named-IsAtomic name m.text fd

  pub process_public_text-IsAtomic : (m : Message) (fd : ℕ) → IsAtomic (process_public_text m fd)
  unfolding process_public_text has_fields
  process_public_text-IsAtomic m fd = in_turn (gets-IsAtomic _) λ table.
      elim-IsAtomic (users_table_find_by_client_fd table fd) _ _ (pure-IsAtomic false) λ from.
        in_turn (non_null-IsAtomic m.text)
          λ body. in_turn (notify_all-IsAtomic _ fd refl) λ _. pure-IsAtomic true
