-- ===== src/Handler/Notify.antt =====
-- server/src/message_handler.c: sending to all the users of a table, and disconnecting one.
use ojalvo_chat.Prelude.{
  ℕ, Bool, true, List, [], ◌∷◌, Option, none, some, Text, ◌==◌, codes, if◌then◌else◌,
}
use ojalvo_chat.Glib.{Glib}
use ojalvo_chat.Cjson.{Cjson}
use ojalvo_chat.User.{User}
use ojalvo_chat.UsersTable.{
  UsersTable, users_table_init, users_table_remove, users_table_find_by_client_fd, users_table_iter,
}
use ojalvo_chat.Room.{Room}
use ojalvo_chat.RoomTable.{room_table_find, room_table_write}
use ojalvo_chat.Message.{Message, message_init}
use ojalvo_chat.Message.Kind.{MessageType}
use ojalvo_chat.Server.{Server, Handler, each_room, server_send, server_disconnect_client}
use ojalvo_chat.Server.Monad.{Network, done, null_pointer, pure, raise, gets, ◌>>=◌, ◌>>◌}

-- What a `Users_Table*` of the handlers points to: the server's users, or a room's members.
pub data UsersRef : Type 0 where
  server_users : UsersRef
  members_of : Text → UsersRef

module _ ⦃G : Glib⦄ where
  -- A string that is read whether or not it is NULL.
  unfoldable pub non_null : Option Text → Handler Text
  non_null none = raise null_pointer
  non_null (some s) = pure s

  unfoldable pub load_users : UsersRef → Server → UsersTable
  load_users server_users s = s.users
  load_users (members_of name) s = elim (room_table_find s.rooms name) [
    | none ↦ users_table_init
    | some room ↦ room.members
  ]

  unfoldable pub store_users : UsersRef → UsersTable → Handler (Unit {0})
  store_users server_users t s = done tt (record s { users = t })
  store_users (members_of name) t s = elim (room_table_find s.rooms name) [
    | none ↦ done tt s
    | some room ↦
        done tt (record s { rooms = room_table_write s.rooms name (record room { members = t }) })
  ]

  unfoldable pub room_remove_data : Text → Room → Room
  room_remove_data username room = record room {
    guests = (users_table_remove room.guests username).0;
    members = (users_table_remove room.members username).0;
  }

  -- The second loop of notify_all_but_self: the users that could not be reached are dropped.
  unfoldable pub drop_unreached : UsersRef → List ℕ → Handler (Unit {0})
  unfolding load_users store_users
  drop_unreached users [] = pure tt
  drop_unreached users (fd ∷ fds) = do
    table ← gets (load_users users)
    (elim (users_table_find_by_client_fd table fd) [
      | none ↦ pure tt
      | some user ↦ do
        each_room (room_remove_data user.username)
        now ← gets (load_users users)
        store_users users (users_table_remove now user.username).0
    ])
    drop_unreached users fds

  module _ ⦃C : Cjson⦄ ⦃N : Network⦄ where
    -- The visits of send_if_is_not_self: the descriptors at which a send failed.
    unfoldable pub send_to_others : Message → ℕ → List User → Handler (List ℕ)
    send_to_others message client_fd [] = pure []
    send_to_others message client_fd (user ∷ users) =
        let rest = send_to_others message client_fd users in
        if user.socket_fd == client_fd then rest else (do
          ok ← server_send user.socket_fd message
          failed ← rest
          pure (if ok then failed else user.socket_fd ∷ failed))

    unfoldable pub notify_all_but_self : UsersRef → Message → ℕ → Handler (Unit {0})
    notify_all_but_self users message client_fd = do
      table ← gets (load_users users)
      failed ← send_to_others message client_fd (users_table_iter table)
      drop_unreached users failed

    -- The part of process_disconnect for a client that is identified.
    unfoldable pub forget_user : Option User → ℕ → Handler (Unit {0})
    forget_user none client_fd = pure tt
    forget_user (some user) client_fd = do
      notify_all_but_self server_users
          (record message_init { kind = MessageType.disconnected; username = some user.username })
          client_fd
      each_room (room_remove_data user.username)
      table ← gets (load_users server_users)
      store_users server_users (users_table_remove table user.username).0

    unfoldable pub process_disconnect : ℕ → Handler Bool
    process_disconnect client_fd = do
      table ← gets (λ s. s.users)
      forget_user (users_table_find_by_client_fd table client_fd) client_fd
      server_disconnect_client client_fd
      pure true

    unfoldable pub send_invalid_and_disconnect : ℕ → Handler Bool
    send_invalid_and_disconnect client_fd = do
      server_send client_fd (record message_init {
        kind = MessageType.response;
        operation = some (codes "INVALID");
        result = some (codes "INVALID");
      })
      process_disconnect client_fd

    -- `if (sent < 0) return process_disconnect(server, client_fd); return true;`
    unfoldable pub send_or_disconnect : ℕ → Message → ℕ → Handler Bool
    send_or_disconnect fd message client_fd = do
      ok ← server_send fd message
      if ok then pure true else process_disconnect client_fd
