-- ===== src/Handler/Chat.antt =====
-- server/src/message_handler.c: identification, status, the list of users, and texts.
use mathlib.Core.List.{foldl}
use ojalvo_chat.Prelude.{
  ℕ, Bool, true, false, List, Option, none, some, Text, ◌==◌, codes, str_eq, take, if◌then◌else◌,
}
use ojalvo_chat.Glib.{Glib}
use ojalvo_chat.Cjson.{Cjson}
use ojalvo_chat.User.{
  User, Status, active, away, busy, username_max_length, status_from_string, status_to_string,
}
use ojalvo_chat.UsersTable.{
  users_table_add, users_table_find_by_username, users_table_find_by_client_fd,
  users_table_change_status_by_client_fd, users_table_iter,
}
use ojalvo_chat.Room.{Room}
use ojalvo_chat.Message.{Message, message_init}
use ojalvo_chat.Message.Kind.{MessageType}
use ojalvo_chat.Server.{Handler, each_room, server_send}
use ojalvo_chat.Server.Monad.{Network, pure, gets, ◌>>=◌, ◌>>◌}
use ojalvo_chat.Handler.Notify.{
  server_users, non_null, store_users, notify_all_but_self, process_disconnect,
  send_invalid_and_disconnect, send_or_disconnect,
}

-- The comparison `user.status != msg_status`.
abbrev pub status_eq : Status → Status → Bool
status_eq active active = true
status_eq away away = true
status_eq busy busy = true
status_eq _ _ = false

module _ ⦃G : Glib⦄ ⦃C : Cjson⦄ where
  -- A RESPONSE of the server.
  abbrev pub response : Text → Text → Option Text → Message
  response operation result extra = record message_init {
    kind = MessageType.response;
    operation = some operation;
    result = some result;
    extra = extra;
  }

  unfoldable pub room_update_status : ℕ → Status → Room → Room
  room_update_status fd status room = record room {
    members = (users_table_change_status_by_client_fd room.members fd status).0;
    guests = (users_table_change_status_by_client_fd room.guests fd status).0;
  }

  -- A JSON object with the status of each user under the user's name.
  unfoldable pub add_users_to : C.Json → List User → C.Json
  add_users_to = foldl λ object user.
      C.add_item_to_object object user.username (C.create_string (status_to_string user.status))

  module _ ⦃N : Network⦄ where
    -- process_identify once the client is known to have no name and the name to be free.
    unfoldable pub identify_new : Text → ℕ → Handler Bool
    identify_new username client_fd = do
      table ← gets (λ s. s.users)
      let (table', added) = users_table_add table username client_fd
      store_users server_users table'
      if added
          then (do
            ok ←
                server_send client_fd
                  (response (codes "IDENTIFY") (codes "SUCCESS") (some username))
            if ok
                then (do
                  notify_all_but_self server_users
                      (record message_init {
                        kind = MessageType.new_user;
                        username = some username;
                      })
                      client_fd
                  pure true)
                else process_disconnect client_fd)
          else pure false

    unfoldable pub identify_taken : Text → User → ℕ → Handler Bool
    identify_taken username holder client_fd =
        if holder.socket_fd == client_fd then pure true else (do
          server_send client_fd
              (response (codes "IDENTIFY") (codes "USER_ALREADY_EXISTS") (some username))
          process_disconnect client_fd
          pure true)

    unfoldable pub identify_as : Text → ℕ → Handler Bool
    identify_as username client_fd = do
      table ← gets (λ s. s.users)
      elim (users_table_find_by_client_fd table client_fd) [
        | some user ↦
            if str_eq user.username username
            then pure true
            else send_invalid_and_disconnect client_fd
        | none ↦ do
          now ← gets (λ s. s.users)
          elim (users_table_find_by_username now username) [
            | some holder ↦ identify_taken username holder client_fd
            | none ↦ identify_new username client_fd
          ]
      ]

    -- `strndup(msg_in->username, 8)` cuts the name.
    unfoldable pub process_identify : Message → ℕ → Handler Bool
    process_identify msg_in client_fd = elim msg_in.username [
      | none ↦ pure false
      | some name ↦ identify_as (take username_max_length name) client_fd
    ]

    unfoldable pub update_status : User → Status → Text → ℕ → Handler Bool
    update_status user msg_status status_text client_fd =
        if status_eq user.status msg_status then pure true else (do
          table ← gets (λ s. s.users)
          store_users server_users
              (users_table_change_status_by_client_fd table client_fd msg_status).0
          each_room (room_update_status user.socket_fd msg_status)
          notify_all_but_self server_users
              (record message_init {
                kind = MessageType.new_status;
                username = some user.username;
                status = some status_text;
              })
              client_fd
          pure true)

    unfoldable pub process_status : Message → ℕ → Handler Bool
    process_status msg_in client_fd = elim msg_in.status [
      | none ↦ pure false
      | some status_text ↦ elim (status_from_string (some status_text)) [
        | none ↦ send_invalid_and_disconnect client_fd
        | some msg_status ↦ do
          table ← gets (λ s. s.users)
          elim (users_table_find_by_client_fd table client_fd) [
            | none ↦ pure true
            | some user ↦ update_status user msg_status status_text client_fd
          ]
      ]
    ]

    unfoldable pub process_users : ℕ → Handler Bool
    process_users client_fd = do
      table ← gets (λ s. s.users)
      send_or_disconnect client_fd
          (record message_init {
            kind = MessageType.user_list;
            users = some (add_users_to C.create_object (users_table_iter table));
          })
          client_fd

    -- Whether the first search for the client finds the receiver.
    abbrev pub is_self : User → Option User → Bool
    is_self user_to none = false
    is_self user_to (some user_from_cmp) = str_eq user_to.username user_from_cmp.username

    -- The client is searched again.
    unfoldable pub send_text : User → Option Text → ℕ → Handler Bool
    send_text user_to text client_fd = do
      table ← gets (λ s. s.users)
      elim (users_table_find_by_client_fd table client_fd) [
        | none ↦ pure false
        | some user_from ↦ do
          body ← non_null text
          send_or_disconnect user_to.socket_fd
              (record message_init {
                kind = MessageType.text_from;
                username = some user_from.username;
                text = some body;
              })
              client_fd
      ]

    unfoldable pub text_named : Text → Option Text → ℕ → Handler Bool
    text_named name text client_fd = do
      table ← gets (λ s. s.users)
      elim (users_table_find_by_username table name) [
        | some user_to ↦ do
          now ← gets (λ s. s.users)
          if is_self user_to (users_table_find_by_client_fd now client_fd)
              then pure true
              else send_text user_to text client_fd
        | none ↦
            send_or_disconnect client_fd
              (response (codes "TEXT") (codes "NO_SUCH_USER") (some name)) client_fd
      ]

    -- The name is hashed by the lookup, NULL or not.
    unfoldable pub process_text : Message → ℕ → Handler Bool
    process_text msg_in client_fd = do
      name ← non_null msg_in.username
      text_named name msg_in.text client_fd

    unfoldable pub process_public_text : Message → ℕ → Handler Bool
    process_public_text msg_in client_fd = do
      table ← gets (λ s. s.users)
      elim (users_table_find_by_client_fd table client_fd) [
        | none ↦ pure false
        | some user_from ↦ do
          body ← non_null msg_in.text
          notify_all_but_self server_users
              (record message_init {
                kind = MessageType.public_text_from;
                username = some user_from.username;
                text = some body;
              })
              client_fd
          pure true
      ]
