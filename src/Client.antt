-- ===== src/Client.antt =====
-- server/src/client_handler.c: the thread of one client. What `recv` gives is a list of chunks;
-- its end stands for a result that is not positive. The buffers are taken to be allocated.
pub mod Stream
pub mod Sound
use ojalvo_chat.Prelude.{
  ℕ, zero, suc, ◌+◌, Bool, true, false, List, [], ◌∷◌, Option, none, some, codes, length, ◌==◌,
  if◌then◌else◌,
}
use ojalvo_chat.Glib.{Glib}
use ojalvo_chat.Cjson.{Cjson}
use ojalvo_chat.UsersTable.{users_table_contains_by_client_fd}
use ojalvo_chat.Message.{Message, message_init, message_from_json, server_buffer_size}
use ojalvo_chat.Message.Kind.{MessageType}
use ojalvo_chat.MessageBuffer.{
  MessageBuffer, Extracted, message_buffer_init, message_buffer_append, message_buffer_extract,
  message_buffer_sanitize,
}
use ojalvo_chat.Server.{Handler, server_send, server_disconnect_client}
use ojalvo_chat.Server.Monad.{Network, pure, gets, ◌>>=◌, ◌>>◌}
use ojalvo_chat.Handler.{message_handler_process}
use ojalvo_chat.Handler.Chat.{response}

module _ ⦃G : Glib⦄ ⦃C : Cjson⦄ ⦃N : Network⦄ where
  -- A text that is no message: the client is told, and is disconnected.
  unfoldable pub reject_invalid : ℕ → Handler Bool
  reject_invalid client_fd = do
    server_send client_fd (response (codes "INVALID") (codes "INVALID") none)
    table ← gets (λ s. s.users)
    (if users_table_contains_by_client_fd table client_fd
        then (do
          message_handler_process (some (record message_init { kind = MessageType.disconnect }))
              client_fd
          pure tt)
        else server_disconnect_client client_fd)
    pure false

  -- The body of the inner loop, for one line: whether the thread goes on.
  unfoldable pub handle_line : List ℕ → ℕ → Handler Bool
  handle_line line client_fd =
      let message = message_buffer_sanitize line in
      if length message == 0 then pure true else (elim (message_from_json message) [
        | none ↦ reject_invalid client_fd
        | some msg_in ↦ do message_handler_process (some msg_in) client_fd; pure true
      ])

  -- The inner loop, with fuel: the buffer that it leaves, or `none` where the thread returns.
  unfoldable pub extract_loop : ℕ → MessageBuffer → ℕ → Handler (Option MessageBuffer)
  extract_loop zero buffer client_fd = pure (some buffer)
  extract_loop (suc fuel) buffer client_fd =
      elim (message_buffer_extract buffer server_buffer_size) [
        | none ↦ pure (some buffer)
        | some e ↦ do
          go_on ← handle_line e.out client_fd
          let rest = extract_loop fuel e.buffer client_fd
          if go_on then rest else pure none
      ]

  unfoldable pub receive_loop : List (List ℕ) → MessageBuffer → ℕ → Handler (Unit {0})
  receive_loop [] buffer client_fd = pure tt
  receive_loop (chunk ∷ chunks) buffer client_fd =
      let (buffer', appended) = message_buffer_append buffer chunk in
      if appended
      then (do
        left ← extract_loop (server_buffer_size + 1) buffer' client_fd
        elim left [ none ↦ pure tt | some buffer'' ↦ receive_loop chunks buffer'' client_fd ])
      else pure tt

  unfoldable pub handle_client : List (List ℕ) → ℕ → Handler (Unit {0})
  handle_client chunks client_fd = receive_loop chunks message_buffer_init client_fd
