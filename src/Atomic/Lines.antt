-- ===== src/Atomic/Lines.antt =====
-- The atomic parts of the loops of server/src/client_handler.c.
use ojalvo_chat.Prelude.{
  ℕ, zero, suc, ◌+◌, refl, true, false, List, [], ◌∷◌, none, some, codes, length, ◌==◌,
}
use ojalvo_chat.Glib.{Glib}
use ojalvo_chat.Cjson.{Cjson}
use ojalvo_chat.UsersTable.{users_table_contains_by_client_fd}
use ojalvo_chat.Message.{message_init, message_from_json, server_buffer_size}
use ojalvo_chat.Message.Kind.{MessageType}
use ojalvo_chat.MessageBuffer.{
  MessageBuffer, message_buffer_init, message_buffer_append, message_buffer_extract,
  message_buffer_sanitize,
}
use ojalvo_chat.Server.Monad.{Network}
use ojalvo_chat.Handler.Chat.{response}
use ojalvo_chat.Client.{reject_invalid, handle_line, extract_loop, receive_loop, handle_client}
use ojalvo_chat.Atomic.{has_fields}
use ojalvo_chat.Atomic.Actions.{
  IsAtomic, in_turn, pure-IsAtomic, gets-IsAtomic, if-IsAtomic, elim-IsAtomic,
}
use ojalvo_chat.Atomic.Common.{server_send-IsAtomic, server_disconnect_client-IsAtomic}
use ojalvo_chat.Atomic.Talk.{message_handler_process-IsAtomic}

module _ ⦃G : Glib⦄ ⦃C : Cjson⦄ ⦃N : Network⦄ where
  reject_invalid-IsAtomic : (fd : ℕ) → IsAtomic (reject_invalid fd)
  unfolding reject_invalid has_fields
  reject_invalid-IsAtomic fd =
      in_turn (server_send-IsAtomic fd (response (codes "INVALID") (codes "INVALID") none) refl)
        λ _. in_turn (gets-IsAtomic _) λ table.
          in_turn
            (if-IsAtomic (users_table_contains_by_client_fd table fd) _ _
              (in_turn
                (message_handler_process-IsAtomic
                  (some (record message_init { kind = MessageType.disconnect })) fd)
                λ _. pure-IsAtomic tt)
              (server_disconnect_client-IsAtomic fd))
            λ _. pure-IsAtomic false

  handle_line-IsAtomic : (line : List ℕ) (fd : ℕ) → IsAtomic (handle_line line fd)
  unfolding handle_line
  handle_line-IsAtomic line fd =
      if-IsAtomic (length (message_buffer_sanitize line) == 0) _ _ (pure-IsAtomic true) (
        elim-IsAtomic (message_from_json (message_buffer_sanitize line)) _ _
          (reject_invalid-IsAtomic fd)
          λ m. in_turn (message_handler_process-IsAtomic (some m) fd) λ _. pure-IsAtomic true)

  extract_loop-IsAtomic :
      (fuel : ℕ) (b : MessageBuffer) (fd : ℕ) → IsAtomic (extract_loop fuel b fd)
  unfolding extract_loop
  extract_loop-IsAtomic zero b fd = pure-IsAtomic (some b)
  extract_loop-IsAtomic (suc fuel) b fd =
      elim-IsAtomic (message_buffer_extract b server_buffer_size) _ _ (pure-IsAtomic (some b)) λ e.
        in_turn (handle_line-IsAtomic e.out fd) λ go_on.
          if-IsAtomic go_on _ _ (extract_loop-IsAtomic fuel e.buffer fd) (pure-IsAtomic none)

  receive_loop-IsAtomic :
      (chunks : List (List ℕ)) (b : MessageBuffer) (fd : ℕ) → IsAtomic (receive_loop chunks b fd)
  unfolding receive_loop
  receive_loop-IsAtomic [] b fd = pure-IsAtomic tt
  receive_loop-IsAtomic (chunk ∷ chunks) b fd =
      if-IsAtomic (message_buffer_append b chunk).1 _ _
        (in_turn
          (extract_loop-IsAtomic (server_buffer_size + 1) (message_buffer_append b chunk).0 fd)
          λ left.
            elim-IsAtomic left _ _ (pure-IsAtomic tt) λ b'. receive_loop-IsAtomic chunks b' fd)
        (pure-IsAtomic tt)

  -- What the thread of a client does, in parts between which other threads may act.
  pub handle_client-IsAtomic :
      (chunks : List (List ℕ)) (fd : ℕ) → IsAtomic (handle_client chunks fd)
  unfolding handle_client
  handle_client-IsAtomic chunks fd = receive_loop-IsAtomic chunks message_buffer_init fd
