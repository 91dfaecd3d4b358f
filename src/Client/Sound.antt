-- ===== src/Client/Sound.antt =====
-- What holds after server/src/client_handler.c handled a line, with nothing of another thread between.
use ojalvo_chat.Prelude.{
  ℕ, ◌≡◌, Bool, true, false, Option, none, some, Text, length, ◌==◌, Option-cases, Bool-cases, inl,
  inr,
}
use ojalvo_chat.Glib.{Glib}
use ojalvo_chat.Cjson.{Cjson}
use ojalvo_chat.UsersTable.{users_table_contains_by_client_fd}
use ojalvo_chat.Message.{Message, message_init, message_from_json}
use ojalvo_chat.Message.Kind.{MessageType}
use ojalvo_chat.MessageBuffer.{message_buffer_sanitize}
use ojalvo_chat.Server.{Server, server_disconnect_client}
use ojalvo_chat.Server.Monad.{Fault, Network}
use ojalvo_chat.Server.Ends.{Ends, returns, Ends-bind, Ends-mono, Ends-allow}
use ojalvo_chat.Server.Invariant.{IsGood}
use ojalvo_chat.Handler.Effects.{server_send-Ends}
use ojalvo_chat.Handler.Sound.{may_fault, message_handler_process-IsGood}
use ojalvo_chat.Client.{handle_line, reject_invalid}

module _ ⦃G : Glib⦄ ⦃C : Cjson⦄ ⦃N : Network⦄ where
  reject_invalid-IsGood :
      (F : Fault → Type 0) (fd : ℕ) (s : Server)
      → IsGood s
      → Ends F (λ _. IsGood) (reject_invalid fd s)
  unfolding reject_invalid server_disconnect_client
  reject_invalid-IsGood F fd s g = Ends-bind (
      server_send-Ends F _ fd _ s λ ok tr. Ends-bind (
        returns (
          Ends-bind (elim (Bool-cases (users_table_contains_by_client_fd s.users fd)) [
            | inl e ↦ rw e (
                Ends-bind (
                  Ends-allow (λ f h. cc)
                    (Ends-mono (λ _ t k. returns (returns k))
                      (message_handler_process-IsGood
                        (record message_init { kind = MessageType.disconnect }) fd
                        (record s { trace = tr })
                        (record { inv = g.inv; unlocked = g.unlocked })))))
            | inr e ↦ rw e (returns (returns (record { inv = g.inv; unlocked = g.unlocked })))
          ]))))

  abbrev pub read_may_fault : Option Message → Fault → Bool
  read_may_fault none f = false
  read_may_fault (some m) f = may_fault m.kind m f

  -- The faults that a line may stop at: those of its message.
  abbrev pub line_may_fault : Text → Fault → Bool
  line_may_fault text = read_may_fault (message_from_json (message_buffer_sanitize text))

  -- The handling of a line from a good state, with nothing of another thread in between, ends in a
  -- good state, whether the line is empty without its control bytes, is no message, or is a
  -- message; or it stops at a fault that the kind of its message allows.
  pub handle_line-IsGood :
      (text : Text) (fd : ℕ) (s : Server)
      → IsGood s
      → Ends (λ f. line_may_fault text f ≡ true) (λ _. IsGood) (handle_line text fd s)
  unfolding handle_line
  handle_line-IsGood text fd s g = elim (Bool-cases (length (message_buffer_sanitize text) == 0)) [
    | inl e ↦ rw (e, handle_line) (returns g)
    | inr e ↦ elim (Option-cases (message_from_json (message_buffer_sanitize text))) [
      | inl f ↦ rw (e, f, handle_line) (reject_invalid-IsGood _ fd s g)
      | inr (m, f) ↦
          rw (e, f, handle_line)
            (Ends-bind (Ends-mono (λ _ t k. returns k) (message_handler_process-IsGood m fd s g)))
    ]
  ]
