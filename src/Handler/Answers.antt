-- ===== src/Handler/Answers.antt =====
-- What server/src/message_handler.c does where it tells one client something and disconnects a client
-- if that fails.
use ojalvo_chat.Prelude.{ℕ, ◌≡◌, refl, true, inl, inr, Bool, Bool-cases}
use ojalvo_chat.Glib.{Glib}
use ojalvo_chat.Cjson.{Cjson}
use ojalvo_chat.Message.{Message}
use ojalvo_chat.Server.{Server}
use ojalvo_chat.Server.Monad.{Network}
use ojalvo_chat.Server.Ends.{Ends, returns, Ends-bind, Ends-mono}
use ojalvo_chat.Server.Invariant.{IsGood}
use ojalvo_chat.Server.Sends.{IfSo, if_so, if_not, arrives, trace_after, server_send-arrives}
use ojalvo_chat.Handler.Notify.{send_or_disconnect}
use ojalvo_chat.Handler.Farewell.{Gone, process_disconnect-Gone}

module _ ⦃G : Glib⦄ ⦃C : Cjson⦄ ⦃N : Network⦄ where
  -- Where the message arrives at `to`, the handler returns true and only the trace has changed; where
  -- it does not, the client of `fd` is disconnected.
  abbrev pub Told : ℕ → Message → ℕ → Server → Bool → Server → Type 0
  Told to m fd s ok t =
      IfSo (arrives s.trace to m)
        ((ok ≡ true) × (t ≡ record s { trace = trace_after s.trace to m })) (Gone fd t)

  pub send_or_disconnect-Told :
      (to : ℕ) (m : Message) (fd : ℕ) (s : Server)
      → IsGood s
      → Ends (λ f. ⊥) (Told to m fd s) (send_or_disconnect to m fd s)
  unfolding send_or_disconnect
  send_or_disconnect-Told to m fd s g = Ends-bind (
      server_send-arrives (λ f. ⊥) _ to m s
        (elim (Bool-cases (arrives s.trace to m)) [
          | inl y ↦ rw y (returns (if_so y (refl, refl)))
          | inr y ↦ rw y (
              Ends-mono (λ ok t q. if_not y q)
                (process_disconnect-Gone fd (record s { trace = trace_after s.trace to m })
                  (record { inv = g.inv; unlocked = g.unlocked })))
        ]))
