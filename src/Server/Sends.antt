-- ===== src/Server/Sends.antt =====
-- What a call of server/src/server.c's server_send comes to, said without the server's state: whether
-- it succeeds, and the trace after it.
use ojalvo_chat.Prelude.{ℕ, ◌≡◌, Bool, true, false, List, ◌∷◌, none, some, Option-cases, inl, inr}
use ojalvo_chat.Glib.{Glib}
use ojalvo_chat.Cjson.{Cjson}
use ojalvo_chat.Message.{Message, message_to_json, server_buffer_size}
use ojalvo_chat.Server.{Server, server_send, send_line, with_newline}
use ojalvo_chat.Server.Monad.{Network, Fault, Event, sent}
use ojalvo_chat.Server.Ends.{Ends, returns}

-- What holds where the answer is yes, and what where it is no.
pub data IfSo (b : Bool) (A B : Type 0) : Type 0 where
  if_so : b ≡ true → A → IfSo b A B
  if_not : b ≡ false → B → IfSo b A B

module _ ⦃G : Glib⦄ ⦃C : Cjson⦄ ⦃N : Network⦄ where
  -- Whether the message fits the buffer for its JSON, and the network takes its line.
  abbrev pub arrives : List Event → ℕ → Message → Bool
  arrives trace fd m = elim (message_to_json m server_buffer_size) [
    | none ↦ false
    | some json ↦ N.accepts trace fd (with_newline json)
  ]

  -- The trace after the message was given to `send`, which it is where it fits.
  abbrev pub trace_after : List Event → ℕ → Message → List Event
  trace_after trace fd m = elim (message_to_json m server_buffer_size) [
    | none ↦ trace
    | some json ↦ sent fd (with_newline json) (N.accepts trace fd (with_newline json)) ∷ trace
  ]

  pub server_send-arrives :
      (F : Fault → Type 0) (Q : Bool → Server → Type 0) (fd : ℕ) (m : Message) (s : Server)
      → Q (arrives s.trace fd m) (record s { trace = trace_after s.trace fd m })
      → Ends F Q (server_send fd m s)
  unfolding server_send send_line
  server_send-arrives F Q fd m s h = elim (Option-cases (message_to_json m server_buffer_size)) [
    | inl e ↦ rw (e, server_send) (returns (rw (e, arrives, trace_after) at h))
    | inr (json, e) ↦ rw (e, server_send) (returns (rw (e, arrives, trace_after) at h))
  ]
