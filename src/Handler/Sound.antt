-- ===== src/Handler/Sound.antt =====
-- Every message keeps the server's invariant, and only some can stop at a fault.
pub mod Chat
pub mod Creation
pub mod Rooms
pub mod RoomTalk
use mathlib.Core.Path.{subst}
use ojalvo_chat.Prelude.{
  ℕ, ◌≡◌, refl, Bool, true, false, not, ◌||◌, is_some, Option, none, some, Bool-cases, Option-cases,
  inl, inr, arith,
}
use ojalvo_chat.Glib.{Glib}
use ojalvo_chat.Cjson.{Cjson}
use ojalvo_chat.UsersTable.{users_table_contains_by_client_fd}
use ojalvo_chat.Message.{Message}
use ojalvo_chat.Message.Kind.{MessageType}
use ojalvo_chat.Server.{Server, initial_server}
use ojalvo_chat.Server.Monad.{Fault, Network, null_pointer, deadlock, Outcome, done, fault}
use ojalvo_chat.Server.Ends.{Ends, returns, stops, Ends-bind, Ends-mono}
use ojalvo_chat.Server.Invariant.{IsGood, initial_server-Inv}
use ojalvo_chat.Handler.{
  process_identified, reject_unidentified, when_identified, process_kind, message_handler_process,
}
use ojalvo_chat.Handler.Effects.{server_send-Ends, process_disconnect-Ends}
use Chat.{
  Sound, quiet, process_identify-Sound, process_status-Sound, process_users-Sound,
  process_text-Sound, process_public_text-Sound,
}
use Creation.{process_new_room-Sound}
use Rooms.{process_invite-Sound, process_join_room-Sound}
use RoomTalk.{process_room_users-Sound, process_room_text-Sound, process_leave_room-Sound}

module _ ⦃G : Glib⦄ ⦃C : Cjson⦄ ⦃N : Network⦄ where
  -- Where a handler reads a field with no test for NULL, and where it tells the members of a room.
  abbrev pub may_fault : MessageType → Message → Fault → Bool
  may_fault MessageType.text m null_pointer = not (is_some m.username) || not (is_some m.text)
  may_fault MessageType.public_text m null_pointer = not (is_some m.text)
  may_fault MessageType.join_room m deadlock = true
  may_fault MessageType.room_text m deadlock = true
  may_fault MessageType.leave_room m deadlock = true
  may_fault _ m f = false

  abbrev pub MayFault : MessageType → Message → Fault → Type 0
  MayFault k m f = may_fault k m f ≡ true

  process_identified-Sound :
      (k : MessageType) (m : Message) (fd : ℕ) (s : Server)
      → IsGood s
      → Sound (MayFault k m) (process_identified k m fd s)
  unfolding process_identified
  process_identified-Sound MessageType.status m fd s g = process_status-Sound _ m fd s g
  process_identified-Sound MessageType.users m fd s g = process_users-Sound _ fd s g
  process_identified-Sound MessageType.text m fd s g =
      process_text-Sound _ m fd s g (λ e. ground (arith, e)) (λ e. ground (arith, e))
  process_identified-Sound MessageType.public_text m fd s g =
      process_public_text-Sound _ m fd s g (λ e. ground (arith, e))
  process_identified-Sound MessageType.new_room m fd s g = process_new_room-Sound _ m fd s g
  process_identified-Sound MessageType.invite m fd s g = process_invite-Sound _ m fd s g
  process_identified-Sound MessageType.join_room m fd s g = process_join_room-Sound _ m fd s g refl
  process_identified-Sound MessageType.room_users m fd s g = process_room_users-Sound _ m fd s g
  process_identified-Sound MessageType.room_text m fd s g = process_room_text-Sound _ m fd s g refl
  process_identified-Sound MessageType.leave_room m fd s g =
      process_leave_room-Sound _ m fd s g refl
  process_identified-Sound _ m fd s g = returns g

  when_identified-Sound :
      (k : MessageType) (m : Message) (fd : ℕ) (s : Server)
      → IsGood s
      → Sound (MayFault k m) (when_identified k m fd s)
  unfolding when_identified reject_unidentified
  when_identified-Sound k m fd s g =
      elim (Bool-cases (users_table_contains_by_client_fd s.users fd)) [
        | inl e ↦ Ends-bind (returns (rw e (process_identified-Sound k m fd s g)))
        | inr e ↦ Ends-bind (
            returns (
              rw e (
                Ends-bind (
                  server_send-Ends _ _ fd _ s λ ok tr. Ends-bind (
                    Ends-mono (λ _ t k. returns k)
                      (process_disconnect-Ends _ fd _ (quiet (MayFault k m) s tr g)))))))
      ]

  process_kind-Sound :
      (k : MessageType) (m : Message) (fd : ℕ) (s : Server)
      → IsGood s
      → Sound (MayFault k m) (process_kind k m fd s)
  unfolding process_kind
  process_kind-Sound MessageType.unknown m fd s g = returns g
  process_kind-Sound MessageType.disconnect m fd s g = process_disconnect-Ends _ fd s g
  process_kind-Sound MessageType.identify m fd s g = process_identify-Sound _ m fd s g
  process_kind-Sound k m fd s g = when_identified-Sound k m fd s g

  -- From a state in which all pointers of the tables are live, every user is found by its own name
  -- and descriptor, every member and guest of a room is a registered user with the same descriptor
  -- and status, and the rooms are unlocked, processing a message ends in such a state, or stops at
  -- a fault: at a NULL pointer only for a TEXT with no user name or no text and for a PUBLIC_TEXT
  -- with no text, at a deadlock only for JOIN_ROOM, ROOM_TEXT and LEAVE_ROOM.
  pub message_handler_process-IsGood :
      (m : Message) (fd : ℕ) (s : Server)
      → IsGood s
      → Ends (MayFault m.kind m) (λ done t. IsGood t) (message_handler_process (some m) fd s)
  unfolding message_handler_process
  message_handler_process-IsGood m fd s g = process_kind-Sound m.kind m fd s g

  -- The states that messages from any descriptors lead to, from the start of the server.
  pub data Reach : Server → Type 0 where
    start : Reach initial_server
    next :
        {s t : Server} (m : Option Message) (fd : ℕ) (result : Bool)
        → Reach s
        → message_handler_process m fd s ≡ done result t
        → Reach t

  pub initial_server-IsGood : IsGood initial_server
  initial_server-IsGood = record { inv = initial_server-Inv; unlocked = refl }

  abbrev Post : (Bool → Server → Type 0) → Outcome Server Bool → Type 0
  Post Q (done a t) = Q a t
  Post Q (fault f s) = Unit {0}

  post :
      {F : Fault → Type 0} {Q : Bool → Server → Type 0} {o : Outcome Server Bool}
      → Ends F Q o
      → Post Q o
  post (returns h) = h
  post (stops h) = tt

  -- In every state that messages lead to from the start, whatever descriptors they come from, the
  -- invariant holds.
  pub Reach-IsGood : (s : Server) → Reach s → IsGood s
  unfolding message_handler_process
  Reach-IsGood s start = initial_server-IsGood
  Reach-IsGood t (next {s = s} none fd result r e) = subst (Post (λ _. IsGood)) e (Reach-IsGood s r)
  Reach-IsGood t (next {s = s} (some m) fd result r e) =
      subst (Post (λ _. IsGood)) e (post (message_handler_process-IsGood m fd s (Reach-IsGood s r)))
