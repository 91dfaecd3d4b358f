-- ===== src/Handler/Sound/RoomTalk.antt =====
-- The requests of a room's members, of message_handler.c, keep the invariant.
use ojalvo_chat.Prelude.{ℕ, codes, refl, Bool, Text, Option-cases, Bool-cases, inl, inr}
use ojalvo_chat.Glib.{Glib}
use ojalvo_chat.Cjson.{Cjson}
use ojalvo_chat.User.{User}
use ojalvo_chat.Message.{Message}
use ojalvo_chat.Server.{Server, Handler, room_table_with}
use ojalvo_chat.Server.Monad.{Fault, Network, deadlock}
use ojalvo_chat.Server.Ends.{returns, Ends-bind, Ends-mono}
use ojalvo_chat.Server.Synced.{remove-IsSynced_same}
use ojalvo_chat.Server.Invariant.{IsGood, write-Inv, room_table_remove-Inv}
use ojalvo_chat.Handler.Rooms.{room_is_a_member, was_set}
use ojalvo_chat.Handler.RoomTalk.{
  room_leave, drop_room, room_users, not_joined, if_member, as_member, list_members,
  process_room_users, say_to_members, process_room_text, leave_room, process_leave_room,
}
use ojalvo_chat.Handler.Effects.{room_table_with-Ends, send_or_disconnect-Ends}
use ojalvo_chat.Handler.Sound.Chat.{Sound}
use ojalvo_chat.Handler.Sound.Creation.{open_rooms, look-Ends, in_room-Sound}
use ojalvo_chat.Handler.Sound.Rooms.{notify_room-Sound}

module _ ⦃G : Glib⦄ ⦃C : Cjson⦄ ⦃N : Network⦄ (F : Fault → Type 0) where
  as_member-Sound :
      (op name : Text) (fd : ℕ) (act : User → Handler Bool) (s : Server)
      → IsGood s
      → ((u : User) (t : Server) → IsGood t → Sound F (act u t))
      → Sound F (as_member op name fd act s)
  unfolding as_member if_member not_joined room_is_a_member
  as_member-Sound op name fd act s g h = in_room-Sound F op name fd _ s g λ u r. Ends-bind (
      look-Ends F _ name _ s g λ o. elim (Bool-cases (was_set o)) [
        | inl e ↦ rw e (h u _ (open_rooms s g))
        | inr e ↦ rw e (send_or_disconnect-Ends F fd _ fd _ (open_rooms s g))
      ])

  pub process_room_users-Sound :
      (m : Message) (fd : ℕ) (s : Server) → IsGood s → Sound F (process_room_users m fd s)
  unfolding process_room_users list_members room_users
  process_room_users-Sound m fd s g = elim (Option-cases m.roomname) [
    | inl e ↦ rw e (returns g)
    | inr (name, e) ↦ rw e (
        as_member-Sound (codes "ROOM_USERS") name fd _ s g λ u t k.
          Ends-bind
            (look-Ends F _ name _ t k λ o. send_or_disconnect-Ends F fd _ fd _ (open_rooms t k)))
  ]

  pub process_room_text-Sound :
      (m : Message) (fd : ℕ) (s : Server)
      → IsGood s
      → F deadlock
      → Sound F (process_room_text m fd s)
  unfolding process_room_text say_to_members
  process_room_text-Sound m fd s g d = elim (Option-cases m.roomname) [
    | inl e ↦ rw e (returns g)
    | inr (name, e) ↦ elim (Option-cases m.text) [
      | inl f ↦ rw (e, process_room_text, f) (returns g)
      | inr (text, f) ↦
          rw (e, process_room_text, f)
            (as_member-Sound (codes "ROOM_TEXT") name fd _ s g λ u t k.
              Ends-bind (Ends-mono (λ _ v l. returns l) (notify_room-Sound F name _ fd t k d)))
    ]
  ]

  room_leave-Sound :
      (u : User) (name : Text) (s : Server)
      → IsGood s
      → Sound F (room_table_with name (room_leave u) s)
  unfolding room_leave
  room_leave-Sound u name s g =
      room_table_with-Ends F _ name _ s g.unlocked (open_rooms s g) λ room f. returns (record {
        inv =
            write-Inv s.users s.rooms name _
              (record {
                members =
                    remove-IsSynced_same s.users room.members u.username
                      (g.inv.rooms name room f).members;
                guests = (g.inv.rooms name room f).guests;
              })
              g.inv;
        unlocked = refl;
      })

  drop_room-IsGood : (name : Text) (s : Server) → IsGood s → Sound F (drop_room name s)
  unfolding drop_room
  drop_room-IsGood name s g =
      returns
        (record { inv = room_table_remove-Inv s.users s.rooms name g.inv; unlocked = g.unlocked })

  leave_room-Sound :
      (name : Text) (fd : ℕ) (u : User) (s : Server)
      → IsGood s
      → F deadlock
      → Sound F (leave_room name fd u s)
  unfolding leave_room
  leave_room-Sound name fd u s g d = Ends-bind (
      Ends-mono
        (λ o t k. Ends-bind (
          Ends-mono
            (λ _ v l.
              Ends-bind (Ends-mono (λ _ w x. returns x) (notify_room-Sound F name _ fd v l d)))
            (elim (Bool-cases (was_set o)) [
              | inl e ↦ rw e (drop_room-IsGood name t k)
              | inr e ↦ rw e (returns k)
            ])))
        (room_leave-Sound u name s g))

  pub process_leave_room-Sound :
      (m : Message) (fd : ℕ) (s : Server)
      → IsGood s
      → F deadlock
      → Sound F (process_leave_room m fd s)
  unfolding process_leave_room
  process_leave_room-Sound m fd s g d = elim (Option-cases m.roomname) [
    | inl e ↦ rw e (returns g)
    | inr (name, e) ↦ rw e (
        as_member-Sound (codes "LEAVE_ROOM") name fd _ s g
          λ u t k. leave_room-Sound name fd u t k d)
  ]
