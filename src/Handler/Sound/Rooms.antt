-- ===== src/Handler/Sound/Rooms.antt =====
-- The handlers of message_handler.c for rooms, invitations and joining keep the invariant.
use ojalvo_chat.Prelude.{
  ℕ, codes, refl, ◌||◌, false, List, [], ◌∷◌, Option, none, Text, All, Option-cases, Bool-cases,
  inl, inr,
}
use ojalvo_chat.Glib.{Glib}
use ojalvo_chat.Cjson.{Cjson}
use ojalvo_chat.User.{User}
use ojalvo_chat.RoomTable.{RoomTable}
use ojalvo_chat.Message.{Message}
use ojalvo_chat.Server.{Server, room_table_with}
use ojalvo_chat.Server.Monad.{Fault, Network, deadlock}
use ojalvo_chat.Server.Ends.{Ends, returns, Ends-bind, Ends-mono}
use ojalvo_chat.Server.Synced.{add-IsSynced, remove-IsSynced_same}
use ojalvo_chat.Server.Invariant.{IsGood, write-Inv}
use ojalvo_chat.Handler.Rooms.{
  Invited, missing, found, room_add_to_guests, room_is_a_member, room_is_a_guest,
  room_from_guest_to_member, room_notify_members, was_set, invite_each, invite_all, invite_from,
  invite_as, process_invite, join_as_guest, join_room, process_join_room,
}
use ojalvo_chat.Handler.Effects.{
  server_send-Ends, notify_members-Ends, process_disconnect-Ends, send_invalid_and_disconnect-Ends,
  send_or_disconnect-Ends, room_table_with-Ends,
}
use ojalvo_chat.Handler.Sound.Chat.{Sound, quiet}
use ojalvo_chat.Handler.Sound.Creation.{
  open_rooms, Registered, AllRegistered, find_invited-Registered, search_invited-Ends, look-Ends,
  in_room-Sound,
}

module _ ⦃G : Glib⦄ ⦃C : Cjson⦄ ⦃N : Network⦄ (F : Fault → Type 0) where
  add_to_guests-Ends :
      (u : User) (name : Text) (s : Server) (Q : Option (Unit {0}) → Server → Type 0)
      → IsGood s
      → Registered s.users u
      → ((o : Option (Unit {0})) (rs : RoomTable)
          → IsGood (record s { rooms = rs; rooms_locked = false })
          → Q o (record s { rooms = rs; rooms_locked = false }))
      → Ends F Q (room_table_with name (room_add_to_guests u) s)
  unfolding room_add_to_guests
  add_to_guests-Ends u name s Q g e h =
      room_table_with-Ends F _ name _ s g.unlocked (h none s.rooms (open_rooms s g)) λ room f.
        returns (
          h _ _ (record {
            inv =
                write-Inv s.users s.rooms name _
                  (record {
                    members = (g.inv.rooms name room f).members;
                    guests =
                        add-IsSynced s.users room.guests u g.inv.users
                          (g.inv.rooms name room f).guests e;
                  })
                  g.inv;
            unlocked = refl;
          }))

  invite_each-Sound :
      (name : Text) (m : Message) (us : List User) (s : Server)
      → IsGood s
      → All (Registered s.users) us
      → Sound F (invite_each name m us s)
  unfolding invite_each room_is_a_member room_is_a_guest
  invite_each-Sound name m [] s g r = returns g
  invite_each-Sound name m (u ∷ us) s g r = Ends-bind (
      look-Ends F _ name _ s g λ a. Ends-bind (
        look-Ends F _ name _ (record s { rooms_locked = false }) (open_rooms s g)
          λ b. elim (Bool-cases (was_set a || was_set b)) [
            | inl e ↦ rw e (returns (open_rooms s g))
            | inr e ↦ rw e (
                Ends-bind (
                  add_to_guests-Ends u name _ _ (open_rooms s g) r.0 λ o rs k. Ends-bind (
                    server_send-Ends F _ u.socket_fd m _ λ ok tr. elim (Bool-cases ok) [
                      | inl f ↦ rw f (invite_each-Sound name m us _ (quiet F _ tr k) r.1)
                      | inr f ↦ rw f (process_disconnect-Ends F u.socket_fd _ (quiet F _ tr k))
                    ])))
          ]))

  invite_all-Sound :
      (i : Invited) (u : User) (name : Text) (fd : ℕ) (s : Server)
      → IsGood s
      → AllRegistered s.users i
      → Sound F (invite_all i u name fd s)
  unfolding invite_all
  invite_all-Sound (missing n) u name fd s g r = send_or_disconnect-Ends F fd _ fd s g
  invite_all-Sound (found us) u name fd s g r = invite_each-Sound name _ us s g r

  invite_from-Sound :
      (u : User) (name : Text) (names : List Text) (fd : ℕ) (s : Server)
      → IsGood s
      → Sound F (invite_from u name names fd s)
  unfolding invite_from
  invite_from-Sound u name names fd s g = Ends-bind (
      search_invited-Ends F names s
        (invite_all-Sound _ u name fd s g (find_invited-Registered s.users names g.inv.users)))

  invite_as-Sound :
      (name : Text) (names : List Text) (u : User) (fd : ℕ) (s : Server)
      → IsGood s
      → Sound F (invite_as name names fd u s)
  unfolding invite_as room_is_a_member
  invite_as-Sound name names u fd s g = Ends-bind (
      look-Ends F _ name _ s g λ o. elim (Bool-cases (was_set o)) [
        | inl e ↦ rw e (invite_from-Sound u name names fd _ (open_rooms s g))
        | inr e ↦ rw e (send_invalid_and_disconnect-Ends F fd _ (open_rooms s g))
      ])

  pub process_invite-Sound :
      (m : Message) (fd : ℕ) (s : Server) → IsGood s → Sound F (process_invite m fd s)
  unfolding process_invite
  process_invite-Sound m fd s g = elim (Option-cases m.roomname) [
    | inl e ↦ rw e (returns g)
    | inr (name, e) ↦ elim (Option-cases m.usernames) [
      | inl f ↦ rw (e, process_invite, f) (returns g)
      | inr (names, f) ↦
          rw (e, process_invite, f)
            (in_room-Sound F (codes "INVITE") name fd _ s g
              (λ u h. invite_as-Sound name names u fd s g))
    ]
  ]

  guest_to_member-Sound :
      (u : User) (name : Text) (s : Server)
      → IsGood s
      → Registered s.users u
      → Sound F (room_table_with name (room_from_guest_to_member u) s)
  unfolding room_from_guest_to_member
  guest_to_member-Sound u name s g e =
      room_table_with-Ends F _ name _ s g.unlocked (open_rooms s g) λ room f. returns (record {
        inv =
            write-Inv s.users s.rooms name _
              (record {
                members =
                    add-IsSynced s.users room.members u g.inv.users
                      (g.inv.rooms name room f).members e;
                guests =
                    remove-IsSynced_same s.users room.guests u.username
                      (g.inv.rooms name room f).guests;
              })
              g.inv;
        unlocked = refl;
      })

  -- The members of a room are told; one that cannot be reached is a deadlock.
  pub notify_room-Sound :
      (name : Text) (m : Message) (fd : ℕ) (s : Server)
      → IsGood s
      → F deadlock
      → Sound F (room_table_with name (room_notify_members m fd) s)
  unfolding room_notify_members
  notify_room-Sound name m fd s g d =
      room_table_with-Ends F _ name _ s g.unlocked (open_rooms s g) λ room f.
        notify_members-Ends F _ name m fd _ refl d λ tr. record { inv = g.inv; unlocked = refl }

  join_as_guest-Sound :
      (u : User) (name : Text) (fd : ℕ) (s : Server)
      → IsGood s
      → Registered s.users u
      → F deadlock
      → Sound F (join_as_guest u name fd s)
  unfolding join_as_guest
  join_as_guest-Sound u name fd s g r d = Ends-bind (
      Ends-mono
        (λ _ t k. Ends-bind (
          server_send-Ends F _ fd _ t λ ok tr. elim (Bool-cases ok) [
            | inl e ↦ rw e (
                Ends-bind (
                  Ends-mono (λ _ v l. returns l)
                    (notify_room-Sound name _ fd _ (quiet F t tr k) d)))
            | inr e ↦ rw e (process_disconnect-Ends F fd _ (quiet F t tr k))
          ]))
        (guest_to_member-Sound u name s g r))

  join_room-Sound :
      (u : User) (name : Text) (fd : ℕ) (s : Server)
      → IsGood s
      → Registered s.users u
      → F deadlock
      → Sound F (join_room u name fd s)
  unfolding join_room room_is_a_member room_is_a_guest
  join_room-Sound u name fd s g r d = Ends-bind (
      look-Ends F _ name _ s g λ o. elim (Bool-cases (was_set o)) [
        | inl e ↦ rw e (returns (open_rooms s g))
        | inr e ↦ rw e (
            Ends-bind (
              look-Ends F _ name _ _ (open_rooms s g) λ p. elim (Bool-cases (was_set p)) [
                | inl f ↦ rw f (join_as_guest-Sound u name fd _ (open_rooms s g) r d)
                | inr f ↦ rw f (send_or_disconnect-Ends F fd _ fd _ (open_rooms s g))
              ]))
      ])

  pub process_join_room-Sound :
      (m : Message) (fd : ℕ) (s : Server)
      → IsGood s
      → F deadlock
      → Sound F (process_join_room m fd s)
  unfolding process_join_room
  process_join_room-Sound m fd s g d = elim (Option-cases m.roomname) [
    | inl e ↦ rw e (returns g)
    | inr (name, e) ↦ rw e (
        in_room-Sound F (codes "JOIN_ROOM") name fd _ s g
          (λ u h. join_room-Sound u name fd s g h d))
  ]
