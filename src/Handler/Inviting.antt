-- ===== src/Handler/Inviting.antt =====
-- Who is invited to a room after a request to invite users.
use mathlib.Core.Path.{subst}
use ojalvo_chat.Prelude.{
  ℕ, ◌≡◌, refl, true, false, ◌||◌, List, [], ◌∷◌, All, some, Text, Bool-cases, inl, inr,
}
use ojalvo_chat.Glib.{Glib}
use ojalvo_chat.Cjson.{Cjson}
use ojalvo_chat.User.{User}
use ojalvo_chat.UsersTable.{users_table_contains_by_client_fd, users_table_find_by_client_fd}
use ojalvo_chat.Room.{Room}
use ojalvo_chat.RoomTable.{room_table_find}
use ojalvo_chat.Message.{Message, message_init}
use ojalvo_chat.Message.Kind.{MessageType}
use ojalvo_chat.Server.{Server}
use ojalvo_chat.Server.Monad.{Network}
use ojalvo_chat.Server.Ends.{Ends, returns, Ends-bind, Ends-mono}
use ojalvo_chat.Server.Invariant.{IsGood}
use ojalvo_chat.Handler.Farewell.{process_disconnect-Gone}
use ojalvo_chat.Handler.Rooms.{
  found, room_is_a_member, room_is_a_guest, room_add_to_guests, find_invited, invite_each,
  invite_all, invite_from, invite_as, process_invite,
}
use ojalvo_chat.Server.Sends.{arrives, trace_after, server_send-arrives}
use ojalvo_chat.Handler.Presence.{with_found, written, in_room-Ends}
use ojalvo_chat.Handler.Sound.Creation.{
  Registered, AllRegistered, find_invited-Registered, search_invited-Ends,
}
use ojalvo_chat.Handler.Guests.{
  CanEnter, with_guest, with_guest-IsGood, still_free, InvitedOrGone, first_missed, one_more,
}

module _ ⦃G : Glib⦄ ⦃C : Cjson⦄ ⦃N : Network⦄ where
  abbrev pub invitation : Text → User → Message
  invitation name from = record message_init {
    kind = MessageType.invitation;
    username = some from.username;
    roomname = some name;
  }

  invite_each-HasInvited :
      (name : Text) (m : Message) (us : List User) (s : Server) (room : Room)
      → IsGood s
      → room_table_find s.rooms name ≡ some room
      → All (Registered s.users) us
      → CanEnter room us
      → Ends
          (λ f. ⊥)
          (λ ok t. InvitedOrGone (first_missed s.trace m us) s.users name room us t)
          (invite_each name m us s)
  unfolding invite_each room_is_a_member room_is_a_guest room_add_to_guests
  invite_each-HasInvited name m [] s room g f r c = returns (refl, rw f (refl, tt, λ fd e. refl))
  invite_each-HasInvited name m (u ∷ us) s room g f (r, rs) (fit, member, guest, alone, more) =
      Ends-bind (
        with_found (λ f. ⊥) _ name (room_is_a_member u) s room g.unlocked f
          (returns (
            Ends-bind (
              with_found (λ f. ⊥) _ name (room_is_a_guest u) _ room refl f
                (returns (
                  rw (member, guest)
                    (Ends-bind (
                      with_found (λ f. ⊥) _ name (room_add_to_guests u) _ room refl f
                        (returns (
                          Ends-bind (
                            server_send-arrives (λ f. ⊥) _ u.socket_fd m _
                              (elim (Bool-cases (arrives s.trace u.socket_fd m)) [
                                | inl y ↦ rw y (
                                    Ends-mono
                                      (λ ok t q.
                                        one_more
                                          (first_missed (trace_after s.trace u.socket_fd m) m us) s
                                          name room u us t g f r fit guest alone q)
                                      (invite_each-HasInvited name m us _ (with_guest room u)
                                        (with_guest-IsGood s name room u
                                          (trace_after s.trace u.socket_fd m) g f r)
                                        (written s.rooms name _) rs
                                        (still_free s name room u us g f r guest alone more)))
                                | inr y ↦ rw y (
                                    (process_disconnect-Gone u.socket_fd _ (
                                      with_guest-IsGood s name room u
                                        (trace_after s.trace u.socket_fd m) g f r)))
                              ]))))))))))))

  -- When a member of a room invites users from a good state, all of them are found, their
  -- descriptors differ, their names are of the length that user_init takes, and none of them is in
  -- the room, then if the invitation arrives at all of them, sent to one after the other, they are
  -- all guests of the room afterwards, beside the guests that it had, and its members and the users
  -- of the server are the same; otherwise the first at whom it does not arrive is disconnected and
  -- gone from all tables.
  pub process_invite-HasInvited :
      (m : Message) (fd : ℕ) (s : Server) (name : Text) (names : List Text) (room : Room) (u : User)
      (us : List User)
      → IsGood s
      → m.roomname ≡ some name
      → m.usernames ≡ some names
      → room_table_find s.rooms name ≡ some room
      → users_table_find_by_client_fd s.users fd ≡ some u
      → users_table_contains_by_client_fd room.members u.socket_fd ≡ true
      → find_invited s.users names ≡ found us
      → CanEnter room us
      → Ends
          (λ f. ⊥)
          (λ ok t.
            InvitedOrGone (first_missed s.trace (invitation name u) us) s.users name room us t)
          (process_invite m fd s)
  unfolding process_invite invite_as invite_from invite_all room_is_a_member
  process_invite-HasInvited m fd s name names room u us g e n f h k i c =
      rw (e, n)
        (in_room-Ends (λ f. ⊥) _ _ name fd _ s room u f h
          (Ends-bind (
            with_found (λ f. ⊥) _ name (room_is_a_member u) s room g.unlocked f
              (returns (
                rw k (
                  Ends-bind (
                    search_invited-Ends (λ f. ⊥) names _
                      (rw i (
                        invite_each-HasInvited name _ us (record s { rooms_locked = false }) room
                          (record { inv = g.inv; unlocked = refl }) f all_registered c)))))))))
    where
      all_registered : All (Registered s.users) us
      all_registered =
          subst (AllRegistered s.users) i (find_invited-Registered s.users names g.inv.users)

  -- When a member of a room invites users from a good state, and the first that is found is in the
  -- room already, nothing is sent and nothing changes: those after it are not invited either.
  pub process_invite-stops :
      (m : Message) (fd : ℕ) (s : Server) (name : Text) (names : List Text) (room : Room)
      (u v : User) (us : List User)
      → IsGood s
      → m.roomname ≡ some name
      → m.usernames ≡ some names
      → room_table_find s.rooms name ≡ some room
      → users_table_find_by_client_fd s.users fd ≡ some u
      → users_table_contains_by_client_fd room.members u.socket_fd ≡ true
      → find_invited s.users names ≡ found (v ∷ us)
      → (users_table_contains_by_client_fd room.members v.socket_fd
          || users_table_contains_by_client_fd room.guests v.socket_fd)
        ≡ true
      → Ends
          (λ f. ⊥)
          (λ ok t. (ok ≡ true) × (t.users ≡ s.users) × (t.rooms ≡ s.rooms) × (t.trace ≡ s.trace))
          (process_invite m fd s)
  unfolding process_invite invite_as invite_from invite_all invite_each room_is_a_member
      room_is_a_guest
  process_invite-stops m fd s name names room u v us g e n f h k i inside =
      rw (e, n)
        (in_room-Ends (λ f. ⊥) _ _ name fd _ s room u f h
          (Ends-bind (
            with_found (λ f. ⊥) _ name (room_is_a_member u) s room g.unlocked f
              (returns (
                rw k (
                  Ends-bind (
                    search_invited-Ends (λ f. ⊥) names _
                      (rw i (
                        Ends-bind (
                          with_found (λ f. ⊥) _ name (room_is_a_member v) _ room refl f
                            (returns (
                              Ends-bind (
                                with_found (λ f. ⊥) _ name (room_is_a_guest v) _ room refl f
                                  (returns
                                    (rw inside (returns (refl, refl, refl, refl)))))))))))))))))
