-- ===== src/Handler/Farewell.antt =====
-- Who is disconnected is forgotten, and who is not identified is disconnected.
use ojalvo_chat.Prelude.{
  ℕ, ◌≡◌, refl, ap, Bool, true, false, List, [], ◌∷◌, Option, none, some, Text, arith, Option-cases,
  inl, inr,
}
use ojalvo_chat.Glib.{Glib}
use ojalvo_chat.Cjson.{Cjson}
use ojalvo_chat.User.{User}
use ojalvo_chat.UsersTable.{
  UsersTable, users_table_contains_by_client_fd, users_table_find_by_client_fd,
}
use ojalvo_chat.UsersTable.View.{directory}
use ojalvo_chat.UsersTable.Directory.{users_table_remove-directory}
use ojalvo_chat.UsersTable.Consistent.{IsConsistent, Within, leave-Within_same}
use ojalvo_chat.Room.{Room}
use ojalvo_chat.RoomTable.{room_table_find}
use ojalvo_chat.Message.{Message}
use ojalvo_chat.Message.Kind.{MessageType}
use ojalvo_chat.Server.{Server, server_disconnect_client}
use ojalvo_chat.Server.Monad.{Network, Event, closed}
use ojalvo_chat.Server.Ends.{Ends, returns, Ends-bind, Ends-mono}
use ojalvo_chat.Server.Synced.{IsSynced}
use ojalvo_chat.Server.Invariant.{IsGood}
use ojalvo_chat.Handler.{
  process_kind, when_identified, reject_unidentified, message_handler_process,
}
use ojalvo_chat.Handler.Notify.{
  server_users, load_users, store_users, drop_unreached, notify_all_but_self, forget_user,
  process_disconnect,
}
use ojalvo_chat.Handler.Effects.{
  forgotten, forgotten-IsGood, each_room-Ends, server_send-Ends, send_to_others-Ends,
}

-- The descriptor that was closed last, if nothing happened since.
abbrev pub just_closed : List Event → Option ℕ
just_closed (closed fd ∷ tr) = some fd
just_closed tr = none

-- The kinds of message that only an identified client may send.
abbrev pub needs_identity : MessageType → Bool
needs_identity MessageType.unknown = false
needs_identity MessageType.disconnect = false
needs_identity MessageType.identify = false
needs_identity k = true

module _ ⦃G : Glib⦄ where
  -- The descriptor is closed, and no table of the server leads from it to a user.
  pub record Gone (fd : ℕ) (t : Server) : Type 0 where
    pub good : IsGood t
    pub unregistered : users_table_find_by_client_fd t.users fd ≡ none
    pub outside :
        (name : Text) (room : Room)
        → room_table_find t.rooms name ≡ some room
        → (users_table_find_by_client_fd room.members fd ≡ none)
          × (users_table_find_by_client_fd room.guests fd ≡ none)
    pub hung_up : just_closed t.trace ≡ some fd

  outside_table :
      (us t : UsersTable) (fd : ℕ)
      → IsConsistent (directory us)
      → IsSynced us t
      → users_table_find_by_client_fd us fd ≡ none
      → users_table_find_by_client_fd t fd ≡ none
  outside_table us t fd c h e = elim (Option-cases (users_table_find_by_client_fd t fd)) [
    | inl f ↦ f
    | inr (u, f) ↦
        let (p, q) = h.sound.consistent.fds fd u f in
        let (r, k) = c.names u.username u (h.registered.at u.username u q) in
        absurd (ground (arith, e, k, p))
  ]

  gone :
      (fd : ℕ) (s : Server)
      → IsGood s
      → users_table_find_by_client_fd s.users fd ≡ none
      → Gone fd (record s { trace = closed fd ∷ s.trace })
  gone fd s g e = record {
    good = record { inv = g.inv; unlocked = g.unlocked };
    unregistered = e;
    outside = λ name room h. (
      outside_table s.users room.members fd g.inv.users.consistent (g.inv.rooms name room h).members
          e,
      outside_table s.users room.guests fd g.inv.users.consistent (g.inv.rooms name room h).guests
          e,
    );
    hung_up = refl;
  }

  -- Users only leave.
  record Fewer (s t : Server) : Type 0 where
    good : IsGood t
    within : Within (directory t.users) (directory s.users)

  forgotten-Fewer : (s t : Server) (n : Text) → Fewer s t → Fewer s (forgotten t n)
  forgotten-Fewer s t n h = record {
    good = forgotten-IsGood t n h.good;
    within =
        rw (users_table_remove-directory t.users n h.good.inv.users.valid)
          (leave-Within_same _ _ n h.within);
  }

  -- Without the user that had the descriptor, nobody has it.
  forgotten-none :
      (s t : Server) (fd : ℕ) (u : User)
      → IsGood s
      → Fewer s t
      → users_table_find_by_client_fd s.users fd ≡ some u
      → users_table_find_by_client_fd (forgotten t u.username).users fd ≡ none
  forgotten-none s t fd u g h e =
      rw
        (ap (λ d. d.by_fd fd)
          (users_table_remove-directory t.users u.username h.good.inv.users.valid))
        (elim (Option-cases (users_table_find_by_client_fd t.users fd)) [
          | inl f ↦ ground (arith, f)
          | inr (v, f) ↦
              let (p, q) = h.good.inv.users.consistent.fds fd v f in
              let (r, k) = g.inv.users.consistent.names v.username v (h.within.at v.username v q) in
              ground (arith, f, p, q, k, e)
        ])

module _ ⦃G : Glib⦄ ⦃C : Cjson⦄ ⦃N : Network⦄ where
  drop_unreached-Fewer :
      (fds : List ℕ) (s t : Server)
      → Fewer s t
      → Ends (λ f. ⊥) (λ _. Fewer s) (drop_unreached server_users fds t)
  unfolding drop_unreached
  drop_unreached-Fewer [] s t h = returns h
  drop_unreached-Fewer (fd ∷ fds) s t h =
      elim (Option-cases (users_table_find_by_client_fd t.users fd)) [
        | inl e ↦ Ends-bind (returns (Ends-bind (rw e (returns (drop_unreached-Fewer fds s t h)))))
        | inr (u, e) ↦ Ends-bind (
            returns (
              Ends-bind (
                rw e (
                  Ends-bind (
                    each_room-Ends (λ f. ⊥) _ _ t h.good.unlocked
                      (Ends-bind (
                        returns (
                          returns (
                            drop_unreached-Fewer fds s (forgotten t u.username)
                              (forgotten-Fewer s t u.username h))))))))))
      ]

  notify-Fewer :
      (m : Message) (fd : ℕ) (s : Server)
      → IsGood s
      → Ends (λ f. ⊥) (λ _. Fewer s) (notify_all_but_self server_users m fd s)
  unfolding notify_all_but_self
  notify-Fewer m fd s g = Ends-bind (
      returns (
        Ends-bind (
          send_to_others-Ends (λ f. ⊥) m fd _ s _
            λ failed tr.
              drop_unreached-Fewer failed s (record s { trace = tr })
                (record {
                  good = record { inv = g.inv; unlocked = g.unlocked };
                  within = record { at = λ n u e. e };
                }))))

  -- From a good state process_disconnect always comes to an end, whatever sends fail. Afterwards
  -- the descriptor is closed, no user of the server and no member or guest of a room has it, and
  -- the state is good.
  pub process_disconnect-Gone :
      (fd : ℕ) (s : Server) → IsGood s → Ends (λ f. ⊥) (λ ok. Gone fd) (process_disconnect fd s)
  unfolding process_disconnect forget_user server_disconnect_client load_users store_users
  process_disconnect-Gone fd s g = elim (Option-cases (users_table_find_by_client_fd s.users fd)) [
    | inl e ↦
        Ends-bind
          (returns (Ends-bind (rw e (returns (Ends-bind (returns (returns (gone fd s g e))))))))
    | inr (u, e) ↦ Ends-bind (
        returns (
          Ends-bind (
            rw e (
              Ends-bind (
                Ends-mono
                  (λ _ t h. Ends-bind (
                    each_room-Ends (λ f. ⊥) _ _ t h.good.unlocked
                      (Ends-bind (
                        returns (
                          returns (
                            Ends-bind (
                              returns (
                                returns (
                                  gone fd (forgotten t u.username)
                                    (forgotten-IsGood t u.username h.good)
                                    (forgotten-none s t fd u g h e))))))))))
                  (notify-Fewer _ fd s g))))))
  ]

  process_kind-when_identified :
      (k : MessageType) (m : Message) (fd : ℕ)
      → needs_identity k ≡ true
      → process_kind k m fd ≡ when_identified k m fd
  unfolding process_kind
  process_kind-when_identified MessageType.unknown m fd h = cc
  process_kind-when_identified MessageType.disconnect m fd h = cc
  process_kind-when_identified MessageType.identify m fd h = cc
  process_kind-when_identified k m fd h = refl

  unknown_fd :
      (t : UsersTable) (fd : ℕ)
      → users_table_contains_by_client_fd t fd ≡ false
      → users_table_find_by_client_fd t fd ≡ none
  unfolding users_table_contains_by_client_fd users_table_find_by_client_fd
  unknown_fd t fd e = ground (arith, e)

  -- A message other than IDENTIFY and DISCONNECT, and of a known type, from a client that is not
  -- identified changes neither the users nor the rooms, and closes the client's descriptor.
  pub message_handler_process-unidentified :
      (m : Message) (fd : ℕ) (s : Server)
      → needs_identity m.kind ≡ true
      → users_table_contains_by_client_fd s.users fd ≡ false
      → Ends
          (λ f. ⊥)
          (λ ok t.
            (ok ≡ true)
            × (t.users ≡ s.users)
            × (t.rooms ≡ s.rooms)
            × (just_closed t.trace ≡ some fd))
          (message_handler_process (some m) fd s)
  unfolding message_handler_process when_identified reject_unidentified process_disconnect
      forget_user server_disconnect_client
  message_handler_process-unidentified m fd s k e =
      rw (process_kind-when_identified m.kind m fd k) (
        Ends-bind (
          returns (
            rw e (
              Ends-bind (
                server_send-Ends (λ f. ⊥) _ fd _ s
                  λ ok tr. Ends-bind (
                    Ends-bind (
                      returns (
                        Ends-bind (
                          rw (unknown_fd s.users fd e) (
                            returns (
                              Ends-bind
                                (returns (returns (returns (refl, refl, refl, refl)))))))))))))))
