-- ===== src/Handler/Effects.antt =====
-- How the parts that the handlers share end: what they may change, and at which fault they stop.
use ojalvo_chat.Prelude.{
  ℕ, ◌≡◌, refl, Bool, true, false, List, [], ◌∷◌, Option, none, some, Text, ◌==◌, if◌then◌else◌,
  Option-cases, Bool-cases, inl, inr,
}
use ojalvo_chat.Glib.{Glib}
use ojalvo_chat.Cjson.{Cjson}
use ojalvo_chat.User.{User}
use ojalvo_chat.UsersTable.{users_table_remove, users_table_find_by_client_fd}
use ojalvo_chat.Room.{Room}
use ojalvo_chat.RoomTable.{room_table_find, room_table_for_each}
use ojalvo_chat.Message.{Message, message_to_json, server_buffer_size}
use ojalvo_chat.Server.{
  Server, Handler, each_room, server_send, server_disconnect_client, room_table_with,
}
use ojalvo_chat.Server.Monad.{Fault, Event, Network, deadlock, pure}
use ojalvo_chat.Server.Ends.{Ends, returns, stops, Ends-bind, Ends-mono}
use ojalvo_chat.Server.Synced.{remove-IsSound, remove-IsSynced}
use ojalvo_chat.Server.Invariant.{IsGood, for_each-Inv}
use ojalvo_chat.Handler.Notify.{
  server_users, members_of, load_users, store_users, room_remove_data, drop_unreached,
  send_to_others, notify_all_but_self, forget_user, process_disconnect, send_invalid_and_disconnect,
  send_or_disconnect,
}

module _ ⦃G : Glib⦄ where
  -- The state after a user is taken out of the rooms and of the server.
  abbrev pub forgotten : Server → Text → Server
  forgotten s n = record s {
    users = (users_table_remove s.users n).0;
    rooms = room_table_for_each s.rooms (room_remove_data n);
    rooms_locked = false;
  }

  pub forgotten-IsGood : (s : Server) (n : Text) → IsGood s → IsGood (forgotten s n)
  unfolding room_remove_data
  forgotten-IsGood s n g = record {
    inv =
        for_each-Inv s.users _ s.rooms _ (remove-IsSound s.users n g.inv.users)
          (λ room h. record {
            members = remove-IsSynced s.users room.members n g.inv.users h.members;
            guests = remove-IsSynced s.users room.guests n g.inv.users h.guests;
          })
          g.inv;
    unlocked = refl;
  }

module _ ⦃G : Glib⦄ (F : Fault → Type 0) where
  -- With the rooms unlocked a visit of all rooms goes through.
  pub each_room-Ends :
      (Q : Unit {0} → Server → Type 0) (visitor : Room → Room) (s : Server)
      → s.rooms_locked ≡ false
      → Q tt (record s { rooms = room_table_for_each s.rooms visitor; rooms_locked = false })
      → Ends F Q (each_room visitor s)
  unfolding each_room
  each_room-Ends Q visitor s e h = rw e (Ends-bind (returns (returns h)))

  -- With the rooms locked it stops.
  pub each_room-deadlock :
      (Q : Unit {0} → Server → Type 0) (visitor : Room → Room) (s : Server)
      → s.rooms_locked ≡ true
      → F deadlock
      → Ends F Q (each_room visitor s)
  unfolding each_room
  each_room-deadlock Q visitor s e h = rw e (stops h)

  pub room_table_with-Ends :
      {A : Type 0} (Q : Option A → Server → Type 0) (name : Text) (action : Text → Room → Handler A)
      (s : Server)
      → s.rooms_locked ≡ false
      → Q none (record s { rooms_locked = false })
      → ((room : Room)
          → room_table_find s.rooms name ≡ some room
          → Ends F
              (λ a t. Q (some a) (record t { rooms_locked = false }))
              (action name room (record s { rooms_locked = true })))
      → Ends F Q (room_table_with name action s)
  unfolding room_table_with
  room_table_with-Ends Q name action s e absent present =
      elim (Option-cases (room_table_find s.rooms name)) [
        | inl f ↦ rw (e, f) (Ends-bind (returns (returns absent)))
        | inr (room, f) ↦
            rw (e, f)
              (Ends-bind (Ends-bind (Ends-mono (λ a t q. returns (returns q)) (present room f))))
      ]

  module _ ⦃C : Cjson⦄ ⦃N : Network⦄ where
    -- A send changes the trace alone.
    pub server_send-Ends :
        (Q : Bool → Server → Type 0) (fd : ℕ) (m : Message) (s : Server)
        → ((ok : Bool) (tr : List Event) → Q ok (record s { trace = tr }))
        → Ends F Q (server_send fd m s)
    unfolding server_send
    server_send-Ends Q fd m s h = elim (Option-cases (message_to_json m server_buffer_size)) [
      | inl e ↦ rw (e, server_send) (returns (h false s.trace))
      | inr (json, e) ↦ rw (e, server_send) (returns (h _ _))
    ]

    pub send_to_others-Ends :
        (m : Message) (fd : ℕ) (us : List User) (s : Server) (Q : List ℕ → Server → Type 0)
        → ((failed : List ℕ) (tr : List Event) → Q failed (record s { trace = tr }))
        → Ends F Q (send_to_others m fd us s)
    unfolding send_to_others
    send_to_others-Ends m fd [] s Q h = returns (h [] s.trace)
    send_to_others-Ends m fd (u ∷ us) s Q h = elim (Bool-cases (u.socket_fd == fd)) [
      | inl e ↦ rw e (send_to_others-Ends m fd us s Q h)
      | inr e ↦ rw e (
          Ends-bind (
            server_send-Ends _ u.socket_fd m s λ ok tr. Ends-bind (
              send_to_others-Ends m fd us (record s { trace = tr }) _
                (λ failed tr'. returns (h _ tr')))))
    ]

    pub drop_unreached-Ends :
        (Q : Unit {0} → Server → Type 0) (fds : List ℕ) (s : Server)
        → IsGood s
        → ((t : Server) → IsGood t → Q tt t)
        → Ends F Q (drop_unreached server_users fds s)
    unfolding drop_unreached
    drop_unreached-Ends Q [] s g h = returns (h s g)
    drop_unreached-Ends Q (fd ∷ fds) s g h =
        elim (Option-cases (users_table_find_by_client_fd s.users fd)) [
          | inl e ↦
              Ends-bind (returns (Ends-bind (rw e (returns (drop_unreached-Ends Q fds s g h)))))
          | inr (u, e) ↦ Ends-bind (
              returns (
                Ends-bind (
                  rw e (
                    Ends-bind (
                      each_room-Ends _ _ s g.unlocked (
                        Ends-bind (
                          returns (
                            returns (
                              drop_unreached-Ends Q fds (forgotten s u.username)
                                (forgotten-IsGood s u.username g) h)))))))))
        ]

    -- In a room, which is visited with the rooms locked, a descriptor to drop is a deadlock.
    pub drop_unreached-members :
        (Q : Unit {0} → Server → Type 0) (name : Text) (fds : List ℕ) (s : Server)
        → s.rooms_locked ≡ true
        → F deadlock
        → Q tt s
        → Ends F Q (drop_unreached (members_of name) fds s)
    unfolding drop_unreached
    drop_unreached-members Q name [] s e d h = returns h
    drop_unreached-members Q name (fd ∷ fds) s e d h =
        elim (Option-cases (users_table_find_by_client_fd (load_users (members_of name) s) fd)) [
          | inl f ↦
              Ends-bind
                (returns (Ends-bind (rw f (returns (drop_unreached-members Q name fds s e d h)))))
          | inr (u, f) ↦
              Ends-bind (returns (Ends-bind (rw f (Ends-bind (each_room-deadlock _ _ s e d)))))
        ]

    pub notify-Ends :
        (Q : Unit {0} → Server → Type 0) (m : Message) (fd : ℕ) (s : Server)
        → IsGood s
        → ((t : Server) → IsGood t → Q tt t)
        → Ends F Q (notify_all_but_self server_users m fd s)
    unfolding notify_all_but_self
    notify-Ends Q m fd s g h = Ends-bind (
        returns (
          Ends-bind (
            send_to_others-Ends m fd _ s _ λ failed tr.
              drop_unreached-Ends Q failed (record s { trace = tr })
                (record { inv = g.inv; unlocked = g.unlocked }) h)))

    pub notify_members-Ends :
        (Q : Unit {0} → Server → Type 0) (name : Text) (m : Message) (fd : ℕ) (s : Server)
        → s.rooms_locked ≡ true
        → F deadlock
        → ((tr : List Event) → Q tt (record s { trace = tr }))
        → Ends F Q (notify_all_but_self (members_of name) m fd s)
    unfolding notify_all_but_self
    notify_members-Ends Q name m fd s e d h = Ends-bind (
        returns (
          Ends-bind (
            send_to_others-Ends m fd _ s _ λ failed tr.
              drop_unreached-members Q name failed (record s { trace = tr }) e d (h tr))))

    forget_user-Ends :
        (Q : Unit {0} → Server → Type 0) (user : Option User) (fd : ℕ) (s : Server)
        → IsGood s
        → ((t : Server) → IsGood t → Q tt t)
        → Ends F Q (forget_user user fd s)
    unfolding forget_user load_users store_users
    forget_user-Ends Q none fd s g h = returns (h s g)
    forget_user-Ends Q (some u) fd s g h = Ends-bind (
        notify-Ends _ _ fd s g λ t k. Ends-bind (
          each_room-Ends _ _ t k.unlocked (
            Ends-bind
              (returns (returns (h (forgotten t u.username) (forgotten-IsGood t u.username k)))))))

    pub process_disconnect-Ends :
        (fd : ℕ) (s : Server) → IsGood s → Ends F (λ _. IsGood) (process_disconnect fd s)
    unfolding process_disconnect server_disconnect_client
    process_disconnect-Ends fd s g = Ends-bind (
        returns (
          Ends-bind (
            forget_user-Ends _ _ fd s g λ t k.
              Ends-bind (returns (returns (record { inv = k.inv; unlocked = k.unlocked }))))))

    pub send_invalid_and_disconnect-Ends :
        (fd : ℕ) (s : Server) → IsGood s → Ends F (λ _. IsGood) (send_invalid_and_disconnect fd s)
    unfolding send_invalid_and_disconnect
    send_invalid_and_disconnect-Ends fd s g = Ends-bind (
        server_send-Ends _ fd _ s λ ok tr.
          process_disconnect-Ends fd (record s { trace = tr })
            (record { inv = g.inv; unlocked = g.unlocked }))

    pub send_or_disconnect-Ends :
        (fd : ℕ) (m : Message) (client_fd : ℕ) (s : Server)
        → IsGood s
        → Ends F (λ _. IsGood) (send_or_disconnect fd m client_fd s)
    unfolding send_or_disconnect
    send_or_disconnect-Ends fd m client_fd s g = Ends-bind (server_send-Ends _ fd m s after)
      where
        after :
            (ok : Bool) (tr : List Event)
            → Ends F
                (λ _. IsGood)
                ((if ok then pure true else process_disconnect client_fd) (record s { trace = tr }))
        after true tr = returns (record { inv = g.inv; unlocked = g.unlocked })
        after false tr =
            process_disconnect-Ends client_fd (record s { trace = tr })
              (record { inv = g.inv; unlocked = g.unlocked })
