-- ===== src/Atomic/Common.antt =====
-- The atomic parts that the handlers of server/src/message_handler.c have in common: sends, visits
-- of rooms, notices, and disconnecting.
use ojalvo_chat.Prelude.{
  ℕ, ◌≡◌, refl, ◌∙◌, true, List, [], ◌∷◌, Option, none, some, Text, ◌==◌, Bool-cases, Option-cases,
  inl, inr,
}
use ojalvo_chat.Glib.{Glib}
use ojalvo_chat.Cjson.{Cjson}
use ojalvo_chat.User.{User}
use ojalvo_chat.UsersTable.{users_table_find_by_client_fd, users_table_iter}
use ojalvo_chat.UsersTable.Shared.{Operation, perform, remove}
use ojalvo_chat.Room.{Room}
use ojalvo_chat.RoomTable.{room_table_find}
use ojalvo_chat.Message.{Message, message_to_json, server_buffer_size}
use ojalvo_chat.Server.{
  Server, Handler, each_room, room_table_with, server_send, send_line, server_disconnect_client,
}
use ojalvo_chat.Server.Monad.{Network, fault, deadlock, done, continue, pure}
use ojalvo_chat.Handler.Notify.{
  server_users, members_of, load_users, store_users, room_remove_data, drop_unreached,
  send_to_others, notify_all_but_self, forget_user, process_disconnect, send_invalid_and_disconnect,
  send_or_disconnect,
}
use ojalvo_chat.Handler.Rooms.{room_notify_members}
use ojalvo_chat.Atomic.{
  Changes, rest, step, once, change_users, change_rooms, lock_rooms, unlock_rooms, send_reply,
  close_fd, is_reply, has_fields, Atomics, Atomics-append, same, members, guests,
}
use ojalvo_chat.Atomic.Actions.{
  Moves, Reaches, Comes-bind, Comes-mono, returned, stopped, IsAtomic, part, in_turn, pure-IsAtomic,
  gets-IsAtomic, if-IsAtomic, elim-IsAtomic,
}

module _ ⦃G : Glib⦄ ⦃C : Cjson⦄ ⦃N : Network⦄ where
  server_send-Keeps :
      (fd : ℕ) (m : Message) (s : Server) → is_reply m ≡ true → Reaches s (server_send fd m s)
  unfolding server_send send_line
  server_send-Keeps fd m s r = elim (Option-cases (message_to_json m server_buffer_size)) [
    | inl e ↦ rw (e, server_send) (returned (rest, refl))
    | inr (json, e) ↦ rw (e, server_send) (returned (once (send_reply fd m json _ r e), refl))
  ]

  pub server_send-IsAtomic :
      (fd : ℕ) (m : Message) → is_reply m ≡ true → IsAtomic (server_send fd m)
  server_send-IsAtomic fd m r = part λ s. server_send-Keeps fd m s r

  pub server_disconnect_client-IsAtomic : (fd : ℕ) → IsAtomic (server_disconnect_client fd)
  unfolding server_disconnect_client
  server_disconnect_client-IsAtomic fd = part λ s. returned (once (close_fd fd), refl)

  -- A users table is read and written under its mutex.
  pub change_users-IsAtomic :
      {A : Type 0} (answer : Server → A) (o : Operation)
      → IsAtomic (λ s. done (answer s) (record s { users = (perform o s.users).0 }))
  change_users-IsAtomic answer o = part λ s. returned (once (change_users o), refl)

  pub each_room-IsAtomic :
      (visitor : Room → Room)
      → ((room : Room) → Changes room (visitor room))
      → IsAtomic (each_room visitor)
  unfolding each_room
  each_room-IsAtomic visitor h = part λ s. elim (Bool-cases s.rooms_locked) [
    | inl e ↦ rw e (stopped rest)
    | inr e ↦ rw e (
        Comes-bind (
          returned
            (returned (step (step (once lock_rooms) (change_rooms visitor h)) unlock_rooms, refl))))
  ]

  -- An action under the mutex of the rooms is one part: no other thread gets at the rooms meanwhile.
  pub room_table_with-IsAtomic :
      {A : Type 0} (name : Text) (action : Text → Room → Handler A)
      → ((room : Room) (s : Server)
          → s.rooms_locked ≡ true
          → room_table_find s.rooms name ≡ some room
          → Moves s (action name room s))
      → IsAtomic (room_table_with name action)
  unfolding room_table_with
  room_table_with-IsAtomic name action h = part λ s. elim (Bool-cases s.rooms_locked) [
    | inl e ↦ rw e (stopped rest)
    | inr e ↦ elim (Option-cases (room_table_find s.rooms name)) [
      | inl f ↦
          rw (e, f) (Comes-bind (returned (returned (step (once lock_rooms) unlock_rooms, refl))))
      | inr (room, f) ↦
          rw (e, f)
            (Comes-bind (
              Comes-bind (
                Comes-mono
                  (λ a t k.
                    returned
                      (returned (step (Atomics-append (once lock_rooms) k) unlock_rooms, refl)))
                  (λ t k. Atomics-append (once lock_rooms) k)
                  (h room (record s { rooms_locked = true }) refl f))))
    ]
  ]

  room_remove_data-Changes : (name : Text) (room : Room) → Changes room (room_remove_data name room)
  unfolding room_remove_data
  room_remove_data-Changes name room = members (remove name) (guests (remove name) same)

  -- Sends leave the mutex of the rooms as it is.
  send_to_others-Keeps :
      (m : Message) (fd : ℕ) (us : List User) (s : Server)
      → is_reply m ≡ true
      → Reaches s (send_to_others m fd us s)
  unfolding send_to_others
  send_to_others-Keeps m fd [] s r = returned (rest, refl)
  send_to_others-Keeps m fd (u ∷ us) s r = elim (Bool-cases (u.socket_fd == fd)) [
    | inl e ↦ rw e (send_to_others-Keeps m fd us s r)
    | inr e ↦ rw e (
        Comes-bind (
          Comes-mono
            (λ ok t (h, k). Comes-bind (
              Comes-mono (λ failed u (l, n). returned (Atomics-append h l, n ∙ k))
                (λ u l. Atomics-append h l) (send_to_others-Keeps m fd us t r)))
            (λ t h. h) (server_send-Keeps u.socket_fd m s r)))
  ]

  pub drop_unreached-IsAtomic : (fds : List ℕ) → IsAtomic (drop_unreached server_users fds)
  unfolding drop_unreached load_users store_users continue
  drop_unreached-IsAtomic [] = pure-IsAtomic tt
  drop_unreached-IsAtomic (fd ∷ fds) = in_turn (gets-IsAtomic _) λ table.
      in_turn
        (elim-IsAtomic (users_table_find_by_client_fd table fd) (pure tt) _ (pure-IsAtomic tt) λ u.
          in_turn (each_room-IsAtomic _ (room_remove_data-Changes u.username))
            λ _. change_users-IsAtomic (λ s. tt) (remove u.username))
        λ _. drop_unreached-IsAtomic fds

  -- Each send is a part.
  send_to_others-IsAtomic :
      (m : Message) (fd : ℕ) (us : List User)
      → is_reply m ≡ true
      → IsAtomic (send_to_others m fd us)
  unfolding send_to_others
  send_to_others-IsAtomic m fd [] r = pure-IsAtomic []
  send_to_others-IsAtomic m fd (u ∷ us) r =
      if-IsAtomic (u.socket_fd == fd) _ _ (send_to_others-IsAtomic m fd us r) (
        in_turn (server_send-IsAtomic u.socket_fd m r)
          λ ok. in_turn (send_to_others-IsAtomic m fd us r) λ failed. pure-IsAtomic _)

  pub notify_all-IsAtomic :
      (m : Message) (fd : ℕ) → is_reply m ≡ true → IsAtomic (notify_all_but_self server_users m fd)
  unfolding notify_all_but_self
  notify_all-IsAtomic m fd r = in_turn (gets-IsAtomic _) λ table.
      in_turn (send_to_others-IsAtomic m fd (users_table_iter table) r) drop_unreached-IsAtomic

  each_room-locked :
      (visitor : Room → Room) (s : Server)
      → s.rooms_locked ≡ true
      → each_room visitor s ≡ fault deadlock s
  unfolding each_room
  each_room-locked visitor s e = rw e refl

  -- In a room, which is visited with the rooms locked, a descriptor to drop stops the thread.
  drop_members-Moves :
      (name : Text) (fds : List ℕ) (before s : Server)
      → s.rooms_locked ≡ true
      → Atomics before s
      → Moves before (drop_unreached (members_of name) fds s)
  unfolding drop_unreached
  drop_members-Moves name [] before s e h = returned h
  drop_members-Moves name (fd ∷ fds) before s e h =
      elim (Option-cases (users_table_find_by_client_fd (load_users (members_of name) s) fd)) [
        | inl f ↦
            Comes-bind
              (returned (Comes-bind (rw f (returned (drop_members-Moves name fds before s e h)))))
        | inr (u, f) ↦ Comes-bind (
            returned (
              Comes-bind (
                rw f (
                  Comes-bind
                    (rw (each_room-locked (room_remove_data u.username) s e) (stopped h))))))
      ]

  -- The members of a room are told while the mutex of the rooms is held.
  pub notify_room-IsAtomic :
      (name : Text) (m : Message) (fd : ℕ)
      → is_reply m ≡ true
      → IsAtomic (room_table_with name (room_notify_members m fd))
  unfolding room_notify_members notify_all_but_self
  notify_room-IsAtomic name m fd r = room_table_with-IsAtomic name _ λ room s e f. Comes-bind (
      returned (
        Comes-bind (
          Comes-mono (λ failed t (h, k). drop_members-Moves name failed s t (k ∙ e) h) (λ t h. h)
            (send_to_others-Keeps m fd _ s r))))

  forget_user-IsAtomic : (user : Option User) (fd : ℕ) → IsAtomic (forget_user user fd)
  unfolding forget_user load_users store_users has_fields continue
  forget_user-IsAtomic none fd = pure-IsAtomic tt
  forget_user-IsAtomic (some u) fd = in_turn (notify_all-IsAtomic _ fd refl) λ _.
      in_turn (each_room-IsAtomic _ (room_remove_data-Changes u.username))
        λ _. change_users-IsAtomic (λ s. tt) (remove u.username)

  pub process_disconnect-IsAtomic : (fd : ℕ) → IsAtomic (process_disconnect fd)
  unfolding process_disconnect
  process_disconnect-IsAtomic fd = in_turn (gets-IsAtomic _) λ table.
      in_turn (forget_user-IsAtomic _ fd)
        λ _. in_turn (server_disconnect_client-IsAtomic fd) λ _. pure-IsAtomic true

  pub send_invalid_and_disconnect-IsAtomic : (fd : ℕ) → IsAtomic (send_invalid_and_disconnect fd)
  unfolding send_invalid_and_disconnect has_fields
  send_invalid_and_disconnect-IsAtomic fd =
      in_turn (server_send-IsAtomic fd _ refl) λ _. process_disconnect-IsAtomic fd

  pub send_or_disconnect-IsAtomic :
      (fd : ℕ) (m : Message) (client_fd : ℕ)
      → is_reply m ≡ true
      → IsAtomic (send_or_disconnect fd m client_fd)
  unfolding send_or_disconnect
  send_or_disconnect-IsAtomic fd m client_fd r =
      in_turn (server_send-IsAtomic fd m r)
        λ ok. if-IsAtomic ok _ _ (pure-IsAtomic true) (process_disconnect-IsAtomic client_fd)
