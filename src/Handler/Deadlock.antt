-- ===== src/Handler/Deadlock.antt =====
-- A text to a room one of whose members cannot be reached.
use ojalvo_chat.Prelude.{Option, none, ℕ, ◌≡◌, refl, ◌∙◌, Bool, true, false, List, ◌∷◌, some, Text}
use ojalvo_chat.Glib.{Glib}
use ojalvo_chat.Cjson.{Cjson}
use ojalvo_chat.User.{User}
use ojalvo_chat.UsersTable.{
  users_table_contains_by_client_fd, users_table_find_by_client_fd, users_table_iter,
}
use ojalvo_chat.Room.{Room}
use ojalvo_chat.RoomTable.{room_table_find, room_table_contains}
use ojalvo_chat.Message.{Message, message_init}
use ojalvo_chat.Message.Kind.{MessageType}
use ojalvo_chat.Server.{Server, Handler, room_table_with}
use ojalvo_chat.Server.Monad.{Network, Event, done, fault, deadlock, continue}
use ojalvo_chat.Handler.Notify.{send_invalid_and_disconnect, members_of, load_users, send_to_others}
use ojalvo_chat.Handler.Rooms.{room_is_a_member, room_notify_members, in_room}
use ojalvo_chat.Handler.RoomTalk.{say_to_members, as_member, if_member, process_room_text}
use ojalvo_chat.Handler.Delivery.{notify_members-deadlock}

module _ ⦃G : Glib⦄ where
  members_of_room :
      (s : Server) (name : Text) (room : Room)
      → room_table_find s.rooms name ≡ some room
      → load_users (members_of name) s ≡ room.members
  unfolding load_users
  members_of_room s name room e = rw (e, load_users) refl

  -- What an action on a room that is there comes to.
  pub with_room :
      {A : Type 0} (name : Text) (action : Text → Room → Handler A) (s : Server) (room : Room)
      → s.rooms_locked ≡ false
      → room_table_find s.rooms name ≡ some room
      → room_table_with name action s
        ≡ continue
            (continue
              (action name room (record s { rooms_locked = true }))
              (λ a t. done (some a) t))
            (λ a t. done a (record t { rooms_locked = false }))
  unfolding room_table_with
  with_room name action s room e f = rw (e, f) refl

  chosen :
      (o : Option User) (otherwise : Handler Bool) (act : User → Handler Bool) (u : User)
      (s : Server)
      → o ≡ some u
      → (elim o as (λ _. Handler Bool) [ none ↦ otherwise | some v ↦ act v ]) s ≡ act u s
  chosen o otherwise act u s e = rw e refl

  pub in_known_room :
      ⦃C : Cjson⦄ ⦃N : Network⦄ (operation name : Text) (fd : ℕ) (act : User → Handler Bool)
      (s : Server) (room : Room) (u : User)
      → room_table_find s.rooms name ≡ some room
      → users_table_find_by_client_fd s.users fd ≡ some u
      → in_room operation name fd act s ≡ act u s
  unfolding in_room room_table_contains room_table_find continue
  in_known_room operation name fd act s room u e f =
      rw e (
        chosen (users_table_find_by_client_fd s.users fd) (send_invalid_and_disconnect fd) act u s
          f)

module _ ⦃G : Glib⦄ ⦃C : Cjson⦄ ⦃N : Network⦄ where
  abbrev pub room_text_from : Text → Text → User → Message
  room_text_from name text user = record message_init {
    kind = MessageType.room_text_from;
    roomname = some name;
    username = some user.username;
    text = some text;
  }

  say_to_members-deadlock :
      (fd : ℕ) (s : Server) (name text : Text) (room : Room) (u v : User) (x : ℕ) (failed : List ℕ)
      (tr : List Event)
      → s.rooms_locked ≡ false
      → room_table_find s.rooms name ≡ some room
      → send_to_others
          (room_text_from name text u)
          fd
          (users_table_iter room.members)
          (record s { rooms_locked = true })
        ≡ done (x ∷ failed) (record s { rooms_locked = true; trace = tr })
      → users_table_find_by_client_fd room.members x ≡ some v
      → say_to_members name text fd u s
        ≡ fault deadlock (record s { rooms_locked = true; trace = tr })
  unfolding say_to_members room_notify_members continue
  say_to_members-deadlock fd s name text room u v x failed tr locked e sends known =
      rw
        (
          with_room name (room_notify_members (room_text_from name text u) fd) s room locked e,
          room_notify_members,
          notify_members-deadlock name (room_text_from name text u) fd
              (record s { rooms_locked = true }) tr x failed v refl
              (rw (members_of_room (record s { rooms_locked = true }) name room e) sends)
              (rw (members_of_room (record s { rooms_locked = true }) name room e) known),
        )
        refl

  -- When a member sends a ROOM_TEXT, the rooms are unlocked, and a first member to whom the send
  -- fails is found by its descriptor among the members, the thread stops at a deadlock, with the
  -- texts sent and the rooms locked.
  pub process_room_text-deadlock :
      (m : Message) (fd : ℕ) (s : Server) (name text : Text) (room : Room) (u v : User) (x : ℕ)
      (failed : List ℕ) (tr : List Event)
      → s.rooms_locked ≡ false
      → m.roomname ≡ some name
      → m.text ≡ some text
      → room_table_find s.rooms name ≡ some room
      → users_table_find_by_client_fd s.users fd ≡ some u
      → users_table_contains_by_client_fd room.members u.socket_fd ≡ true
      → send_to_others
          (room_text_from name text u)
          fd
          (users_table_iter room.members)
          (record s { rooms_locked = true })
        ≡ done (x ∷ failed) (record s { rooms_locked = true; trace = tr })
      → users_table_find_by_client_fd room.members x ≡ some v
      → process_room_text m fd s ≡ fault deadlock (record s { rooms_locked = true; trace = tr })
  unfolding process_room_text as_member if_member room_is_a_member continue
  process_room_text-deadlock m fd s name text room u v x failed tr locked e1 e2 e f member sends
        known =
      rw (e1, e2)
        (in_known_room _ name fd _ s room u e f
          ∙ rw (with_room name (room_is_a_member u) s room locked e, room_is_a_member, member)
              (say_to_members-deadlock fd (record s { rooms_locked = false }) name text room u v x
                failed tr refl e sends known))
