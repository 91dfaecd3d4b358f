-- ===== src/Handler/Listed.antt =====
-- What server/src/message_handler.c answers to USERS and ROOM_USERS.
use mathlib.Core.Option
use ojalvo_chat.Prelude.{
  ℕ, ◌≡◌, refl, ◌∙◌, ap, sym, Bool, true, false, List, [], ◌∷◌, Option, none, some, Text, str_eq,
  if◌then◌else◌,
}
use ojalvo_chat.Glib.{Glib}
use ojalvo_chat.Cjson.{Cjson}
use ojalvo_chat.Cjson.Laws.{CjsonLaws, IsBuilt, created, extended, or_else}
use ojalvo_chat.User.{User, status_to_string}
use ojalvo_chat.UsersTable.{
  UsersTable, users_table_iter, users_table_find_by_username, users_table_find_by_client_fd,
  users_table_contains_by_client_fd,
}
use ojalvo_chat.UsersTable.Invariant.{IsValid}
use ojalvo_chat.UsersTable.Listing.{find_named, users_table_iter-find}
use ojalvo_chat.Room.{Room}
use ojalvo_chat.RoomTable.{room_table_find}
use ojalvo_chat.Message.{Message, message_init}
use ojalvo_chat.Message.Written.{or_else-none}
use ojalvo_chat.Message.Kind.{MessageType}
use ojalvo_chat.Server.{Server}
use ojalvo_chat.Server.Monad.{Network}
use ojalvo_chat.Server.Ends.{Ends, returns, Ends-bind}
use ojalvo_chat.Server.Invariant.{IsGood}
use ojalvo_chat.Handler.Answers.{Told, send_or_disconnect-Told}
use ojalvo_chat.Handler.Presence.{with_found, in_room-Ends}
use ojalvo_chat.Handler.Chat.{add_users_to, process_users}
use ojalvo_chat.Handler.Rooms.{room_is_a_member}
use ojalvo_chat.Handler.RoomTalk.{
  room_users, as_member, if_member, list_members, process_room_users,
}

module _ ⦃C : Cjson⦄ where
  abbrev pub status_item : User → C.Json
  status_item u = C.create_string (status_to_string u.status)

  -- The object has, under each name, the status of the user whom a search by that name finds.
  abbrev pub Lists : ⦃G : Glib⦄ → UsersTable → C.Json → Type 0
  Lists t object =
      (name : Text)
      → C.get_object_item object name ≡ Option.map status_item (users_table_find_by_username t name)

  abbrev pub listed : ⦃G : Glib⦄ → UsersTable → C.Json
  listed t = add_users_to C.create_object (users_table_iter t)

  abbrev pub user_list : C.Json → Message
  user_list object = record message_init { kind = MessageType.user_list; users = some object }

  abbrev pub room_user_list : Text → C.Json → Message
  room_user_list roomname object = record message_init {
    kind = MessageType.room_user_list;
    roomname = some roomname;
    users = some object;
  }

module _ ⦃G : Glib⦄ ⦃C : Cjson⦄ ⦃L : CjsonLaws⦄ where
  or_else_found :
      (o : Option C.Json) (b : Bool) (u : User) (f : Option User)
      → or_else (or_else o (if b then some (status_item u) else none)) (Option.map status_item f)
        ≡ or_else o (Option.map status_item (if b then some u else f))
  or_else_found none true u f = refl
  or_else_found none false u f = refl
  or_else_found (some j) b u f = refl

  get-add_users_to :
      (us : List User) (j : C.Json) (name : Text)
      → IsBuilt j
      → C.get_object_item (add_users_to j us) name
        ≡ or_else (C.get_object_item j name) (Option.map status_item (find_named us name))
  unfolding add_users_to
  get-add_users_to [] j name b = sym (or_else-none (C.get_object_item j name))
  get-add_users_to (u ∷ us) j name b =
      get-add_users_to us (C.add_item_to_object j u.username (status_item u)) name
        (extended u.username (status_item u) b)
      ∙ ap (λ o. or_else o (Option.map status_item (find_named us name)))
          (L.get-add j u.username (status_item u) name b)
      ∙ or_else_found (C.get_object_item j name) (str_eq u.username name) u (find_named us name)

  add_users_to-Lists : (t : UsersTable) → IsValid t → Lists t (listed t)
  add_users_to-Lists t v name =
      get-add_users_to (users_table_iter t) C.create_object name created
      ∙ ap (λ o. or_else o (Option.map status_item (find_named (users_table_iter t) name)))
          (L.get-create_object name)
      ∙ ap (λ o. Option.map status_item o) ((users_table_iter-find t v).1 name)

  module _ ⦃N : Network⦄ where
    -- Under the documented laws of cJSON, USERS from a good state sends the client one object of
    -- USER_LIST, which has under each name the status of the user whom a search by that name finds,
    -- and nothing under other names. Where it arrives, the handler returns true and only the trace
    -- has changed; where it does not, the client is gone from all tables.
    pub process_users-Lists :
        (fd : ℕ) (s : Server)
        → IsGood s
        → Ends (λ f. ⊥) (Told fd (user_list (listed s.users)) fd s) (process_users fd s)
          × Lists s.users (listed s.users)
    unfolding process_users
    process_users-Lists fd s g = (
      Ends-bind (returns (send_or_disconnect-Told fd (user_list (listed s.users)) fd s g)),
      add_users_to-Lists s.users g.inv.users.valid,
    )

    -- Under the documented laws of cJSON, ROOM_USERS by a member of a room from a good state sends
    -- the client one object of ROOM_USER_LIST, which has under each name the status of the member
    -- whom a search by that name finds, and nothing under other names. Where it arrives, the
    -- handler returns true and only the trace has changed; where it does not, the client is gone
    -- from all tables.
    pub process_room_users-Lists :
        (m : Message) (fd : ℕ) (s : Server) (name : Text) (room : Room) (u : User)
        → IsGood s
        → m.roomname ≡ some name
        → room_table_find s.rooms name ≡ some room
        → users_table_find_by_client_fd s.users fd ≡ some u
        → users_table_contains_by_client_fd room.members u.socket_fd ≡ true
        → Ends
            (λ f. ⊥)
            (Told fd
              (room_user_list name (listed room.members))
              fd
              (record s { rooms_locked = false }))
            (process_room_users m fd s)
          × Lists room.members (listed room.members)
    unfolding process_room_users as_member if_member room_is_a_member list_members room_users
    process_room_users-Lists m fd s name room u g e f h member = (
      rw e (
          in_room-Ends (λ f. ⊥) _ _ name fd _ s room u f h
            (Ends-bind (
              with_found (λ f. ⊥) _ name (room_is_a_member u) s room g.unlocked f
                (returns (
                  rw member (
                    Ends-bind (
                      with_found (λ f. ⊥) _ name room_users (record s { rooms_locked = false }) room
                        refl f
                        (returns (
                          send_or_disconnect-Told fd _ fd (record s { rooms_locked = false })
                            (record { inv = g.inv; unlocked = refl })))))))))),
      add_users_to-Lists room.members (g.inv.rooms name room f).members.sound.valid,
    )
