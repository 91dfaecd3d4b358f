-- ===== src/Atomic.antt =====
-- What a thread of server/src/client_handler.c does between two moments at which another thread may
-- act: one call that holds a mutex throughout, with what it does meanwhile, one send, or one close.
pub mod Actions
pub mod Common
pub mod Handlers
pub mod Rooms
pub mod Talk
pub mod Lines
pub mod Pool
pub mod Intact
pub mod Replies
pub mod Schedule
use ojalvo_chat.Prelude.{
  ℕ, ◌≡◌, Bool, true, false, List, [], ◌∷◌, Option, none, some, Text, is_some, ◌&&◌,
}
use ojalvo_chat.Glib.{Glib}
use ojalvo_chat.Cjson.{Cjson}
use ojalvo_chat.UsersTable.Shared.{Operation, perform}
use ojalvo_chat.Room.{Room}
use ojalvo_chat.RoomTable.{
  room_table_add, room_table_remove, room_table_find, room_table_write, room_table_for_each,
}
use ojalvo_chat.Message.{Message, message_to_json, server_buffer_size}
use ojalvo_chat.Message.Kind.{MessageType}
use ojalvo_chat.Server.{Server, with_newline}
use ojalvo_chat.Server.Monad.{Network, sent, closed}

module _ ⦃C : Cjson⦄ where
  -- Whether the kind is one that the server sends, and the message has the fields of that kind.
  unfoldable pub has_fields : MessageType → Message → Bool
  has_fields MessageType.response m = is_some m.operation && is_some m.result
  has_fields MessageType.new_user m = is_some m.username
  has_fields MessageType.new_status m = is_some m.username && is_some m.status
  has_fields MessageType.user_list m = is_some m.users
  has_fields MessageType.text_from m = is_some m.username && is_some m.text
  has_fields MessageType.public_text_from m = is_some m.username && is_some m.text
  has_fields MessageType.invitation m = is_some m.username && is_some m.roomname
  has_fields MessageType.joined_room m = is_some m.username && is_some m.roomname
  has_fields MessageType.room_user_list m = is_some m.roomname && is_some m.users
  has_fields MessageType.room_text_from m =
      is_some m.username && is_some m.roomname && is_some m.text
  has_fields MessageType.left_room m = is_some m.username && is_some m.roomname
  has_fields MessageType.disconnected m = is_some m.username
  has_fields _ m = false

  abbrev pub is_reply : Message → Bool
  is_reply m = has_fields m.kind m

module _ ⦃G : Glib⦄ where
  -- What an action that has the mutex of the rooms makes of a room.
  pub data Changes (room : Room) : Room → Type 0 where
    same : Changes room room
    members :
        (o : Operation) {r : Room}
        → Changes room r
        → Changes room (record r { members = (perform o r.members).0 })
    guests :
        (o : Operation) {r : Room}
        → Changes room r
        → Changes room (record r { guests = (perform o r.guests).0 })

  module _ ⦃C : Cjson⦄ ⦃N : Network⦄ where
    pub data Atomic (s : Server) : Server → Type 0 where
      change_users : (o : Operation) → Atomic s (record s { users = (perform o s.users).0 })
      add_room : (name : Text) → Atomic s (record s { rooms = (room_table_add s.rooms name).0 })
      remove_room :
          (name : Text) → Atomic s (record s { rooms = (room_table_remove s.rooms name).0 })
      change_room :
          (name : Text) {room after : Room}
          → room_table_find s.rooms name ≡ some room
          → Changes room after
          → Atomic s (record s { rooms = room_table_write s.rooms name after })
      change_rooms :
          (visitor : Room → Room)
          → ((room : Room) → Changes room (visitor room))
          → Atomic s (record s { rooms = room_table_for_each s.rooms visitor })
      lock_rooms : Atomic s (record s { rooms_locked = true })
      unlock_rooms : Atomic s (record s { rooms_locked = false })
      send_reply :
          (fd : ℕ) (m : Message) (json : Text) (ok : Bool)
          → is_reply m ≡ true
          → message_to_json m server_buffer_size ≡ some json
          → Atomic s (record s { trace = sent fd (with_newline json) ok ∷ s.trace })
      close_fd : (fd : ℕ) → Atomic s (record s { trace = closed fd ∷ s.trace })

    -- Any number of them, by one thread or by several.
    pub data Atomics (s : Server) : Server → Type 0 where
      rest : Atomics s s
      step : {t u : Server} → Atomics s t → Atomic t u → Atomics s u

    pub Atomics-append : {s t u : Server} → Atomics s t → Atomics t u → Atomics s u
    Atomics-append h rest = h
    Atomics-append h (step k a) = step (Atomics-append h k) a

    abbrev pub once : {s t : Server} → Atomic s t → Atomics s t
    once a = step rest a
