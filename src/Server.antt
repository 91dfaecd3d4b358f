-- ===== src/Server.antt =====
-- server/src/server.c and server.h: the server's state, and what it does to its sockets. The
-- descriptors that `accept` gave are natural numbers; `malloc` and `strdup` are taken to succeed.
pub mod Monad
pub mod Ends
pub mod Synced
pub mod Invariant
pub mod Freeing
pub mod Sends
use ojalvo_chat.Prelude.{
  ℕ, ◌+◌, ◌-◌, Bool, true, false, List, [], ◌∷◌, ◌++◌, Option, none, some, Text, length, ltb, take,
  if◌then◌else◌,
}
use ojalvo_chat.Glib.{Glib}
use ojalvo_chat.Cjson.{Cjson}
use ojalvo_chat.Message.{Message, message_to_json, server_buffer_size}
use ojalvo_chat.UsersTable.{UsersTable, users_table_init}
use ojalvo_chat.Room.{Room}
use ojalvo_chat.RoomTable.{RoomTable, room_table_init, room_table_find, room_table_for_each}
use Monad.{Network, Event, sent, closed, Action, done, fault, deadlock, continue}

module _ ⦃G : Glib⦄ where
  -- `rooms_locked` says that `rooms.mutex` is held; `trace` has the newest event first.
  pub record Server : Type 0 where
    pub users : UsersTable
    pub rooms : RoomTable
    pub rooms_locked : Bool
    pub trace : List Event

  abbrev pub Handler : Type 0 → Type 0
  Handler A = Action Server A

  abbrev pub initial_server : Server
  initial_server = record {
    users = users_table_init;
    rooms = room_table_init;
    rooms_locked = false;
    trace = [];
  }

  -- What `g_mutex_lock` and `g_mutex_unlock` of `rooms.mutex` make of the code between them.
  unfoldable pub holding_rooms : {A : Type 0} → Handler A → Handler A
  holding_rooms body s =
      if s.rooms_locked
      then fault deadlock s
      else continue (body (record s { rooms_locked = true }))
          λ a t. done a (record t { rooms_locked = false })

  -- The action gets the room's key and its contents; `none` where there is no such room.
  unfoldable pub room_table_with :
      {A : Type 0} → Text → (Text → Room → Handler A) → Handler (Option A)
  unfolding holding_rooms
  room_table_with roomname action = holding_rooms λ s. elim (room_table_find s.rooms roomname) [
    | none ↦ done none s
    | some room ↦ continue (action roomname room s) λ a t. done (some a) t
  ]

  unfoldable pub each_room : (Room → Room) → Handler (Unit {0})
  unfolding holding_rooms
  each_room visitor =
      holding_rooms λ s. done tt (record s { rooms = room_table_for_each s.rooms visitor })

  -- `close(client_fd)`
  unfoldable pub server_disconnect_client : ℕ → Handler (Unit {0})
  server_disconnect_client client_fd s = done tt (record s { trace = closed client_fd ∷ s.trace })

  module _ ⦃C : Cjson⦄ ⦃N : Network⦄ where
    -- The line that ends a message; in a full buffer it takes the place of the last byte.
    abbrev pub with_newline : Text → Text
    with_newline json =
        if ltb (length json + 1) server_buffer_size
        then json ++ 10 ∷ []
        else take (server_buffer_size - 2) json ++ 10 ∷ []

    unfoldable pub send_line : ℕ → Text → Handler Bool
    send_line client_fd line s =
        let ok = N.accepts s.trace client_fd line in
        done ok (record s { trace = sent client_fd line ok ∷ s.trace })

    -- Whether the result is not negative.
    unfoldable pub server_send : ℕ → Message → Handler Bool
    unfolding send_line
    server_send client_fd message s = elim (message_to_json message server_buffer_size) [
      | none ↦ done false s
      | some json ↦ send_line client_fd (with_newline json) s
    ]
