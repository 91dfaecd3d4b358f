-- ===== src/Tests/Facts.antt =====
-- What holds of the sample server, by evaluation.
use ojalvo_chat.Prelude.{
  Text, none, ℕ, ◌≡◌, refl, true, false, List, [], ◌∷◌, some, codes, str_eq, arith,
}
use mathlib.Core.List.{filter_map}
use ojalvo_chat.User.{User, user_init, active, busy, status_from_string}
use ojalvo_chat.Message.{
  Message, message_to_json, message_object, add_string, add_users, add_usernames, message_init,
}
use ojalvo_chat.Message.Kind.{MessageType, message_type_to_string}
use ojalvo_chat.MessageBuffer.{MessageBuffer}
use ojalvo_chat.MessageBuffer.Lines.{lines}
use ojalvo_chat.UsersTable.{
  users_table_find_by_username, users_table_contains_by_client_fd, users_table_add_with_status,
  users_table_iter, users_table_init, users_table_find_by_client_fd, users_table_add,
}
use ojalvo_chat.UsersTable.Invariant.{IsValid}
use ojalvo_chat.Room.{Room, room_init}
use ojalvo_chat.RoomTable.{room_table_contains, room_table_write, room_table_find, room_table_add}
use ojalvo_chat.Server.{Server, server_send, send_line, with_newline, initial_server}
use ojalvo_chat.Server.Monad.{done, Event, sent, closed, continue}
use ojalvo_chat.Handler.Notify.{members_of, load_users, send_to_others}
use ojalvo_chat.Client.Stream.{Fit}
use ojalvo_chat.Handler.Deadlock.{room_text_from}
use ojalvo_chat.Options.{ServerOptions, Libc, pos}
use ojalvo_chat.Tests.Json.{render, cjson_calls}
use ojalvo_chat.Tests.World.{
  room_with_bob, talking, talking-IsGood, two_users, ana, bob, lobby, glib_list, all_but_five,
}

pub two_users-IsValid : IsValid two_users
two_users-IsValid = talking-IsGood.inv.users.valid

abbrev pub to_the_room : Message
to_the_room = record message_init {
  kind = MessageType.room_text;
  roomname = some lobby;
  text = some (codes "hi");
}

abbrev pub goodbye : Message
goodbye = record message_init { kind = MessageType.disconnect }

abbrev pub hung_up : Server
hung_up = record initial_server { trace = closed 4 ∷ [] }

abbrev pub two_chunks : List (List ℕ)
two_chunks = codes "ab" ∷ (99 ∷ 10 ∷ 100 ∷ []) ∷ []

pub two_chunks-Fit : Fit [] two_chunks
unfolding lines
two_chunks-Fit = (omega arith, (omega arith, tt))

abbrev pub half_sent : MessageBuffer
half_sent = record { contents = 97 ∷ 10 ∷ 98 ∷ [] }

abbrev pub user_ana : User
user_ana = record { username = ana; socket_fd = 4; status = active }

abbrev pub user_bob : User
user_bob = record { username = bob; socket_fd = 5; status = active }

pub lobby_is_there : room_table_find talking.rooms lobby ≡ some room_with_bob
unfolding room_table_find room_table_write str_eq
lobby_is_there = refl

pub ana_by_fd : users_table_find_by_client_fd two_users 4 ≡ some user_ana
unfolding users_table_find_by_client_fd users_table_add user_init users_table_init str_eq
ana_by_fd = refl

pub bob_by_fd : users_table_find_by_client_fd two_users 5 ≡ some user_bob
unfolding users_table_find_by_client_fd users_table_add user_init users_table_init str_eq
bob_by_fd = refl

pub bob_is_member : users_table_contains_by_client_fd room_with_bob.members 5 ≡ true
unfolding users_table_contains_by_client_fd users_table_add_with_status user_init users_table_init
    str_eq
bob_is_member = refl

pub ana_is_no_member : users_table_contains_by_client_fd room_with_bob.members 4 ≡ false
unfolding users_table_contains_by_client_fd users_table_add_with_status user_init users_table_init
    str_eq
ana_is_no_member = refl

pub ana_is_guest : users_table_contains_by_client_fd room_with_bob.guests 4 ≡ true
unfolding users_table_contains_by_client_fd users_table_add_with_status user_init users_table_init
    str_eq
ana_is_guest = refl

abbrev pub leave_lobby : Message
leave_lobby = record message_init { kind = MessageType.leave_room; roomname = some lobby }

abbrev pub join_lobby : Message
join_lobby = record message_init { kind = MessageType.join_room; roomname = some lobby }

abbrev pub list_users : Message
list_users = record message_init { kind = MessageType.users }

pub nobody_has_nine : users_table_contains_by_client_fd two_users 9 ≡ false
unfolding users_table_contains_by_client_fd users_table_add user_init users_table_init str_eq
nobody_has_nine = refl

abbrev pub hello_bob : Message
hello_bob = record message_init {
  kind = MessageType.text;
  username = some bob;
  text = some (codes "hi");
}

abbrev pub not_sent : Message → List Event
not_sent m = sent 5 (with_newline (render (message_object m))) false ∷ []

abbrev pub in_the_lobby : Server
in_the_lobby = record talking { rooms_locked = true }

pub bob_in_lobby :
    users_table_find_by_client_fd (load_users (members_of lobby) in_the_lobby) 5 ≡ some user_bob
unfolding users_table_find_by_client_fd load_users room_table_find room_table_write
    users_table_add_with_status user_init users_table_init str_eq
bob_in_lobby = refl

-- Ana and Bob are both in the room.
abbrev pub full_room : Room
full_room = record room_with_bob {
  members = (users_table_add_with_status room_with_bob.members ana 4 active).0;
}

abbrev pub both_in : Server
both_in = record talking { rooms = room_table_write talking.rooms lobby full_room }

pub full_room_is_there : room_table_find both_in.rooms lobby ≡ some full_room
unfolding room_table_find room_table_write str_eq
full_room_is_there = refl

pub ana_is_in : users_table_contains_by_client_fd full_room.members 4 ≡ true
unfolding users_table_contains_by_client_fd users_table_add_with_status user_init users_table_init
    str_eq
ana_is_in = refl

pub bob_is_in : users_table_find_by_client_fd full_room.members 5 ≡ some user_bob
unfolding users_table_find_by_client_fd users_table_add_with_status user_init users_table_init
    str_eq
bob_is_in = refl

abbrev pub anas_text : Message
anas_text = room_text_from lobby (codes "hi") user_ana

pub bob_misses_it :
    send_to_others anas_text 4
      (users_table_iter full_room.members)
      (record both_in { rooms_locked = true })
    ≡ done (5 ∷ []) (record both_in { rooms_locked = true; trace = not_sent anas_text })
unfolding server_send send_line message_to_json message_object message_type_to_string add_string
    add_users add_usernames send_to_others users_table_iter continue users_table_add_with_status
    user_init users_table_init str_eq filter_map
bob_misses_it = refl

abbrev pub eve : Text
eve = codes "eve"

abbrev pub i_am_eve : Message
i_am_eve = record message_init { kind = MessageType.identify; username = some eve }

pub six_is_free : users_table_find_by_client_fd two_users 6 ≡ none
unfolding users_table_find_by_client_fd users_table_add user_init users_table_init str_eq
six_is_free = refl

pub eve_is_free : users_table_find_by_username two_users eve ≡ none
unfolding users_table_find_by_username users_table_add user_init users_table_init str_eq
eve_is_free = refl

pub eve_is_added : (users_table_add two_users eve 6).1 ≡ true
unfolding users_table_add user_init users_table_init str_eq
eve_is_added = refl

abbrev pub i_am_busy : Message
i_am_busy = record message_init { kind = MessageType.status; status = some (codes "BUSY") }

pub reads_busy : status_from_string (some (codes "BUSY")) ≡ some busy
unfolding status_from_string str_eq
reads_busy = refl

abbrev pub make_den : Message
make_den = record message_init { kind = MessageType.new_room; roomname = some (codes "den") }

pub den_is_free : room_table_contains talking.rooms (codes "den") ≡ false
unfolding room_table_contains room_table_write str_eq
den_is_free = refl

pub den_is_added : (room_table_add talking.rooms (codes "den")).1 ≡ true
unfolding room_table_add room_init room_table_write str_eq
den_is_added = refl

abbrev pub too_high : Libc
too_high = record { strtol = λ arg. record { moved = true; value = pos 70000; failed = false } }

abbrev pub port_given : ServerOptions
port_given = record { show_help = false; log_enabled = true; port_arg = some (codes "70000") }

abbrev pub two_arguments : List Text
two_arguments = codes "server" ∷ codes "--log" ∷ []
