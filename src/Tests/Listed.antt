-- ===== src/Tests/Listed.antt =====
-- The theorems about what USERS and ROOM_USERS answer, at concrete inputs.
use ojalvo_chat.Prelude.{refl, some}
use ojalvo_chat.Message.{Message, message_init}
use ojalvo_chat.Server.Ends.{Ends}
use ojalvo_chat.Handler.Answers.{Told}
use ojalvo_chat.Message.Kind.{MessageType}
use ojalvo_chat.Handler.Chat.{process_users}
use ojalvo_chat.Handler.RoomTalk.{process_room_users}
use ojalvo_chat.Handler.Listed.{
  Lists, listed, user_list, room_user_list, process_users-Lists, process_room_users-Lists,
}
use ojalvo_chat.Tests.Json.{cjson_calls, cjson_laws}
use ojalvo_chat.Tests.World.{
  talking, talking-IsGood, two_users, room_with_bob, lobby, glib_list, all_but_five,
}
use ojalvo_chat.Tests.Facts.{lobby_is_there, bob_by_fd, bob_is_member, user_bob}

process_users-Lists_example :
    Ends (λ f. ⊥) (Told 4 (user_list (listed two_users)) 4 talking) (process_users 4 talking)
    × Lists two_users (listed two_users)
process_users-Lists_example = process_users-Lists 4 talking talking-IsGood

abbrev who_is_there : Message
who_is_there = record message_init { kind = MessageType.room_users; roomname = some lobby }

process_room_users-Lists_example :
    Ends
      (λ f. ⊥)
      (Told 5 (room_user_list lobby (listed room_with_bob.members)) 5 talking)
      (process_room_users who_is_there 5 talking)
    × Lists room_with_bob.members (listed room_with_bob.members)
process_room_users-Lists_example =
    process_room_users-Lists who_is_there 5 talking lobby room_with_bob user_bob talking-IsGood refl
      lobby_is_there bob_by_fd bob_is_member
