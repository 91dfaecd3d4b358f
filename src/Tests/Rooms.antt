-- ===== src/Tests/Rooms.antt =====
-- The theorems about rooms at concrete inputs.
use ojalvo_chat.Prelude.{true, ◌≡◌, refl, [], codes}
use ojalvo_chat.RoomTable.{room_table_find}
use ojalvo_chat.Server.Monad.{fault, deadlock}
use ojalvo_chat.Server.Ends.{Ends}
use ojalvo_chat.Server.Sends.{IfSo, arrives}
use ojalvo_chat.Handler.Creation.{founding, HasOnly, process_new_room-HasOnly}
use ojalvo_chat.Handler.Deadlock.{process_room_text-deadlock}
use ojalvo_chat.Handler.Farewell.{Gone}
use ojalvo_chat.Handler.Membership.{IsDeadlock, HasLeft, process_leave_room-HasLeft}
use ojalvo_chat.Handler.Joining.{welcome, HasJoined, process_join_room-HasJoined}
use ojalvo_chat.Handler.Rooms.{process_join_room, process_new_room}
use ojalvo_chat.Handler.RoomTalk.{process_leave_room, process_room_text}
use ojalvo_chat.Tests.Json.{cjson_calls}
use ojalvo_chat.Tests.World.{
  room_with_bob, talking, talking-IsGood, two_users, lobby, glib_list, all_but_five,
}
use ojalvo_chat.Tests.Facts.{
  to_the_room, user_ana, user_bob, lobby_is_there, ana_by_fd, bob_by_fd, bob_is_member,
  ana_is_no_member, ana_is_guest, leave_lobby, join_lobby, not_sent, full_room, both_in,
  full_room_is_there, ana_is_in, bob_is_in, anas_text, bob_misses_it, make_den, den_is_free,
  den_is_added,
}

process_leave_room-HasLeft_example :
    Ends IsDeadlock
      (λ ok t.
        (t.users ≡ two_users) × HasLeft room_with_bob user_bob (room_table_find t.rooms lobby))
      (process_leave_room leave_lobby 5 talking)
process_leave_room-HasLeft_example =
    process_leave_room-HasLeft leave_lobby 5 talking lobby room_with_bob user_bob talking-IsGood
      refl lobby_is_there bob_by_fd bob_is_member

process_join_room-HasJoined_example :
    Ends IsDeadlock
      (λ ok t.
        IfSo
          (arrives talking.trace 4 (welcome lobby))
          ((ok ≡ true) × (t.users ≡ two_users) × HasJoined user_ana (room_table_find t.rooms lobby))
          (Gone 4 t))
      (process_join_room join_lobby 4 talking)
process_join_room-HasJoined_example =
    process_join_room-HasJoined join_lobby 4 talking lobby room_with_bob user_ana talking-IsGood
      refl lobby_is_there ana_by_fd ana_is_no_member ana_is_guest refl

process_room_text-deadlock_example :
    process_room_text to_the_room 4 both_in
    ≡ fault deadlock (record both_in { rooms_locked = true; trace = not_sent anas_text })
process_room_text-deadlock_example =
    process_room_text-deadlock to_the_room 4 both_in lobby (codes "hi") full_room user_ana user_bob
      5 [] (not_sent anas_text) refl refl refl full_room_is_there ana_by_fd ana_is_in bob_misses_it
      bob_is_in

process_new_room-HasOnly_example :
    Ends
      (λ f. ⊥)
      (λ ok t.
        IfSo
          (arrives talking.trace 4 (founding (codes "den")))
          ((ok ≡ true)
            × (t.users ≡ two_users)
            × HasOnly user_ana (room_table_find t.rooms (codes "den")))
          (Gone 4 t))
      (process_new_room make_den 4 talking)
process_new_room-HasOnly_example =
    process_new_room-HasOnly make_den 4 talking (codes "den") user_ana talking-IsGood refl
      den_is_free den_is_added ana_by_fd refl
