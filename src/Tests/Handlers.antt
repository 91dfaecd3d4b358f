-- ===== src/Tests/Handlers.antt =====
-- The theorems about the handlers at concrete inputs.
use ojalvo_chat.Prelude.{◌≡◌, refl, true, some, codes}
use ojalvo_chat.User.{busy}
use ojalvo_chat.Message.Kind.{MessageType}
use ojalvo_chat.UsersTable.{users_table_find_by_username}
use ojalvo_chat.Server.Ends.{Ends}
use ojalvo_chat.Server.Sends.{IfSo, arrives}
use ojalvo_chat.Server.Invariant.{IsGood}
use ojalvo_chat.Handler.Chat.{process_identify, process_status, process_text}
use ojalvo_chat.Handler.{message_handler_process}
use ojalvo_chat.Handler.Notify.{process_disconnect}
use ojalvo_chat.Handler.Sound.{MayFault, message_handler_process-IsGood}
use ojalvo_chat.Handler.Notice.{Knows}
use ojalvo_chat.Handler.Arrival.{identified, newcomer, process_identify-Knows, process_status-Knows}
use ojalvo_chat.Handler.Delivery.{process_text-delivers, Passed}
use ojalvo_chat.Handler.Farewell.{
  Gone, just_closed, process_disconnect-Gone, message_handler_process-unidentified,
}
use ojalvo_chat.Tests.Json.{cjson_calls}
use ojalvo_chat.Tests.World.{talking, talking-IsGood, two_users, bob, glib_list, all_but_five}
use ojalvo_chat.Tests.Facts.{
  to_the_room, user_ana, ana_by_fd, list_users, nobody_has_nine, hello_bob, eve, i_am_eve,
  six_is_free, eve_is_free, eve_is_added, i_am_busy, reads_busy,
}

message_handler_process-IsGood_example :
    Ends
      (MayFault MessageType.room_text to_the_room)
      (λ done t. IsGood t)
      (message_handler_process (some to_the_room) 4 talking)
message_handler_process-IsGood_example =
    message_handler_process-IsGood to_the_room 4 talking talking-IsGood

process_disconnect-Gone_example : Ends (λ f. ⊥) (λ ok. Gone 4) (process_disconnect 4 talking)
process_disconnect-Gone_example = process_disconnect-Gone 4 talking talking-IsGood

unidentified_example :
    Ends
      (λ f. ⊥)
      (λ ok t.
        (ok ≡ true)
        × (t.users ≡ two_users)
        × (t.rooms ≡ talking.rooms)
        × (just_closed t.trace ≡ some 9))
      (message_handler_process (some list_users) 9 talking)
unidentified_example =
    message_handler_process-unidentified list_users 9 talking refl nobody_has_nine

process_text-delivers_example :
    Ends
      (λ f. ⊥)
      (Passed bob user_ana (codes "hi") 4 talking (users_table_find_by_username two_users bob))
      (process_text hello_bob 4 talking)
process_text-delivers_example =
    process_text-delivers hello_bob 4 talking user_ana bob (codes "hi") talking-IsGood refl refl
      ana_by_fd

process_identify-Knows_example :
    Ends
      (λ f. ⊥)
      (λ ok t.
        IfSo
          (arrives talking.trace 6 (identified eve))
          ((ok ≡ true) × Knows 6 (newcomer eve 6) t)
          (Gone 6 t))
      (process_identify i_am_eve 6 talking)
process_identify-Knows_example =
    process_identify-Knows i_am_eve 6 talking eve talking-IsGood refl six_is_free eve_is_free refl
      eve_is_added

process_status-Knows_example :
    Ends
      (λ f. ⊥)
      (λ ok t. (ok ≡ true) × Knows 4 (record user_ana { status = busy }) t)
      (process_status i_am_busy 4 talking)
process_status-Knows_example =
    process_status-Knows i_am_busy 4 talking (codes "BUSY") busy user_ana talking-IsGood refl
      reads_busy ana_by_fd
