-- ===== src/Tests/Traffic.antt =====
-- The theorems about messages to all, and about threads, at concrete inputs.
use ojalvo_chat.Prelude.{◌≡◌, refl, true, ◌==◌, [], ◌∷◌, false, none, some, ℕ, codes, Text, arith}
use ojalvo_chat.UsersTable.{users_table_find_by_client_fd, users_table_iter}
use ojalvo_chat.Message.{
  Message, message_init, message_to_json, message_from_json, message_object, add_string, add_users,
  add_usernames, server_buffer_size,
}
use ojalvo_chat.Message.Kind.{MessageType, message_type_to_string}
use ojalvo_chat.Message.Written.{IsText}
use ojalvo_chat.Message.RoundTrip.{as_written, message_from_json-to_json}
use ojalvo_chat.Server.{with_newline}
use ojalvo_chat.Server.Ends.{Ends}
use ojalvo_chat.Handler.Chat.{process_public_text}
use ojalvo_chat.Handler.Receivers.{addressed, to_others, onto, public_text_from}
use ojalvo_chat.Handler.Receivers.{process_public_text-addressed, process_public_text-oversized}
use ojalvo_chat.Client.{handle_line}
use ojalvo_chat.Server.Invariant.{IsGood}
use ojalvo_chat.Client.Sound.{line_may_fault, handle_line-IsGood}
use ojalvo_chat.Tests.Json.{render, cjson_calls, cjson_laws}
use ojalvo_chat.Tests.World.{talking, talking-IsGood, two_users, glib_list, all_but_five}
use ojalvo_chat.Tests.Facts.{to_the_room, user_ana, ana_by_fd}
use ojalvo_chat.Tests.Large.{long_text, long_text-large}

to_the_room-IsText : IsText to_the_room
to_the_room-IsText = record {
  username = tt;
  operation = tt;
  result = tt;
  extra = tt;
  status = tt;
  text = ((omega arith, omega arith), ((omega arith, omega arith), tt));
  roomname = (
    (omega arith, omega arith),
    (
      (omega arith, omega arith),
      ((omega arith, omega arith), ((omega arith, omega arith), ((omega arith, omega arith), tt))),
    ),
  );
  users = tt;
  usernames = tt;
}

to_the_room_printed : message_to_json to_the_room 1024 ≡ some (render (message_object to_the_room))
unfolding message_to_json message_object add_string add_users add_usernames message_type_to_string
to_the_room_printed = refl

message_from_json-to_json_example :
    message_from_json (render (message_object to_the_room)) ≡ some (as_written to_the_room)
message_from_json-to_json_example =
    message_from_json-to_json to_the_room 1024 (render (message_object to_the_room))
      to_the_room-IsText to_the_room_printed

abbrev to_all : Text → Message
to_all text = record message_init { kind = MessageType.public_text; text = some text }

abbrev hi : Text
hi = codes "hi"

hi_printed :
    message_to_json (public_text_from user_ana hi) server_buffer_size
    ≡ some (render (message_object (public_text_from user_ana hi)))
unfolding message_to_json message_object add_string add_users add_usernames message_type_to_string
hi_printed = refl

process_public_text-addressed_example :
    Ends
      (λ f. ⊥)
      (λ ok t.
        (ok ≡ true)
        × (addressed t.trace
            ≡ onto
                (to_others 4
                  (with_newline (render (message_object (public_text_from user_ana hi))))
                  (users_table_iter two_users))
                []))
      (process_public_text (to_all hi) 4 talking)
process_public_text-addressed_example =
    process_public_text-addressed (to_all hi) 4 talking user_ana hi
      (render (message_object (public_text_from user_ana hi))) talking-IsGood ana_by_fd refl
      hi_printed

process_public_text-oversized_example :
    Ends
      (λ f. ⊥)
      (λ ok t.
        (ok ≡ true)
        × (t.trace ≡ [])
        × ((x : ℕ) → (x == 4) ≡ false → users_table_find_by_client_fd t.users x ≡ none))
      (process_public_text (to_all long_text) 4 talking)
process_public_text-oversized_example =
    process_public_text-oversized (to_all long_text) 4 talking user_ana long_text talking-IsGood
      ana_by_fd refl (long_text-large user_ana)

-- A line that is no message.
handle_line-IsGood_example :
    Ends
      (λ f. line_may_fault (123 ∷ []) f ≡ true)
      (λ go_on. IsGood)
      (handle_line (123 ∷ []) 4 talking)
handle_line-IsGood_example = handle_line-IsGood (123 ∷ []) 4 talking talking-IsGood
