-- ===== src/Tests/Memory.antt =====
-- The theorems about the memory of a message at concrete inputs.
use ojalvo_chat.Prelude.{ℕ, ◌+◌, ◌≡◌, true, false, ◌∷◌, [], some, Text, codes, ◌==◌, if◌then◌else◌}
use ojalvo_chat.Message.{message_object, message_init}
use ojalvo_chat.Message.Kind.{MessageType}
use ojalvo_chat.Message.Memory.{
  Allocator, Heap, stored_message_init, message_destroy, message_from_json_into,
}
use ojalvo_chat.Message.Memory.Balance.{count}
use ojalvo_chat.Message.Memory.Freed.{tree_count, message_from_json-frees}
use ojalvo_chat.Message.Memory.Writing.{name_count, message_to_json_into, message_to_json-leaves}
use ojalvo_chat.Server.Ends.{Ends}
use ojalvo_chat.Tests.Facts.{to_the_room}
use ojalvo_chat.Tests.Json.{render, cjson_calls}

-- The ninth allocation fails.
abbrev nearly_full : Allocator
nearly_full = record { grants = λ n. if n == 9 then false else true }

abbrev in_use : Heap
in_use = record { attempts = 7; live = 6 ∷ 2 ∷ [] }

abbrev invitation : Text
invitation = render (
    message_object (record message_init {
      kind = MessageType.invite;
      roomname = some (codes "lobby");
      usernames = some (codes "ana" ∷ codes "bob" ∷ []);
    }))

message_from_json-frees_example :
    Ends
      (λ f. ⊥)
      (λ (ok, msg) t.
        Ends
          (λ f. ⊥)
          (λ m u.
            (m ≡ stored_message_init)
            × ((p : ℕ)
                → count p u.live
                  ≡ (if ok then 0 else tree_count ⦃A = nearly_full⦄ invitation in_use p)
                    + count p in_use.live))
          (message_destroy msg t))
      (message_from_json_into ⦃A = nearly_full⦄ invitation in_use)
message_from_json-frees_example = message_from_json-frees ⦃A = nearly_full⦄ invitation in_use

message_to_json-leaves_example :
    Ends
      (λ f. ⊥)
      (λ o t.
        (p : ℕ) → count p t.live ≡ name_count ⦃A = nearly_full⦄ in_use p + count p in_use.live)
      (message_to_json_into ⦃A = nearly_full⦄ to_the_room 1024 in_use)
message_to_json-leaves_example = message_to_json-leaves ⦃A = nearly_full⦄ to_the_room 1024 in_use
