-- ===== src/Tests/Invitations.antt =====
-- The theorems about invitations at concrete inputs.
use ojalvo_chat.Prelude.{◌≡◌, refl, true, ◌||◌, [], ◌∷◌, some, str_eq}
use ojalvo_chat.User.{User, active, user_init}
use ojalvo_chat.UsersTable.{
  UsersTable, users_table_init, users_table_add, users_table_add_with_status,
  users_table_contains_by_client_fd, users_table_find_by_client_fd, users_table_find_by_username,
}
use ojalvo_chat.Message.{Message, message_init}
use ojalvo_chat.Message.Kind.{MessageType}
use ojalvo_chat.Server.{Server}
use ojalvo_chat.Server.Ends.{Ends}
use ojalvo_chat.Server.Invariant.{IsGood, users_table_add-Inv}
use ojalvo_chat.Handler.Rooms.{found, find_invited, process_invite}
use ojalvo_chat.Handler.Guests.{InvitedOrGone, first_missed, CanEnter}
use ojalvo_chat.Handler.Inviting.{invitation, process_invite-HasInvited, process_invite-stops}
use ojalvo_chat.Tests.Json.{cjson_calls}
use ojalvo_chat.Tests.World.{
  talking, talking-IsGood, two_users, room_with_bob, ana, lobby, glib_list, all_but_five,
}
use ojalvo_chat.Tests.Facts.{
  user_ana, user_bob, eve, six_is_free, eve_is_free, lobby_is_there, bob_is_member,
}

abbrev three_users : UsersTable
three_users = (users_table_add two_users eve 6).0

abbrev user_eve : User
user_eve = record { username = eve; socket_fd = 6; status = active }

abbrev crowded : Server
crowded = record talking { users = three_users }

crowded-IsGood : IsGood crowded
crowded-IsGood = record {
  inv =
      users_table_add-Inv two_users talking.rooms eve 6 talking-IsGood.inv six_is_free eve_is_free;
  unlocked = refl;
}

abbrev invite_eve : Message
invite_eve = record message_init {
  kind = MessageType.invite;
  roomname = some lobby;
  usernames = some (eve ∷ []);
}

bob_in_the_crowd : users_table_find_by_client_fd three_users 5 ≡ some user_bob
unfolding users_table_find_by_client_fd users_table_add user_init users_table_init str_eq
bob_in_the_crowd = refl

eve_is_found : find_invited three_users (eve ∷ []) ≡ found (user_eve ∷ [])
unfolding find_invited users_table_find_by_username users_table_add user_init users_table_init
    str_eq
eve_is_found = refl

eve-CanEnter : CanEnter room_with_bob (user_eve ∷ [])
unfolding users_table_contains_by_client_fd users_table_add_with_status user_init users_table_init
    str_eq
eve-CanEnter = (refl, refl, refl, refl, tt)

process_invite-HasInvited_example :
    Ends
      (λ f. ⊥)
      (λ ok t.
        InvitedOrGone
          (first_missed crowded.trace (invitation lobby user_bob) (user_eve ∷ []))
          three_users
          lobby
          room_with_bob
          (user_eve ∷ [])
          t)
      (process_invite invite_eve 5 crowded)
process_invite-HasInvited_example =
    process_invite-HasInvited invite_eve 5 crowded lobby (eve ∷ []) room_with_bob user_bob
      (user_eve ∷ []) crowded-IsGood refl refl lobby_is_there bob_in_the_crowd bob_is_member
      eve_is_found eve-CanEnter

abbrev invite_both : Message
invite_both = record message_init {
  kind = MessageType.invite;
  roomname = some lobby;
  usernames = some (ana ∷ eve ∷ []);
}

both_are_found : find_invited three_users (ana ∷ eve ∷ []) ≡ found (user_ana ∷ user_eve ∷ [])
unfolding find_invited users_table_find_by_username users_table_add user_init users_table_init
    str_eq
both_are_found = refl

ana_is_in_already :
    (users_table_contains_by_client_fd room_with_bob.members 4
      || users_table_contains_by_client_fd room_with_bob.guests 4)
    ≡ true
unfolding users_table_contains_by_client_fd users_table_add_with_status user_init users_table_init
    str_eq
ana_is_in_already = refl

process_invite-stops_example :
    Ends
      (λ f. ⊥)
      (λ ok t. (ok ≡ true) × (t.users ≡ three_users) × (t.rooms ≡ talking.rooms) × (t.trace ≡ []))
      (process_invite invite_both 5 crowded)
process_invite-stops_example =
    process_invite-stops invite_both 5 crowded lobby (ana ∷ eve ∷ []) room_with_bob user_bob
      user_ana (user_eve ∷ []) crowded-IsGood refl refl lobby_is_there bob_in_the_crowd
      bob_is_member both_are_found ana_is_in_already
