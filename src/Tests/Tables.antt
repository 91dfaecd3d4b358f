-- ===== src/Tests/Tables.antt =====
-- The theorems about tables, names and searches at concrete inputs.
use ojalvo_chat.Prelude.{true, refl, ◌≡◌, [], ◌∷◌, some, codes, if◌then◌else◌}
use ojalvo_chat.User.{active, busy}
use ojalvo_chat.UsersTable.{
  users_table_find_by_username, users_table_add_with_status, users_table_remove, users_table_add,
  users_table_change_status_by_client_fd,
}
use ojalvo_chat.UsersTable.View.{directory, enter, leave, mark, fits}
use ojalvo_chat.UsersTable.Directory.{
  users_table_remove-directory, add_with_status-directory, add-directory, change_status-directory,
}
use ojalvo_chat.UsersTable.Shared.{perform_all, answers, adds, refused, adds-first}
use ojalvo_chat.Tests.Json.{cjson_calls}
use ojalvo_chat.Tests.World.{two_users, bob, glib_list, all_but_five}
use ojalvo_chat.Tests.Facts.{eve, eve_is_free, two_users-IsValid}

users_table_remove-directory_example :
    directory (users_table_remove two_users bob).0 ≡ leave (directory two_users) bob
users_table_remove-directory_example = users_table_remove-directory two_users bob two_users-IsValid

add-directory_example : directory (users_table_add two_users bob 6).0 ≡ (
    if fits bob
    then enter (directory two_users) (record { username = bob; socket_fd = 6; status = active })
    else directory two_users)
add-directory_example = add-directory two_users bob 6 two_users-IsValid

change_status-directory_example :
    directory (users_table_change_status_by_client_fd two_users 5 busy).0
    ≡ mark (directory two_users) 5 busy
change_status-directory_example = change_status-directory two_users 5 busy two_users-IsValid

add_with_status-directory_example :
    directory (users_table_add_with_status two_users (codes "eve") 6 busy).0 ≡ (
      if fits (codes "eve")
      then enter
          (directory two_users)
          (record { username = codes "eve"; socket_fd = 6; status = busy })
      else directory two_users)
add_with_status-directory_example =
    add_with_status-directory two_users (codes "eve") 6 busy two_users-IsValid

adds-first_example :
    (answers (adds eve (6 ∷ 7 ∷ 8 ∷ [])) two_users ≡ true ∷ refused (7 ∷ 8 ∷ []))
    × (users_table_find_by_username (perform_all (adds eve (6 ∷ 7 ∷ 8 ∷ [])) two_users) eve
        ≡ some (record { username = eve; socket_fd = 6; status = active }))
adds-first_example = adds-first two_users eve 6 (7 ∷ 8 ∷ []) two_users-IsValid refl eve_is_free
