-- ===== src/User.antt =====
-- server/src/user.c and user.h: a user, and the names of the statuses.
use ojalvo_chat.Prelude.{
  ℕ, ◌≡◌, refl, ◌||◌, Option, none, some, Text, codes, str_eq, length, ltb, ◌==◌, if◌then◌else◌,
}

pub data Status : Type 0 where
  active away busy : Status

pub record User : Type 0 where
  pub username : Text
  pub socket_fd : ℕ
  pub status : Status

-- USER_USERNAME_MAX_LENGTH
abbrev pub username_max_length : ℕ
username_max_length = 8

-- `none` where the function returns false; a NULL name is `none`.
unfoldable pub user_init : Option Text → ℕ → Option User
user_init none socket_fd = none
user_init (some username) socket_fd =
    if length username == 0 || ltb username_max_length (length username)
    then none
    else some (record { username = username; socket_fd = socket_fd; status = active })

unfoldable pub status_to_string : Status → Text
status_to_string active = codes "ACTIVE"
status_to_string away = codes "AWAY"
status_to_string busy = codes "BUSY"

unfoldable pub status_from_string : Option Text → Option Status
unfolding str_eq
status_from_string none = none
status_from_string (some text) =
    if str_eq text (codes "ACTIVE")
    then some active
    else if str_eq text (codes "AWAY")
    then some away
    else if str_eq text (codes "BUSY")
    then some busy
    else none

-- The text of a status reads back as that status.
pub status_from_string-to_string :
    (s : Status) → status_from_string (some (status_to_string s)) ≡ some s
unfolding status_from_string status_to_string
status_from_string-to_string active = refl
status_from_string-to_string away = refl
status_from_string-to_string busy = refl
