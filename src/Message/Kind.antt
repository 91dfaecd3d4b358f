-- ===== src/Message/Kind.antt =====
-- The kinds of message of message.h, and their names of message.c.
use ojalvo_chat.Prelude.{◌≡◌, refl, Option, none, some, Text, codes, str_eq, if◌then◌else◌}

pub data MessageType : Type 0 where
  identify status users text public_text new_room invite : MessageType
  invitation join_room room_users room_text leave_room disconnect new_user : MessageType
  new_status user_list text_from public_text_from joined_room room_user_list room_text_from :
      MessageType
  left_room disconnected response unknown : MessageType

unfoldable pub parse_message_type : Option Text → MessageType
unfolding str_eq
parse_message_type none = unknown
parse_message_type (some type_str) =
    if str_eq type_str (codes "IDENTIFY")
    then identify
    else if str_eq type_str (codes "STATUS")
    then status
    else if str_eq type_str (codes "USERS")
    then users
    else if str_eq type_str (codes "TEXT")
    then text
    else if str_eq type_str (codes "PUBLIC_TEXT")
    then public_text
    else if str_eq type_str (codes "NEW_ROOM")
    then new_room
    else if str_eq type_str (codes "INVITE")
    then invite
    else if str_eq type_str (codes "INVITATION")
    then invitation
    else if str_eq type_str (codes "JOIN_ROOM")
    then join_room
    else if str_eq type_str (codes "ROOM_USERS")
    then room_users
    else if str_eq type_str (codes "ROOM_TEXT")
    then room_text
    else if str_eq type_str (codes "LEAVE_ROOM")
    then leave_room
    else if str_eq type_str (codes "DISCONNECT")
    then disconnect
    else if str_eq type_str (codes "NEW_STATUS")
    then new_status
    else if str_eq type_str (codes "USER_LIST")
    then user_list
    else if str_eq type_str (codes "TEXT_FROM")
    then text_from
    else if str_eq type_str (codes "PUBLIC_TEXT_FROM")
    then public_text_from
    else if str_eq type_str (codes "JOINED_ROOM")
    then joined_room
    else if str_eq type_str (codes "ROOM_USER_LIST")
    then room_user_list
    else if str_eq type_str (codes "ROOM_TEXT_FROM")
    then room_text_from
    else if str_eq type_str (codes "LEFT_ROOM")
    then left_room
    else if str_eq type_str (codes "NEW_USER")
    then new_user
    else if str_eq type_str (codes "DISCONNECTED")
    then disconnected
    else if str_eq type_str (codes "RESPONSE")
    then response
    else unknown

unfoldable pub message_type_to_string : MessageType → Text
message_type_to_string identify = codes "IDENTIFY"
message_type_to_string status = codes "STATUS"
message_type_to_string users = codes "USERS"
message_type_to_string text = codes "TEXT"
message_type_to_string public_text = codes "PUBLIC_TEXT"
message_type_to_string new_room = codes "NEW_ROOM"
message_type_to_string invite = codes "INVITE"
message_type_to_string invitation = codes "INVITATION"
message_type_to_string join_room = codes "JOIN_ROOM"
message_type_to_string room_users = codes "ROOM_USERS"
message_type_to_string room_text = codes "ROOM_TEXT"
message_type_to_string leave_room = codes "LEAVE_ROOM"
message_type_to_string disconnect = codes "DISCONNECT"
message_type_to_string new_user = codes "NEW_USER"
message_type_to_string new_status = codes "NEW_STATUS"
message_type_to_string user_list = codes "USER_LIST"
message_type_to_string text_from = codes "TEXT_FROM"
message_type_to_string public_text_from = codes "PUBLIC_TEXT_FROM"
message_type_to_string joined_room = codes "JOINED_ROOM"
message_type_to_string room_user_list = codes "ROOM_USER_LIST"
message_type_to_string room_text_from = codes "ROOM_TEXT_FROM"
message_type_to_string left_room = codes "LEFT_ROOM"
message_type_to_string disconnected = codes "DISCONNECTED"
message_type_to_string response = codes "RESPONSE"
message_type_to_string unknown = codes "UNKNOWN"

-- Every kind of message reads back from the name it is sent under.
pub parse-message_type_to_string :
    (k : MessageType) → parse_message_type (some (message_type_to_string k)) ≡ k
unfolding parse_message_type message_type_to_string
parse-message_type_to_string identify = refl
parse-message_type_to_string status = refl
parse-message_type_to_string users = refl
parse-message_type_to_string text = refl
parse-message_type_to_string public_text = refl
parse-message_type_to_string new_room = refl
parse-message_type_to_string invite = refl
parse-message_type_to_string invitation = refl
parse-message_type_to_string join_room = refl
parse-message_type_to_string room_users = refl
parse-message_type_to_string room_text = refl
parse-message_type_to_string leave_room = refl
parse-message_type_to_string disconnect = refl
parse-message_type_to_string new_user = refl
parse-message_type_to_string new_status = refl
parse-message_type_to_string user_list = refl
parse-message_type_to_string text_from = refl
parse-message_type_to_string public_text_from = refl
parse-message_type_to_string joined_room = refl
parse-message_type_to_string room_user_list = refl
parse-message_type_to_string room_text_from = refl
parse-message_type_to_string left_room = refl
parse-message_type_to_string disconnected = refl
parse-message_type_to_string response = refl
parse-message_type_to_string unknown = refl
