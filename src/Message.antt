-- ===== src/Message.antt =====
-- server/src/message.c and message.h: the protocol's messages, from JSON and to JSON.
pub mod Kind
pub mod Written
pub mod RoundTrip
pub mod Memory
use ojalvo_chat.Prelude.{
  ℕ, ◌+◌, ◌*◌, ◌&&◌, List, [], ◌∷◌, Option, none, some, Text, codes, length, ltb, if◌then◌else◌,
}
use ojalvo_chat.Cjson.{Cjson}
use Kind.{MessageType, parse_message_type, message_type_to_string}

-- SERVER_BUFFER_SIZE of message_buffer.h
abbrev pub server_buffer_size : ℕ
server_buffer_size = 1024 * 1024

module _ ⦃C : Cjson⦄ where
  open C use {Json}

  -- A NULL field is `none`. `usernames` is the array with its first `usernames_count` strings.
  pub record Message : Type 0 where
    pub kind : MessageType
    pub username : Option Text
    pub operation : Option Text
    pub result : Option Text
    pub extra : Option Text
    pub status : Option Text
    pub users : Option Json
    pub text : Option Text
    pub roomname : Option Text
    pub usernames : Option (List Text)

  abbrev pub message_init : Message
  message_init = record {
    kind = MessageType.unknown;
    username = none;
    operation = none;
    result = none;
    extra = none;
    status = none;
    users = none;
    text = none;
    roomname = none;
    usernames = none;
  }

  string_of : Option Json → Option Text
  string_of none = none
  string_of (some item) = C.string_value item

  get_string_field : Json → Text → Option Text
  unfolding string_of
  get_string_field json field_name = string_of (C.get_object_item json field_name)

  -- The strings among the items; the others are passed over.
  string_items : List Json → List Text
  string_items [] = []
  string_items (item ∷ items) = elim (C.string_value item) [
    | none ↦ string_items items
    | some s ↦ s ∷ string_items items
  ]

  read_usernames : Option Json → Option (List Text)
  unfolding string_items
  read_usernames none = none
  read_usernames (some array) =
      if C.is_array array && ltb 0 (length (C.array_items array))
      then some (string_items (C.array_items array))
      else none

  kind_of : Json → MessageType
  kind_of item = elim (C.string_value item) [
    | none ↦ MessageType.unknown
    | some s ↦ parse_message_type (some s)
  ]

  read_message : Json → Json → Message
  unfolding kind_of get_string_field read_usernames
  read_message json type_item =
      let (users, rest) = C.detach_item json (codes "users") in
      record {
        kind = kind_of type_item;
        username = get_string_field json (codes "username");
        operation = get_string_field json (codes "operation");
        result = get_string_field json (codes "result");
        extra = get_string_field json (codes "extra");
        status = get_string_field json (codes "status");
        users = users;
        text = get_string_field json (codes "text");
        roomname = get_string_field json (codes "roomname");
        usernames = read_usernames (C.get_object_item rest (codes "usernames"));
      }

  -- `none` where the function returns false.
  unfoldable pub message_from_json : Text → Option Message
  unfolding read_message
  message_from_json json_raw = elim (C.parse json_raw) [
    | none ↦ none
    | some json ↦
        if C.is_object json
        then (elim (C.get_object_item json (codes "type")) [
          | none ↦ none
          | some type_item ↦ some (read_message json type_item)
        ])
        else none
  ]

  unfoldable pub add_string : Text → Option Text → Json → Json
  add_string key none json = json
  add_string key (some s) json = C.add_item_to_object json key (C.create_string s)

  unfoldable pub add_users : Option Json → Json → Json
  add_users none json = json
  add_users (some users) json = C.add_item_to_object json (codes "users") (C.duplicate users)

  abbrev pub string_array : Json → List Text → Json
  string_array array [] = array
  string_array array (s ∷ rest) = string_array (C.add_item_to_array array (C.create_string s)) rest

  unfoldable pub add_usernames : Option (List Text) → Json → Json
  add_usernames none json = json
  add_usernames (some []) json = json
  add_usernames (some (s ∷ rest)) json =
      C.add_item_to_object json (codes "usernames") (string_array C.create_array (s ∷ rest))

  -- The fields after the type.
  abbrev pub add_fields : Message → Json → Json
  add_fields msg json = add_usernames msg.usernames (
      add_users msg.users (
        add_string (codes "roomname") msg.roomname (
          add_string (codes "text") msg.text (
            add_string (codes "status") msg.status (
              add_string (codes "extra") msg.extra (
                add_string (codes "result") msg.result (
                  add_string (codes "operation") msg.operation
                    (add_string (codes "username") msg.username json))))))))

  unfoldable pub message_object : Message → Json
  unfolding add_string add_users add_usernames
  message_object msg =
      add_fields msg
        (add_string (codes "type") (some (message_type_to_string msg.kind)) C.create_object)

  -- The text written to `out_json`, or `none` where the function returns false.
  unfoldable pub message_to_json : Message → ℕ → Option Text
  unfolding message_object
  message_to_json msg out_json_size = elim (C.print (message_object msg)) [
    | none ↦ none
    | some printed ↦ if ltb out_json_size (length printed + 1) then none else some printed
  ]
