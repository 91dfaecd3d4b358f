-- ===== src/Message/Memory.antt =====
-- server/src/message.c with the memory that it allocates and frees: message_from_json and
-- message_destroy. A pointer is the address of a block with what is in it; blocks are not written
-- once they are filled.
pub mod Balance
pub mod Copying
pub mod Freed
pub mod Writing
use mathlib.Core.Option
use ojalvo_chat.Prelude.{
  ℕ, ◌+◌, ◌&&◌, Bool, true, false, List, [], ◌∷◌, Option, none, some, Text, codes, length, ltb,
  ◌==◌, if◌then◌else◌,
}
use ojalvo_chat.Cjson.{Cjson}
use ojalvo_chat.Message.{string_of, kind_of}
use ojalvo_chat.Message.Kind.{MessageType}
use ojalvo_chat.Server.Monad.{Action, done, fault, bad_free, pure, ◌>>=◌, ◌>>◌}

-- Whether the allocation of that number succeeds.
pub record Allocator : Type 0 where
  pub grants : ℕ → Bool

-- How many allocations there were, and the addresses of the blocks that are allocated now. The
-- address of a block is the number of its allocation.
pub record Heap : Type 0 where
  pub attempts : ℕ
  pub live : List ℕ

abbrev pub Allocating : Type 0 → Type 0
Allocating A = Action Heap A

-- A `char*` that is not NULL.
pub record StoredString : Type 0 where
  pub at : ℕ
  pub text : Text

-- The array `usernames`, of which `usernames_count` entries are filled.
pub record StoredNames : Type 0 where
  pub at : ℕ
  pub names : List (Option StoredString)

abbrev pub string_at : Option StoredString → Option ℕ
string_at o = Option.map (λ s. s.at) o

-- The list without one of the address.
unfoldable pub take_out : ℕ → List ℕ → Option (List ℕ)
take_out p [] = none
take_out p (q ∷ qs) =
    let rest = take_out p qs in if q == p then some qs else Option.map (λ l. q ∷ l) rest

unfoldable pub free : Option ℕ → Allocating (Unit {0})
free none h = done tt h
free (some p) h = elim (take_out p h.live) [
  | none ↦ fault bad_free h
  | some live ↦ done tt (record h { live = live })
]

unfoldable pub free_strings : List (Option StoredString) → Allocating (Unit {0})
free_strings [] = pure tt
free_strings (s ∷ ss) = do free (string_at s); free_strings ss

unfoldable pub free_names : Option StoredNames → Allocating (Unit {0})
free_names none = pure tt
free_names (some usernames) = do free_strings usernames.names; free (some usernames.at)

module _ ⦃A : Allocator⦄ where
  -- `malloc`
  unfoldable pub allocate : Allocating (Option ℕ)
  allocate h =
      if A.grants h.attempts
      then done (some h.attempts) (record { attempts = h.attempts + 1; live = h.attempts ∷ h.live })
      else done none (record h { attempts = h.attempts + 1 })

  unfoldable pub strdup : Text → Allocating (Option StoredString)
  strdup text = do block ← allocate; pure (Option.map (λ n. record { at = n; text = text }) block)

module _ ⦃C : Cjson⦄ where
  open C use {Json}

  -- A `cJSON*` that is not NULL: the blocks of a tree are one here, since they are freed together.
  pub record StoredJson : Type 0 where
    pub at : ℕ
    pub json : Json

  abbrev pub json_at : Option StoredJson → Option ℕ
  json_at o = Option.map (λ j. j.at) o

  pub record StoredMessage : Type 0 where
    pub kind : MessageType
    pub username : Option StoredString
    pub operation : Option StoredString
    pub result : Option StoredString
    pub extra : Option StoredString
    pub status : Option StoredString
    pub users : Option StoredJson
    pub text : Option StoredString
    pub roomname : Option StoredString
    pub usernames : Option StoredNames

  abbrev pub stored_message_init : StoredMessage
  stored_message_init = record {
    kind = MessageType.unknown;
    username = none;
    operation = none;
    result = none;
    extra = none;
    status = none;
    users = none;
    text = none;
    roomname = none;
    usernames = none;
  }

  unfoldable pub message_destroy : StoredMessage → Allocating StoredMessage
  message_destroy msg = do
    free (string_at msg.username)
    free (string_at msg.operation)
    free (string_at msg.result)
    free (string_at msg.extra)
    free (string_at msg.status)
    free (string_at msg.text)
    free (string_at msg.roomname)
    free (json_at msg.users)
    free_names msg.usernames
    pure stored_message_init

  -- cJSON_DetachItemFromObject: the item is a tree of its own then.
  unfoldable pub detach_users : StoredJson → Allocating (Option StoredJson × StoredJson)
  detach_users tree h =
      let (item, rest) = C.detach_item tree.json (codes "users") in
      elim item [
        | none ↦ done (none, record tree { json = rest }) h
        | some json ↦
            done (some (record { at = h.attempts; json = json }), record tree { json = rest })
              (record { attempts = h.attempts + 1; live = h.attempts ∷ h.live })
      ]

  module _ ⦃A : Allocator⦄ where
    unfoldable pub copy_string : Option Text → Allocating (Option StoredString)
    copy_string none = pure none
    copy_string (some text) = strdup text

    unfoldable pub string_field : StoredJson → Text → Allocating (Option StoredString)
    unfolding string_of
    string_field tree field_name = copy_string (string_of (C.get_object_item tree.json field_name))

    -- cJSON_Parse, which also gives NULL where there is no memory.
    unfoldable pub parse_tree : Text → Allocating (Option StoredJson)
    parse_tree json_raw = elim (C.parse json_raw) [
      | none ↦ pure none
      | some json ↦ do
        block ← allocate
        pure (Option.map (λ n. record { at = n; json = json }) block)
    ]

    -- The loop over the items of the array.
    unfoldable pub copy_items : List Json → Allocating (List (Option StoredString))
    copy_items [] = pure []
    copy_items (item ∷ items) = elim (C.string_value item) [
      | none ↦ copy_items items
      | some text ↦ do s ← strdup text; rest ← copy_items items; pure (s ∷ rest)
    ]

    unfoldable pub fill_names : Option ℕ → List Json → Allocating (Option StoredNames)
    fill_names none items = pure none
    fill_names (some n) items = do
      names ← copy_items items
      pure (some (record { at = n; names = names }))

    unfoldable pub copy_usernames : Option Json → Allocating (Option StoredNames)
    copy_usernames none = pure none
    copy_usernames (some array) =
        if C.is_array array && ltb 0 (length (C.array_items array))
        then (do block ← allocate; fill_names block (C.array_items array))
        else pure none

    -- What follows the test of the type.
    unfoldable pub copy_message : StoredJson → Json → Allocating StoredMessage
    unfolding kind_of
    copy_message tree type_item = do
      username ← string_field tree (codes "username")
      operation ← string_field tree (codes "operation")
      result ← string_field tree (codes "result")
      extra ← string_field tree (codes "extra")
      status ← string_field tree (codes "status")
      text ← string_field tree (codes "text")
      roomname ← string_field tree (codes "roomname")
      detached ← detach_users tree
      usernames ← copy_usernames (C.get_object_item detached.1.json (codes "usernames"))
      free (some detached.1.at)
      pure (record {
        kind = kind_of type_item;
        username = username;
        operation = operation;
        result = result;
        extra = extra;
        status = status;
        users = detached.0;
        text = text;
        roomname = roomname;
        usernames = usernames;
      })

    -- What follows the call of cJSON_Parse: the result, and what `out_msg` is left as.
    unfoldable pub read_tree : Option StoredJson → Allocating (Bool × StoredMessage)
    read_tree none = pure (false, stored_message_init)
    read_tree (some tree) =
        if C.is_object tree.json
        then (elim (C.get_object_item tree.json (codes "type")) [
          | none ↦ pure (false, stored_message_init)
          | some type_item ↦ do msg ← copy_message tree type_item; pure (true, msg)
        ])
        else pure (false, stored_message_init)

    unfoldable pub message_from_json_into : Text → Allocating (Bool × StoredMessage)
    message_from_json_into json_raw = do parsed ← parse_tree json_raw; read_tree parsed
