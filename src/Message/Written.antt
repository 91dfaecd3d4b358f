-- ===== src/Message/Written.antt =====
-- What cJSON finds in the object that a message is written as.
use mathlib.Core.Option
use ojalvo_chat.Prelude.{
  ◌≡◌, refl, ◌∙◌, ap, true, List, [], ◌∷◌, All, Option, none, some, Text, codes, str_eq,
  if◌then◌else◌, arith,
}
use ojalvo_chat.Cjson.{Cjson}
use ojalvo_chat.Cjson.Laws.{CjsonLaws, IsCString, IsBuilt, created, extended, or_else}
use ojalvo_chat.Message.{
  Message, add_string, add_users, string_array, add_usernames, message_object,
}
use ojalvo_chat.Message.Kind.{MessageType, message_type_to_string}

abbrev pub OptionalCString : Option Text → Type 0
OptionalCString none = Unit {0}
OptionalCString (some t) = IsCString t

abbrev pub OptionalCStrings : Option (List Text) → Type 0
OptionalCStrings none = Unit {0}
OptionalCStrings (some ts) = All IsCString ts

pub or_else-none {ℓ} : {A : Type ℓ} (x : Option A) → or_else x none ≡ x
or_else-none none = refl
or_else-none (some x) = refl

module _ ⦃C : Cjson⦄ ⦃L : CjsonLaws⦄ where
  open C use {Json}

  abbrev pub OptionalPlain : Option Json → Type 0
  OptionalPlain none = Unit {0}
  OptionalPlain (some j) = L.Plain 1 j

  -- The strings of the message are C strings, and `users` is an object of strings.
  pub record IsText (m : Message) : Type 0 where
    pub username : OptionalCString m.username
    pub operation : OptionalCString m.operation
    pub result : OptionalCString m.result
    pub extra : OptionalCString m.extra
    pub status : OptionalCString m.status
    pub text : OptionalCString m.text
    pub roomname : OptionalCString m.roomname
    pub users : OptionalPlain m.users
    pub usernames : OptionalCStrings m.usernames

  -- An empty list of names is not written.
  abbrev pub some_names : Option (List Text) → Option (List Text)
  some_names (some []) = none
  some_names o = o

  -- What is found under a name, of one field.
  abbrev pub field : Text → Option Json → Text → Option Json
  field key o n = if str_eq key n then o else none

  abbrev pub strings : Option Text → Option Json
  strings o = Option.map C.create_string o

  abbrev pub names_array : Option (List Text) → Option Json
  names_array none = none
  names_array (some []) = none
  names_array (some (s ∷ rest)) = some (string_array C.create_array (s ∷ rest))

  -- An object of named items, and what is found in it under each name.
  abbrev pub Holds : Json → (Text → Option Json) → Type 1
  Holds j f = IsBuilt j × ((n : Text) → C.get_object_item j n ≡ f n)

  Holds-add :
      (j : Json) (f : Text → Option Json) (key : Text) (v : Json)
      → Holds j f
      → Holds (C.add_item_to_object j key v) (λ n. or_else (f n) (field key (some v) n))
  Holds-add j f key v (b, g) = (
    extended key v b,
    λ n. L.get-add j key v n b ∙ ap (λ o. or_else o (field key (some v) n)) (g n),
  )

  Holds-skip :
      (j : Json) (f : Text → Option Json) (key : Text)
      → Holds j f
      → Holds j (λ n. or_else (f n) (field key none n))
  Holds-skip j f key (b, g) = (b, λ n. g n ∙ ground (arith, or_else-none (f n)))

  add_string-Holds :
      (key : Text) (o : Option Text) (j : Json) (f : Text → Option Json)
      → Holds j f
      → Holds (add_string key o j) (λ n. or_else (f n) (field key (strings o) n))
  unfolding add_string
  add_string-Holds key none j f h = Holds-skip j f key h
  add_string-Holds key (some s) j f h = Holds-add j f key (C.create_string s) h

  add_users-Holds :
      (o : Option Json) (j : Json) (f : Text → Option Json)
      → Holds j f
      → Holds (add_users o j) (λ n. or_else (f n) (field (codes "users") o n))
  unfolding add_users
  add_users-Holds none j f h = Holds-skip j f (codes "users") h
  add_users-Holds (some u) j f h =
      rw (L.duplicate_same u, add_users) (Holds-add j f (codes "users") u h)

  add_usernames-Holds :
      (o : Option (List Text)) (j : Json) (f : Text → Option Json)
      → Holds j f
      → Holds (add_usernames o j) (λ n. or_else (f n) (field (codes "usernames") (names_array o) n))
  unfolding add_usernames
  add_usernames-Holds none j f h = Holds-skip j f (codes "usernames") h
  add_usernames-Holds (some []) j f h = Holds-skip j f (codes "usernames") h
  add_usernames-Holds (some (s ∷ rest)) j f h = Holds-add j f (codes "usernames") _ h

  -- What is found under a name in the object of a message.
  abbrev pub fields : Message → Text → Option Json
  fields m n =
      or_else
        (or_else
          (or_else
            (or_else
              (or_else
                (or_else
                  (or_else
                    (or_else
                      (or_else
                        (or_else none (
                          field (codes "type")
                            (some (C.create_string (message_type_to_string m.kind))) n))
                        (field (codes "username") (strings m.username) n))
                      (field (codes "operation") (strings m.operation) n))
                    (field (codes "result") (strings m.result) n))
                  (field (codes "extra") (strings m.extra) n))
                (field (codes "status") (strings m.status) n))
              (field (codes "text") (strings m.text) n))
            (field (codes "roomname") (strings m.roomname) n))
          (field (codes "users") m.users n))
        (field (codes "usernames") (names_array m.usernames) n)

  pub message_object-Holds : (m : Message) → Holds (message_object m) (fields m)
  unfolding message_object
  message_object-Holds m = add_usernames-Holds m.usernames _ _ (
      add_users-Holds m.users _ _ (
        add_string-Holds (codes "roomname") m.roomname _ _ (
          add_string-Holds (codes "text") m.text _ _ (
            add_string-Holds (codes "status") m.status _ _ (
              add_string-Holds (codes "extra") m.extra _ _ (
                add_string-Holds (codes "result") m.result _ _ (
                  add_string-Holds (codes "operation") m.operation _ _ (
                    add_string-Holds (codes "username") m.username _ _ (
                      add_string-Holds (codes "type") (some (message_type_to_string m.kind)) _
                        (λ n. none) (created, L.get-create_object))))))))))

  pub get-message_object :
      (m : Message) (n : Text) → C.get_object_item (message_object m) n ≡ fields m n
  get-message_object m n = (message_object-Holds m).1 n

  pub is_object-message_object : (m : Message) → C.is_object (message_object m) ≡ true
  is_object-message_object m = L.is_object-built (message_object m) (message_object-Holds m).0

  pub string_array-Plain :
      (a : Json) (ts : List Text) → L.Plain 1 a → All IsCString ts → L.Plain 1 (string_array a ts)
  string_array-Plain a [] p h = p
  string_array-Plain a (t ∷ ts) p (h, hs) =
      string_array-Plain (C.add_item_to_array a (C.create_string t)) ts
        (L.add_item_to_array-Plain 0 a _ p (L.create_string-Plain 0 t h)) hs

  pub add_string-Plain :
      (key : Text) (o : Option Text) (j : Json)
      → IsCString key
      → OptionalCString o
      → L.Plain 2 j
      → L.Plain 2 (add_string key o j)
  unfolding add_string
  add_string-Plain key none j k h p = p
  add_string-Plain key (some t) j k h p =
      L.add_item_to_object-Plain 1 j key _ k p (L.create_string-Plain 1 t h)

  pub add_users-Plain :
      (o : Option Json) (j : Json) → OptionalPlain o → L.Plain 2 j → L.Plain 2 (add_users o j)
  unfolding add_users
  add_users-Plain none j h p = p
  add_users-Plain (some u) j h p =
      L.add_item_to_object-Plain 1 j (codes "users") _ (omega arith) p (rw (L.duplicate_same u) h)

  pub add_usernames-Plain :
      (o : Option (List Text)) (j : Json)
      → OptionalCStrings o
      → L.Plain 2 j
      → L.Plain 2 (add_usernames o j)
  unfolding add_usernames
  add_usernames-Plain none j h p = p
  add_usernames-Plain (some []) j h p = p
  add_usernames-Plain (some (t ∷ ts)) j h p =
      L.add_item_to_object-Plain 1 j (codes "usernames") _ (omega arith) p
        (string_array-Plain C.create_array (t ∷ ts) (L.create_array-Plain 0) h)

  pub kind_names : (k : MessageType) → IsCString (message_type_to_string k)
  unfolding message_type_to_string
  kind_names MessageType.identify = omega arith
  kind_names _ = omega arith

  pub message_object-Plain : (m : Message) → IsText m → L.Plain 2 (message_object m)
  unfolding message_object
  message_object-Plain m h = add_usernames-Plain m.usernames _ h.usernames (
      add_users-Plain m.users _ h.users (
        add_string-Plain (codes "roomname") m.roomname _ (omega arith) h.roomname (
          add_string-Plain (codes "text") m.text _ (omega arith) h.text (
            add_string-Plain (codes "status") m.status _ (omega arith) h.status (
              add_string-Plain (codes "extra") m.extra _ (omega arith) h.extra (
                add_string-Plain (codes "result") m.result _ (omega arith) h.result (
                  add_string-Plain (codes "operation") m.operation _ (omega arith) h.operation (
                    add_string-Plain (codes "username") m.username _ (omega arith) h.username (
                      add_string-Plain (codes "type") (some (message_type_to_string m.kind)) _
                        (omega arith) (kind_names m.kind) (L.create_object-Plain 1))))))))))
