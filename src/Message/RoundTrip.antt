-- ===== src/Message/RoundTrip.antt =====
-- A message that is written as JSON reads back.
use mathlib.Core.List.{map, append_assoc, append-nil}
use ojalvo_chat.Prelude.{
  ℕ, ◌≡◌, refl, ap, sym, ◌∙◌, true, false, List, [], ◌∷◌, ◌++◌, Option, none, some, Text, codes,
  str_eq, str_eq_iff, false, arith, Bool-cases, Option-cases, inl, inr,
}
use ojalvo_chat.Cjson.{Cjson}
use ojalvo_chat.Cjson.Laws.{CjsonLaws, same_ignoring_case}
use ojalvo_chat.Message.{
  Message, string_of, get_string_field, string_items, read_usernames, kind_of, read_message,
  message_from_json, string_array, message_object, message_to_json,
}
use ojalvo_chat.Message.Kind.{MessageType, message_type_to_string, parse-message_type_to_string}
use ojalvo_chat.Message.Written.{
  or_else-none, IsText, some_names, strings, names_array, is_object-message_object, fields,
  message_object-Holds, get-message_object, message_object-Plain,
}

module _ ⦃C : Cjson⦄ ⦃L : CjsonLaws⦄ where
  open C use {Json}

  string_of-strings : (o : Option Text) → string_of (strings o) ≡ o
  unfolding string_of
  string_of-strings none = refl
  string_of-strings (some t) = L.string_value-create_string t

  -- A string field reads back.
  read_string :
      (m : Message) (n : Text) (o : Option Text)
      → fields m n ≡ strings o
      → get_string_field (message_object m) n ≡ o
  unfolding get_string_field
  read_string m n o e = ap string_of (get-message_object m n ∙ e) ∙ string_of-strings o

  string_items-map : (ts : List Text) → string_items (map C.create_string ts) ≡ ts
  unfolding string_items
  string_items-map [] = refl
  string_items-map (t ∷ ts) =
      rw (L.string_value-create_string t, string_items) (ap (λ r. t ∷ r) (string_items-map ts))

  array_items-string_array :
      (a : Json) (ts : List Text)
      → C.array_items (string_array a ts) ≡ C.array_items a ++ map C.create_string ts
  array_items-string_array a [] = sym (append-nil (C.array_items a))
  array_items-string_array a (t ∷ ts) =
      array_items-string_array (C.add_item_to_array a (C.create_string t)) ts
      ∙ simp (L.array_items-add, append_assoc)

  is_array-string_array :
      (a : Json) (ts : List Text) → C.is_array (string_array a ts) ≡ C.is_array a
  is_array-string_array a [] = refl
  is_array-string_array a (t ∷ ts) =
      is_array-string_array (C.add_item_to_array a (C.create_string t)) ts
      ∙ L.is_array-add a (C.create_string t)

  read_usernames-names_array :
      (o : Option (List Text)) → read_usernames (names_array o) ≡ some_names o
  unfolding read_usernames
  read_usernames-names_array none = refl
  read_usernames-names_array (some []) = refl
  read_usernames-names_array (some (t ∷ ts)) =
      let items : C.array_items (string_array C.create_array (t ∷ ts))
          ≡ map C.create_string (t ∷ ts) =
        array_items-string_array C.create_array (t ∷ ts)
        ∙ ap (λ l. l ++ map C.create_string (t ∷ ts)) L.array_items-create_array in
      let is : C.is_array (string_array C.create_array (t ∷ ts)) ≡ true =
        is_array-string_array C.create_array (t ∷ ts) ∙ L.is_array-create_array in
      rw (is, items) (ground (arith, string_items-map (t ∷ ts)))

  fields_of :
      (m : Message)
      → (fields m (codes "username") ≡ strings m.username)
        × (fields m (codes "operation") ≡ strings m.operation)
        × (fields m (codes "result") ≡ strings m.result)
        × (fields m (codes "extra") ≡ strings m.extra)
        × (fields m (codes "status") ≡ strings m.status)
        × (fields m (codes "text") ≡ strings m.text)
        × (fields m (codes "roomname") ≡ strings m.roomname)
        × (fields m (codes "users") ≡ m.users)
        × (fields m (codes "usernames") ≡ names_array m.usernames)
  unfolding str_eq
  fields_of m = (
    simp or_else-none,
    simp or_else-none,
    simp or_else-none,
    simp or_else-none,
    simp or_else-none,
    simp or_else-none,
    simp or_else-none,
    simp or_else-none,
    refl,
  )

  printed_whole :
      (m : Message) (size : ℕ) (t : Text)
      → message_to_json m size ≡ some t
      → C.print (message_object m) ≡ some t
  unfolding message_to_json
  printed_whole m size t h = elim (Option-cases (C.print (message_object m))) [
    | inl e ↦ cc (rw (e, message_to_json) at h)
    | inr (p, e) ↦ ground (arith, e, h)
  ]

  read_type :
      (m : Message)
      → C.get_object_item (message_object m) (codes "type")
        ≡ some (C.create_string (message_type_to_string m.kind))
  unfolding str_eq
  read_type m = get-message_object m (codes "type") ∙ simp or_else-none

  read_kind : (k : MessageType) → kind_of (C.create_string (message_type_to_string k)) ≡ k
  unfolding kind_of
  read_kind k =
      rw (L.string_value-create_string (message_type_to_string k), kind_of)
        (parse-message_type_to_string k)

  -- A message with an empty list of names comes back with none.
  abbrev pub as_written : Message → Message
  as_written m = record m { usernames = some_names m.usernames }

  users_usernames : same_ignoring_case (codes "users") (codes "usernames") ≡ false
  unfolding str_eq
  users_usernames = refl

  -- A name that differs from `users` in case only is none of the other names.
  other_name :
      (key n : Text)
      → same_ignoring_case (codes "users") key ≡ false
      → same_ignoring_case (codes "users") n ≡ true
      → str_eq key n ≡ false
  other_name key n e h = elim (Bool-cases (str_eq key n)) [
    | inl y ↦ let same : key ≡ n = (str_eq_iff key n).0 y in absurd cc
    | inr y ↦ y
  ]

  -- No item of a message has a name that differs from `users` in case only.
  no_other_case :
      (m : Message) (n : Text)
      → same_ignoring_case (codes "users") n ≡ true
      → str_eq (codes "users") n ≡ false
      → C.get_object_item (message_object m) n ≡ none
  unfolding str_eq
  no_other_case m n e h =
      get-message_object m n
      ∙ rw
          (
            h,
            other_name (codes "type") n refl e,
            other_name (codes "username") n refl e,
            other_name (codes "operation") n refl e,
            other_name (codes "result") n refl e,
            other_name (codes "extra") n refl e,
            other_name (codes "status") n refl e,
            other_name (codes "text") n refl e,
            other_name (codes "roomname") n refl e,
            other_name (codes "usernames") n refl e,
          )
          refl

  read_message_lem :
      (m : Message)
      → read_message (message_object m) (C.create_string (message_type_to_string m.kind))
        ≡ as_written m
  unfolding read_message
  read_message_lem m =
      let (username, operation, result, extra, status, text, roomname, users, usernames) =
        fields_of m in
      rw
        (
          read_kind m.kind,
          read_string m (codes "username") m.username username,
          read_string m (codes "operation") m.operation operation,
          read_string m (codes "result") m.result result,
          read_string m (codes "extra") m.extra extra,
          read_string m (codes "status") m.status status,
          read_string m (codes "text") m.text text,
          read_string m (codes "roomname") m.roomname roomname,
          L.detach-item (message_object m) (codes "users") (message_object-Holds m).0
                (no_other_case m)
              ∙ get-message_object m (codes "users")
              ∙ users,
          ap read_usernames (
                L.detach-rest (message_object m) (codes "users") (codes "usernames")
                  (message_object-Holds m).0 users_usernames
                ∙ get-message_object m (codes "usernames")
                ∙ usernames)
              ∙ read_usernames-names_array m.usernames,
        )
        refl

  -- A message whose strings have no zero byte, and whose users are an object of strings, reads back
  -- from the JSON that message_to_json writes for it, with an empty list of names read as none,
  -- under the documented laws of cJSON, of which one is that it reads what it prints.
  pub message_from_json-to_json :
      (m : Message) (size : ℕ) (t : Text)
      → IsText m
      → message_to_json m size ≡ some t
      → message_from_json t ≡ some (as_written m)
  unfolding message_from_json
  message_from_json-to_json m size t h e =
      rw
        (
          L.parse-print 2 (message_object m) t (omega arith) (message_object-Plain m h)
              (printed_whole m size t e),
          is_object-message_object m,
          read_type m,
          message_from_json,
        )
        (ap some (read_message_lem m))
