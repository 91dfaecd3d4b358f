-- ===== src/Tests/Large.antt =====
-- A text that fills the buffer of a line, and a message with it, which does not fit.
use ojalvo_chat.Prelude.{
  ℕ, zero, suc, ◌+◌, ◌≤◌, ◌≡◌, refl, List, [], ◌∷◌, none, Text, codes, length, ltb, true, ◌<◌,
  arith,
}
use ojalvo_chat.User.{User}
use ojalvo_chat.Message.{
  Message, message_to_json, message_object, add_string, add_users, add_usernames,
  server_buffer_size,
}
use ojalvo_chat.Message.Kind.{message_type_to_string}
use ojalvo_chat.Handler.Receivers.{public_text_from}
use ojalvo_chat.Tests.Json.{
  Json, string, object, array, member, item, put_text, put, render, cjson_calls,
}

-- A text of so many letters.
pub letters : (n : ℕ) → (t : Text) × (n ≤ length t)
letters zero = ([], omega arith)
letters (suc n) = let (t, h) = letters n in (97 ∷ t, omega (arith, h))

length-put_text :
    (t : Text) (rest : List ℕ) → length (put_text t rest) ≡ length t + (1 + length rest)
length-put_text [] rest = omega arith
length-put_text (b ∷ t) rest = omega (arith, length-put_text t rest)

length-put : (j : Json) (rest : List ℕ) → length rest ≤ length (put j rest)
length-put (string t) rest = omega (arith, length-put_text t rest)
length-put object rest = omega arith
length-put array rest = omega arith
length-put (member j key value) rest = omega (
  arith,
  length-put j (put_text key (put value rest)),
  length-put_text key (put value rest),
  length-put value rest,
)
length-put (item j value) rest = omega (arith, length-put j (put value rest), length-put value rest)

longer :
    (user : User) (text : Text)
    → length text ≤ length (render (message_object (public_text_from user text)))
unfolding message_object add_string add_users add_usernames
longer user text = omega (
  arith,
  length-put j (put_text (codes "text") (put (string text) [])),
  length-put_text (codes "text") (put (string text) []),
  length-put_text text [],
)
  where
    j : Json
    j =
        member
          (member object (codes "type")
            (string (message_type_to_string (public_text_from user text).kind)))
          (codes "username") (string user.username)

abbrev pub long_text : Text
long_text = (letters server_buffer_size).0

ltb_below : (m n : ℕ) → m < n → ltb m n ≡ true
ltb_below m n h = ground (arith, h)

too_long :
    (m : Message) (n k : ℕ)
    → n ≤ k
    → k ≤ length (render (message_object m))
    → message_to_json m n ≡ none
unfolding message_to_json
too_long m n k g h = rw (ltb_below n (length (render (message_object m)) + 1) (omega arith)) refl

pub long_text-large :
    (user : User) → message_to_json (public_text_from user long_text) server_buffer_size ≡ none
long_text-large user =
    too_long _ server_buffer_size (length long_text) (letters server_buffer_size).1
      (longer user long_text)
