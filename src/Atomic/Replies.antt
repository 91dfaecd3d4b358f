-- ===== src/Atomic/Replies.antt =====
-- What server/src/server.c sends where the parts of the threads' work take turns.
use ojalvo_chat.Prelude.{
  ◌≡◌, refl, ◌⊎◌, ◌≤◌, ◌<◌, ◌+◌, ◌-◌, ◌++◌, Option-cases, ℕ, true, [], ◌∷◌, All, some, Text, length,
  ltb, take, length-append, length-take, Bool-cases, inl, inr, arith,
}
use ojalvo_chat.Glib.{Glib}
use ojalvo_chat.Cjson.{Cjson}
use ojalvo_chat.Message.{Message, message_object, message_to_json, server_buffer_size}
use ojalvo_chat.Server.{Server, with_newline}
use ojalvo_chat.Server.Monad.{Network, Event, sent, closed}
use ojalvo_chat.Atomic.{
  Atomic, Atomics, rest, step, change_users, add_room, remove_room, change_room, change_rooms,
  lock_rooms, unlock_rooms, send_reply, close_fd, is_reply,
}
use ojalvo_chat.Atomic.Pool.{Pool, Turns, Turns-IsOrderly}

module _ ⦃G : Glib⦄ ⦃C : Cjson⦄ ⦃N : Network⦄ where
  -- The JSON and a newline; or, where the JSON with its zero byte fills the buffer, the JSON with a
  -- newline in the place of its last byte.
  abbrev pub IsLine : Text → Text → Type 0
  IsLine json line =
      (line ≡ json ++ 10 ∷ [])
      ⊎ ((length json + 1 ≡ server_buffer_size)
          × (line ≡ take (server_buffer_size - 2) json ++ 10 ∷ []))

  -- A line of a message that the server sends, with the fields of its kind, that a buffer of the same
  -- size holds with a zero byte.
  abbrev pub IsReply : Event → Type 0
  IsReply (sent fd line ok) =
      (m : Message) × (json : Text) × (is_reply m ≡ true)
      × (message_to_json m server_buffer_size ≡ some json)
      × IsLine json line
      × (length line < server_buffer_size)
  IsReply (closed fd) = Unit {0}

  message_to_json-fits :
      (m : Message) (size : ℕ) (json : Text)
      → message_to_json m size ≡ some json
      → length json + 1 ≤ size
  unfolding message_to_json
  message_to_json-fits m size json h = elim (Option-cases (C.print (message_object m))) [
    | inl e ↦ cc (rw (e, message_to_json) at h)
    | inr (p, e) ↦ ground (arith, e, h)
  ]

  with_newline-IsLine :
      (json : Text)
      → length json + 1 ≤ server_buffer_size
      → IsLine json (with_newline json) × (length (with_newline json) < server_buffer_size)
  with_newline-IsLine json h = elim (Bool-cases (ltb (length json + 1) server_buffer_size)) [
    | inl e ↦ rw e (inl refl, ground (arith, e, length-append json (10 ∷ [])))
    | inr e ↦ rw e (
      inr (ground (arith, e, h), refl),
      omega (
        arith,
        length-append (take (server_buffer_size - 2) json) (10 ∷ []),
        length-take (server_buffer_size - 2) json,
      ),
    )
  ]

  Atomic-AreReplies : {s t : Server} → Atomic s t → All IsReply s.trace → All IsReply t.trace
  Atomic-AreReplies (change_users o) h = h
  Atomic-AreReplies (add_room name) h = h
  Atomic-AreReplies (remove_room name) h = h
  Atomic-AreReplies (change_room name e c) h = h
  Atomic-AreReplies (change_rooms f c) h = h
  Atomic-AreReplies lock_rooms h = h
  Atomic-AreReplies unlock_rooms h = h
  Atomic-AreReplies (send_reply fd m json ok r e) h =
      let (line, short) =
        with_newline-IsLine json (message_to_json-fits m server_buffer_size json e) in
      ((m, json, r, e, line, short), h)
  Atomic-AreReplies (close_fd fd) h = (tt, h)

  Atomics-AreReplies : {s t : Server} → Atomics s t → All IsReply s.trace → All IsReply t.trace
  Atomics-AreReplies rest h = h
  Atomics-AreReplies (step k a) h = Atomic-AreReplies a (Atomics-AreReplies k h)

  -- Whatever clients connect and send, in whatever order the parts of their threads' work get their
  -- turns, and also where threads stop at faults, each line that was given to send is made of the
  -- JSON of a message of a kind that the server sends, with the fields of that kind, and is shorter
  -- than SERVER_BUFFER_SIZE: it is the JSON and a newline, or, where the JSON with its zero byte
  -- fills the buffer, the JSON with a newline in the place of its last byte.
  pub Turns-AreReplies : (p : Pool) → Turns p → All IsReply p.server.trace
  Turns-AreReplies p h = Atomics-AreReplies (Turns-IsOrderly h).reached tt
