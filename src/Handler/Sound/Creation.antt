-- ===== src/Handler/Sound/Creation.antt =====
-- The handler of message_handler.c for new rooms keeps the invariant, and so does what the room
-- requests share.
use ojalvo_chat.Prelude.{
  ℕ, ◌≡◌, refl, Bool, false, List, [], ◌∷◌, Option, none, some, Text, All, Option-cases, Bool-cases,
  inl, inr,
}
use ojalvo_chat.Glib.{Glib}
use ojalvo_chat.Cjson.{Cjson}
use ojalvo_chat.User.{User}
use ojalvo_chat.UsersTable.{UsersTable, users_table_find_by_username, users_table_find_by_client_fd}
use ojalvo_chat.Room.{Room}
use ojalvo_chat.RoomTable.{room_table_add, room_table_contains}
use ojalvo_chat.Message.{Message}
use ojalvo_chat.Server.{Server, Handler, room_table_with}
use ojalvo_chat.Server.Monad.{continue, done, ◌>>=◌, Fault, Network, pure}
use ojalvo_chat.Server.Ends.{Ends, returns, Ends-bind, Ends-mono}
use ojalvo_chat.Server.Synced.{IsSound, add-IsSynced}
use ojalvo_chat.Server.Invariant.{IsGood, write-Inv, room_table_add-Inv, own_name}
use ojalvo_chat.Handler.Rooms.{
  Invited, missing, found, add_found, room_add_creator, find_invited, search_invited, create_room,
  process_new_room, no_such_room, in_room,
}
use ojalvo_chat.Handler.Effects.{
  send_invalid_and_disconnect-Ends, send_or_disconnect-Ends, room_table_with-Ends,
}
use ojalvo_chat.Handler.Sound.Chat.{Sound}

module _ ⦃G : Glib⦄ where
  pub open_rooms : (s : Server) → IsGood s → IsGood (record s { rooms_locked = false })
  open_rooms s g = record { inv = g.inv; unlocked = refl }

  abbrev pub Registered : UsersTable → User → Type 0
  Registered t u = users_table_find_by_username t u.username ≡ some u

  abbrev pub AllRegistered : UsersTable → Invited → Type 0
  AllRegistered t (missing n) = Unit {0}
  AllRegistered t (found us) = All (Registered t) us

  pub add_found-AllRegistered :
      (t : UsersTable) (u : User) (i : Invited)
      → Registered t u
      → AllRegistered t i
      → AllRegistered t (add_found u i)
  add_found-AllRegistered t u (missing n) r h = tt
  add_found-AllRegistered t u (found us) r h = (r, h)

  -- The users that are found for an invitation are registered.
  pub find_invited-Registered :
      (t : UsersTable) (names : List Text) → IsSound t → AllRegistered t (find_invited t names)
  unfolding find_invited
  find_invited-Registered t [] h = tt
  find_invited-Registered t (n ∷ names) h = elim (Option-cases (users_table_find_by_username t n)) [
    | inl e ↦ rw (e, find_invited) tt
    | inr (u, e) ↦
        rw (e, find_invited)
          (add_found-AllRegistered t u _ ((h.consistent.fds _ u (h.consistent.names n u e).1).1)
            (find_invited-Registered t names h))
  ]

module _ ⦃G : Glib⦄ ⦃C : Cjson⦄ ⦃N : Network⦄ where
  -- With nothing of another thread between the searches, they see one table.
  search_invited-find :
      (names : List Text) (s : Server)
      → search_invited names s ≡ done (find_invited s.users names) s
  unfolding search_invited find_invited continue
  search_invited-find [] s = refl
  search_invited-find (n ∷ names) s =
      one (users_table_find_by_username s.users n) (search_invited-find names s)
    where
      one :
          (o : Option User)
          → search_invited names s ≡ done (find_invited s.users names) s
          → (elim o as (λ _. Handler Invited) [
            | none ↦ pure (missing n)
            | some u ↦ search_invited names >>= λ rest. pure (add_found u rest)
          ])
              s
            ≡ done
                (elim o [ none ↦ missing n | some u ↦ add_found u (find_invited s.users names) ])
                s
      one none h = refl
      one (some u) h = rw h refl

  pub search_invited-Ends :
      (F : Fault → Type 0) {Q : Invited → Server → Type 0} (names : List Text) (s : Server)
      → Q (find_invited s.users names) s
      → Ends F Q (search_invited names s)
  search_invited-Ends F names s q = rw (search_invited-find names s) (returns q)

module _ ⦃G : Glib⦄ ⦃C : Cjson⦄ ⦃N : Network⦄ (F : Fault → Type 0) where
  -- A look at a room changes nothing.
  pub look-Ends :
      {A : Type 0} (Q : Option A → Server → Type 0) (name : Text) (look : Room → A) (s : Server)
      → IsGood s
      → ((o : Option A) → Q o (record s { rooms_locked = false }))
      → Ends F Q (room_table_with name (λ n room. pure (look room)) s)
  look-Ends Q name look s g h =
      room_table_with-Ends F Q name _ s g.unlocked (h none)
        (λ room e. returns (h (some (look room))))

  pub add_creator-Sound :
      (u : User) (name : Text) (s : Server)
      → IsGood s
      → Registered s.users u
      → Sound F (room_table_with name (room_add_creator u) s)
  unfolding room_add_creator
  add_creator-Sound u name s g e =
      room_table_with-Ends F _ name _ s g.unlocked (open_rooms s g) λ room f. returns (record {
        inv =
            write-Inv s.users s.rooms name _
              (record {
                members =
                    add-IsSynced s.users room.members u g.inv.users
                      (g.inv.rooms name room f).members e;
                guests = (g.inv.rooms name room f).guests;
              })
              g.inv;
        unlocked = refl;
      })

  pub create_room-Sound : (n : Text) (fd : ℕ) (s : Server) → IsGood s → Sound F (create_room n fd s)
  unfolding create_room
  create_room-Sound n fd s g = elim (Bool-cases (room_table_add s.rooms n).1) [
    | inr e ↦ Ends-bind (returns (Ends-bind (returns (rw e (returns k)))))
    | inl e ↦ elim (Option-cases (users_table_find_by_client_fd s.users fd)) [
      | inl f ↦
          Ends-bind (returns (Ends-bind (returns (rw e (Ends-bind (returns (rw f (returns k))))))))
      | inr (u, f) ↦ Ends-bind (
          returns (
            Ends-bind (
              returns (
                rw e (
                  Ends-bind (
                    returns (
                      rw f (
                        Ends-bind (
                          Ends-mono (λ o t l. send_or_disconnect-Ends F fd _ fd t l)
                            (add_creator-Sound u n _ k (own_name s fd u g f)))))))))))
    ]
  ]
    where
      k : IsGood (record s { rooms = (room_table_add s.rooms n).0 })
      k = record { inv = room_table_add-Inv s.users s.rooms n g.inv; unlocked = g.unlocked }

  pub process_new_room-Sound :
      (m : Message) (fd : ℕ) (s : Server) → IsGood s → Sound F (process_new_room m fd s)
  unfolding process_new_room
  process_new_room-Sound m fd s g = elim (Option-cases m.roomname) [
    | inl e ↦ rw e (returns g)
    | inr (n, e) ↦ elim (Bool-cases (room_table_contains s.rooms n)) [
      | inl f ↦ rw e (Ends-bind (returns (rw f (send_or_disconnect-Ends F fd _ fd s g))))
      | inr f ↦ rw e (Ends-bind (returns (rw f (create_room-Sound _ fd s g))))
    ]
  ]

  pub no_such_room-Sound :
      (op name : Text) (fd : ℕ) (s : Server) → IsGood s → Sound F (no_such_room op name fd s)
  unfolding no_such_room
  no_such_room-Sound op name fd s g = send_or_disconnect-Ends F fd _ fd s g

  -- What a room request does once the room exists and the client is identified.
  pub in_room-Sound :
      (op name : Text) (fd : ℕ) (act : User → Handler Bool) (s : Server)
      → IsGood s
      → ((u : User) → Registered s.users u → Sound F (act u s))
      → Sound F (in_room op name fd act s)
  unfolding in_room
  in_room-Sound op name fd act s g h = elim (Bool-cases (room_table_contains s.rooms name)) [
    | inr e ↦ Ends-bind (returns (rw e (no_such_room-Sound op name fd s g)))
    | inl e ↦ elim (Option-cases (users_table_find_by_client_fd s.users fd)) [
      | inl f ↦
          Ends-bind (
            returns (rw e (Ends-bind (returns (rw f (send_invalid_and_disconnect-Ends F fd s g))))))
      | inr (u, f) ↦
          Ends-bind (returns (rw e (Ends-bind (returns (rw f (h u (own_name s fd u g f)))))))
    ]
  ]
