-- ===== src/Atomic/Intact.antt =====
-- The tables of users, the server's and those of the rooms, where the parts of the work of
-- server/src/client_handler.c's threads take turns.
use ojalvo_chat.Prelude.{
  ℕ, ◌≡◌, refl, sym, ◌∙◌, Bool, true, false, List, Option, none, some, Text, str_eq, if◌then◌else◌,
  Bool-cases, inl, inr, arith,
}
use mathlib.Core.Option
use mathlib.Core.Path.{subst}
use ojalvo_chat.Glib.{Glib}
use ojalvo_chat.Cjson.{Cjson}
use ojalvo_chat.User.{User}
use ojalvo_chat.UsersTable.{users_table_iter, users_table_destroy}
use ojalvo_chat.UsersTable.Listing.{EachOnce, users_table_iter-find}
use ojalvo_chat.UsersTable.Invariant.{IsValid, users_table_init-IsValid}
use ojalvo_chat.UsersTable.Freeing.{users_table_destroy-none}
use ojalvo_chat.UsersTable.Shared.{perform-IsValid}
use ojalvo_chat.Room.{Room}
use ojalvo_chat.RoomTable.{
  RoomTable, room_table_find, room_table_add, room_table_remove, room_table_write,
  room_table_for_each, room_table_destroy,
}
use ojalvo_chat.RoomTable.Freeing.{AreEmpty, room_table_destroy-none}
use ojalvo_chat.RoomTable.Visits.{find-add, find-write, find-remove, find-for_each, new_room}
use ojalvo_chat.Server.{Server, initial_server}
use ojalvo_chat.Server.Monad.{Network}
use ojalvo_chat.Atomic.{
  Changes, same, members, guests, Atomic, Atomics, rest, step, change_users, add_room, remove_room,
  change_room, change_rooms, lock_rooms, unlock_rooms, send_reply, close_fd,
}
use ojalvo_chat.Atomic.Pool.{Pool, Turns, UnlockedOrBlocked, Turns-IsOrderly}

module _ ⦃G : Glib⦄ where
  abbrev pub IsSound : Room → Type 0
  IsSound room = IsValid room.members × IsValid room.guests

  abbrev AreSound : RoomTable → Type 0
  AreSound t = (name : Text) (room : Room) → room_table_find t name ≡ some room → IsSound room

  Changes-IsSound : {room after : Room} → Changes room after → IsSound room → IsSound after
  Changes-IsSound same h = h
  Changes-IsSound (members o k) h = let (v, w) = Changes-IsSound k h in (perform-IsValid o _ v, w)
  Changes-IsSound (guests o k) h = let (v, w) = Changes-IsSound k h in (v, perform-IsValid o _ w)

  abbrev FoundSound : Option Room → Type 0
  FoundSound none = Unit {0}
  FoundSound (some room) = IsSound room

  found_Sound :
      (b : Bool) (r : Room) (o : Option Room) (x : Room)
      → IsSound r
      → ((y : Room) → o ≡ some y → IsSound y)
      → (if b then some r else o) ≡ some x
      → IsSound x
  found_Sound true r o x v h e = subst FoundSound e v
  found_Sound false r o x v h e = h x e

  mapped_Sound :
      (f : Room → Room) (o : Option Room) (x : Room)
      → ((y : Room) → o ≡ some y → IsSound (f y))
      → Option.map f o ≡ some x
      → IsSound x
  mapped_Sound f none x h e = absurd cc
  mapped_Sound f (some y) x h e = subst FoundSound e (h y refl)

  AreSound-add : (t : RoomTable) (name : Text) → AreSound t → AreSound (room_table_add t name).0
  AreSound-add t name h n r e = elim (Bool-cases (room_table_add t name).1) [
    | inl y ↦
        found_Sound (str_eq name n) (new_room name) _ r
          (users_table_init-IsValid, users_table_init-IsValid) (h n)
          (sym (find-add t name n ∙ rw y refl) ∙ e)
    | inr y ↦ h n r (sym (find-add t name n ∙ rw y refl) ∙ e)
  ]

  AreSound-remove :
      (t : RoomTable) (name : Text) → AreSound t → AreSound (room_table_remove t name).0
  AreSound-remove t name h n r e = h n r (ground (arith, find-remove t name n, e))

  AreSound-write :
      (t : RoomTable) (name : Text) (room : Room)
      → IsSound room
      → AreSound t
      → AreSound (room_table_write t name room)
  AreSound-write t name room v h n r e =
      found_Sound (str_eq name n) room _ r v (h n) (sym (find-write t name room n) ∙ e)

  AreSound-for_each :
      (t : RoomTable) (f : Room → Room)
      → ((room : Room) → IsSound room → IsSound (f room))
      → AreSound t
      → AreSound (room_table_for_each t f)
  AreSound-for_each t f k h n r e =
      mapped_Sound f _ r (λ y g. k y (h n y g)) (sym (find-for_each t f n) ∙ e)

  -- The pointers of the tables of users are sound: the server's, and those of every room.
  pub record IsIntact (s : Server) : Type 0 where
    pub users : IsValid s.users
    pub rooms :
        (name : Text) (room : Room) → room_table_find s.rooms name ≡ some room → IsSound room

  module _ ⦃C : Cjson⦄ ⦃N : Network⦄ where
    Atomic-IsIntact : {s t : Server} → Atomic s t → IsIntact s → IsIntact t
    Atomic-IsIntact (change_users o) h = record {
      users = perform-IsValid o _ h.users;
      rooms = h.rooms;
    }
    Atomic-IsIntact (add_room name) h = record {
      users = h.users;
      rooms = AreSound-add _ name h.rooms;
    }
    Atomic-IsIntact (remove_room name) h = record {
      users = h.users;
      rooms = AreSound-remove _ name h.rooms;
    }
    Atomic-IsIntact (change_room name {room} e c) h = record {
      users = h.users;
      rooms = AreSound-write _ name _ (Changes-IsSound c (h.rooms name room e)) h.rooms;
    }
    Atomic-IsIntact (change_rooms f c) h = record {
      users = h.users;
      rooms = AreSound-for_each _ f (λ room v. Changes-IsSound (c room) v) h.rooms;
    }
    Atomic-IsIntact lock_rooms h = record { users = h.users; rooms = h.rooms }
    Atomic-IsIntact unlock_rooms h = record { users = h.users; rooms = h.rooms }
    Atomic-IsIntact (send_reply fd m json ok r e) h = record { users = h.users; rooms = h.rooms }
    Atomic-IsIntact (close_fd fd) h = record { users = h.users; rooms = h.rooms }

    initial_server-IsIntact : IsIntact initial_server
    unfolding room_table_find
    initial_server-IsIntact = record {
      users = users_table_init-IsValid;
      rooms = λ name room e. absurd (ground (arith, e, G.strings.lookup-new {V = Room} name));
    }

    Atomics-IsIntact : {s t : Server} → Atomics s t → IsIntact s → IsIntact t
    Atomics-IsIntact rest h = h
    Atomics-IsIntact (step k a) h = Atomic-IsIntact a (Atomics-IsIntact k h)

    -- Whatever clients connect and send, in whatever order the parts of their threads' work get
    -- their turns, and also where threads stop at faults, between two turns the pointers of all
    -- tables of users are sound, the server's and every room's, the mutex of the rooms is free or
    -- some thread is blocked, a traversal of the users meets each name once, and destroying the
    -- tables frees every User struct, and none twice.
    pub Turns-IsIntact :
        (p : Pool)
        → Turns p
        → IsIntact p.server
          × UnlockedOrBlocked p
          × EachOnce (users_table_iter p.server.users)
          × ((heap : ℕ → Option User) × (users_table_destroy p.server.users ≡ some heap)
              × ((q : ℕ) → heap q ≡ none))
          × ((heaps : List (ℕ → Option User)) × (room_table_destroy p.server.rooms ≡ some heaps)
              × AreEmpty heaps)
    Turns-IsIntact p h =
        let orderly = Turns-IsOrderly h in
        let intact = Atomics-IsIntact orderly.reached initial_server-IsIntact in
        (
          intact,
          orderly.unlocked,
          (users_table_iter-find p.server.users intact.users).0,
          users_table_destroy-none p.server.users intact.users,
          room_table_destroy-none p.server.rooms intact.rooms,
        )
