-- ===== src/Handler/Guests.antt =====
-- The guests of a room before and after a user is invited.
use ojalvo_chat.Prelude.{
  ℕ, ◌≡◌, is_some, sym, refl, ap, ◌∙◌, Bool, true, false, ◌||◌, List, [], ◌∷◌, All, Option, none,
  some, Text, ◌==◌, arith, if◌then◌else◌,
}
use ojalvo_chat.Glib.{Glib}
use ojalvo_chat.Cjson.{Cjson}
use ojalvo_chat.Message.{Message}
use ojalvo_chat.Server.Sends.{arrives, trace_after}
use ojalvo_chat.User.{User}
use ojalvo_chat.UsersTable.{
  UsersTable, users_table_contains_by_client_fd, users_table_find_by_client_fd,
  users_table_find_by_username, users_table_add_with_status,
}
use ojalvo_chat.UsersTable.View.{fits}
use ojalvo_chat.UsersTable.Invariant.{users_table_add_with_status-IsValid}
use ojalvo_chat.Room.{Room}
use ojalvo_chat.RoomTable.{room_table_find, room_table_write}
use ojalvo_chat.Server.{Server}
use ojalvo_chat.Server.Monad.{Network, Event}
use ojalvo_chat.Server.Synced.{RoomIsSynced, add-IsSynced}
use ojalvo_chat.Server.Invariant.{IsGood, write-Inv}
use ojalvo_chat.Handler.Farewell.{Gone}
use ojalvo_chat.Handler.Presence.{not_named, entered, entered_others, contains-find_fd}
use ojalvo_chat.Handler.Sound.Creation.{Registered}

-- Whether a user of the list has the descriptor.
abbrev pub has_fd : ℕ → List User → Bool
has_fd fd [] = false
has_fd fd (u ∷ us) = u.socket_fd == fd || has_fd fd us

module _ ⦃G : Glib⦄ where
  -- The users can all be invited: each has a descriptor of its own and a name of the length that
  -- user_init takes, and is in the room neither as a member nor as a guest.
  abbrev pub CanEnter : Room → List User → Type 0
  CanEnter room [] = Unit {0}
  CanEnter room (u ∷ us) =
      (fits u.username ≡ true)
      × (users_table_contains_by_client_fd room.members u.socket_fd ≡ false)
      × (users_table_contains_by_client_fd room.guests u.socket_fd ≡ false)
      × (has_fd u.socket_fd us ≡ false)
      × CanEnter room us

  -- The room has the members that it had, and these users are guests beside those that it had.
  abbrev pub HasInvited : Room → List User → Option Room → Type 0
  HasInvited before us none = ⊥
  HasInvited before us (some room) =
      (room.members ≡ before.members)
      × All (λ u. users_table_find_by_client_fd room.guests u.socket_fd ≡ some u) us
      × ((fd : ℕ)
          → has_fd fd us ≡ false
          → users_table_find_by_client_fd room.guests fd
            ≡ users_table_find_by_client_fd before.guests fd)

  abbrev pub with_guest : Room → User → Room
  with_guest room u = record room {
    guests = (users_table_add_with_status room.guests u.username u.socket_fd u.status).0;
  }

  pub with_guest-IsGood :
      (s : Server) (name : Text) (room : Room) (u : User) (events : List Event)
      → IsGood s
      → room_table_find s.rooms name ≡ some room
      → Registered s.users u
      → IsGood (record s {
        rooms = room_table_write s.rooms name (with_guest room u);
        rooms_locked = false;
        trace = events;
      })
  with_guest-IsGood s name room u events g f r = record {
    inv =
        write-Inv s.users s.rooms name _
          (record {
            members = (g.inv.rooms name room f).members;
            guests =
                add-IsSynced s.users room.guests u g.inv.users (g.inv.rooms name room f).guests r;
          })
          g.inv;
    unlocked = refl;
  }

  -- A descriptor that is another user's is as free in the room as before.
  pub still_free :
      (s : Server) (name : Text) (room : Room) (u : User) (us : List User)
      → IsGood s
      → room_table_find s.rooms name ≡ some room
      → Registered s.users u
      → users_table_contains_by_client_fd room.guests u.socket_fd ≡ false
      → has_fd u.socket_fd us ≡ false
      → CanEnter room us
      → CanEnter (with_guest room u) us
  still_free s name room u [] g f r k d c = tt
  still_free s name room u (v ∷ us) g f r k d (fit, member, guest, alone, more) = (
    fit,
    member,
    contains-find_fd (with_guest room u).guests v.socket_fd (
          users_table_add_with_status-IsValid room.guests u.username u.socket_fd u.status
            synced.guests.sound.valid)
        ∙ ap is_some (
            entered_others room.guests u v.socket_fd synced.guests.sound.valid
              (not_named s.users room.guests u g.inv.users synced.guests r k) (ground (arith, d)))
        ∙ sym (contains-find_fd room.guests v.socket_fd synced.guests.sound.valid)
        ∙ guest,
    alone,
    still_free s name room u us g f r k (ground (arith, d)) more,
  )
    where
      synced : RoomIsSynced s.users room
      synced = g.inv.rooms name room f

  -- The first invited user's place among the guests outlasts the invitations of the others.
  pub grown :
      (s : Server) (name : Text) (room : Room) (u : User) (us : List User) (o : Option Room)
      → IsGood s
      → room_table_find s.rooms name ≡ some room
      → Registered s.users u
      → fits u.username ≡ true
      → users_table_contains_by_client_fd room.guests u.socket_fd ≡ false
      → has_fd u.socket_fd us ≡ false
      → HasInvited (with_guest room u) us o
      → HasInvited room (u ∷ us) o
  grown s name room u us none g f r fit k d h = h
  grown s name room u us (some after) g f r fit k d (same, guests, others) = (
    same,
    (others u.socket_fd d ∙ entered room.guests u synced.guests.sound.valid fit absent, guests),
    λ fd e.
        others fd (ground (arith, e))
        ∙ entered_others room.guests u fd synced.guests.sound.valid absent (ground (arith, e)),
  )
    where
      synced : RoomIsSynced s.users room
      synced = g.inv.rooms name room f

      absent : users_table_find_by_username room.guests u.username ≡ none
      absent = not_named s.users room.guests u g.inv.users synced.guests r k

  -- What inviting these users comes to: all are invited, or there is a first who could not be told,
  -- and that client is gone.
  abbrev pub InvitedOrGone : Option ℕ → UsersTable → Text → Room → List User → Server → Type 0
  InvitedOrGone none users name room us t =
      (t.users ≡ users) × HasInvited room us (room_table_find t.rooms name)
  InvitedOrGone (some fd) users name room us t = Gone fd t

  pub one_more :
      (o : Option ℕ) (s : Server) (name : Text) (room : Room) (u : User) (us : List User)
      (t : Server)
      → IsGood s
      → room_table_find s.rooms name ≡ some room
      → Registered s.users u
      → fits u.username ≡ true
      → users_table_contains_by_client_fd room.guests u.socket_fd ≡ false
      → has_fd u.socket_fd us ≡ false
      → InvitedOrGone o s.users name (with_guest room u) us t
      → InvitedOrGone o s.users name room (u ∷ us) t
  one_more none s name room u us t g f r fit k d (e, h) =
      (e, grown s name room u us (room_table_find t.rooms name) g f r fit k d h)
  one_more (some fd) s name room u us t g f r fit k d h = h

module _ ⦃G : Glib⦄ ⦃C : Cjson⦄ ⦃N : Network⦄ where
  -- The descriptor of the first user to whom the message does not arrive, where it is sent to one
  -- after the other.
  abbrev pub first_missed : List Event → Message → List User → Option ℕ
  first_missed trace m [] = none
  first_missed trace m (u ∷ us) =
      let rest = first_missed (trace_after trace u.socket_fd m) m us in
      if arrives trace u.socket_fd m then rest else some u.socket_fd
