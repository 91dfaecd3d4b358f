-- ===== src/Handler/Sound/Chat.antt =====
-- The handlers of message_handler.c that do not touch a room by name keep the invariant.
use ojalvo_chat.Prelude.{
  ℕ, ◌≡◌, refl, true, false, List, Option, none, some, Text, ◌==◌, str_eq, if◌then◌else◌,
  Option-cases, Bool-cases, inl, inr,
}
use ojalvo_chat.Glib.{Glib}
use ojalvo_chat.Cjson.{Cjson}
use ojalvo_chat.User.{User, Status, status_from_string}
use ojalvo_chat.UsersTable.{
  users_table_add, users_table_find_by_username, users_table_find_by_client_fd,
  users_table_change_status_by_client_fd,
}
use ojalvo_chat.Message.{Message}
use ojalvo_chat.RoomTable.{room_table_for_each}
use ojalvo_chat.Server.{Server}
use ojalvo_chat.Server.Monad.{Fault, Event, Network, null_pointer, Outcome, pure}
use ojalvo_chat.Server.Ends.{Ends, returns, stops, Ends-bind, Ends-mono}
use ojalvo_chat.Server.Synced.{change_status-IsSound, change_status-IsSynced}
use ojalvo_chat.Server.Invariant.{IsGood, users_table_add-Inv, for_each-Inv, own_fd}
use ojalvo_chat.Handler.Notify.{store_users, non_null, send_invalid_and_disconnect}
use ojalvo_chat.Handler.Chat.{
  identify_new, identify_taken, identify_as, process_identify, update_status, process_status,
  process_users, is_self, send_text, text_named, process_text, process_public_text, status_eq,
  room_update_status,
}
use ojalvo_chat.Handler.Effects.{
  server_send-Ends, notify-Ends, process_disconnect-Ends, send_invalid_and_disconnect-Ends,
  send_or_disconnect-Ends, each_room-Ends,
}

module _ ⦃G : Glib⦄ ⦃C : Cjson⦄ ⦃N : Network⦄ (F : Fault → Type 0) where
  -- The goal of each lemma: no fault but those of `F`, and the invariant afterwards.
  abbrev pub Sound : {A : Type 0} → Outcome Server A → Type 0
  Sound = Ends F (λ _. IsGood)

  pub quiet : (s : Server) (tr : List Event) → IsGood s → IsGood (record s { trace = tr })
  quiet s tr g = record { inv = g.inv; unlocked = g.unlocked }

  identify_new-Sound :
      (n : Text) (fd : ℕ) (s : Server)
      → IsGood s
      → users_table_find_by_client_fd s.users fd ≡ none
      → users_table_find_by_username s.users n ≡ none
      → Sound (identify_new n fd s)
  unfolding identify_new store_users
  identify_new-Sound n fd s g e f = elim (Bool-cases (users_table_add s.users n fd).1) [
    | inr x ↦ Ends-bind (returns (Ends-bind (returns (rw x (returns k)))))
    | inl x ↦ Ends-bind (
        returns (
          Ends-bind (
            returns (
              rw x (
                Ends-bind (
                  server_send-Ends F _ fd _ t λ ok tr. elim (Bool-cases ok) [
                    | inl y ↦ rw y (
                        Ends-bind (
                          notify-Ends F _ _ fd (record t { trace = tr }) (quiet t tr k)
                            λ u l. returns l))
                    | inr y ↦
                        rw y (process_disconnect-Ends F fd (record t { trace = tr }) (quiet t tr k))
                  ]))))))
  ]
    where
      t : Server
      t = record s { users = (users_table_add s.users n fd).0 }

      k : IsGood t
      k = record { inv = users_table_add-Inv s.users s.rooms n fd g.inv e f; unlocked = g.unlocked }

  identify_taken-Sound :
      (n : Text) (holder : User) (fd : ℕ) (s : Server)
      → IsGood s
      → Sound (identify_taken n holder fd s)
  unfolding identify_taken
  identify_taken-Sound n holder fd s g = elim (Bool-cases (holder.socket_fd == fd)) [
    | inl e ↦ rw e (returns g)
    | inr e ↦ rw e (
        Ends-bind (
          server_send-Ends F _ fd _ s λ ok tr. Ends-bind (
            Ends-mono (λ a t k. returns k)
              (process_disconnect-Ends F fd (record s { trace = tr }) (quiet s tr g)))))
  ]

  pub process_users-Sound : (fd : ℕ) (s : Server) → IsGood s → Sound (process_users fd s)
  unfolding process_users
  process_users-Sound fd s g = Ends-bind (returns (send_or_disconnect-Ends F fd _ fd s g))

  identify_as-Sound : (n : Text) (fd : ℕ) (s : Server) → IsGood s → Sound (identify_as n fd s)
  unfolding identify_as
  identify_as-Sound n fd s g = elim (Option-cases (users_table_find_by_client_fd s.users fd)) [
    | inr (u, e) ↦ Ends-bind (returns (rw e (known u)))
    | inl e ↦ elim (Option-cases (users_table_find_by_username s.users n)) [
      | inr (u, f) ↦
          Ends-bind (returns (rw e (Ends-bind (returns (rw f (identify_taken-Sound n u fd s g))))))
      | inl f ↦
          Ends-bind (returns (rw e (Ends-bind (returns (rw f (identify_new-Sound n fd s g e f))))))
    ]
  ]
    where
      known :
          (u : User)
          → Sound ((if str_eq u.username n then pure true else send_invalid_and_disconnect fd) s)
      known u = elim (Bool-cases (str_eq u.username n)) [
        | inl e ↦ rw e (returns g)
        | inr e ↦ rw e (send_invalid_and_disconnect-Ends F fd s g)
      ]

  pub process_identify-Sound :
      (m : Message) (fd : ℕ) (s : Server) → IsGood s → Sound (process_identify m fd s)
  unfolding process_identify
  process_identify-Sound m fd s g = elim (Option-cases m.username) [
    | inl e ↦ rw e (returns g)
    | inr (n, e) ↦ rw e (identify_as-Sound _ fd s g)
  ]

  -- The status changes in the server's table and in every room, so the rooms stay synced.
  pub mark-IsGood :
      (s : Server) (fd : ℕ) (x : Status)
      → IsGood s
      → IsGood (record s {
        users = (users_table_change_status_by_client_fd s.users fd x).0;
        rooms = room_table_for_each s.rooms (room_update_status fd x);
        rooms_locked = false;
      })
  unfolding room_update_status
  mark-IsGood s fd x g = record {
    inv =
        for_each-Inv s.users _ s.rooms _ (change_status-IsSound s.users fd x g.inv.users)
          (λ room h. record {
            members = change_status-IsSynced s.users room.members fd x g.inv.users h.members;
            guests = change_status-IsSynced s.users room.guests fd x g.inv.users h.guests;
          })
          g.inv;
    unlocked = refl;
  }

  update_status-Sound :
      (u : User) (x : Status) (text : Text) (fd : ℕ) (s : Server)
      → IsGood s
      → u.socket_fd ≡ fd
      → Sound (update_status u x text fd s)
  unfolding update_status store_users
  update_status-Sound u x text fd s g own = elim (Bool-cases (status_eq u.status x)) [
    | inl e ↦ rw e (returns g)
    | inr e ↦ rw e (
        Ends-bind (
          returns (
            Ends-bind (
              returns (
                Ends-bind (
                  each_room-Ends F _ _ _ g.unlocked (
                    rw own (
                      Ends-bind
                        (notify-Ends F _ _ fd _ (mark-IsGood s fd x g) λ t k. returns k)))))))))
  ]

  pub process_status-Sound :
      (m : Message) (fd : ℕ) (s : Server) → IsGood s → Sound (process_status m fd s)
  unfolding process_status
  process_status-Sound m fd s g = elim (Option-cases m.status) [
    | inl e ↦ rw e (returns g)
    | inr (text, e) ↦ elim (Option-cases (status_from_string (some text))) [
      | inl f ↦ rw (e, process_status, f) (send_invalid_and_disconnect-Ends F fd s g)
      | inr (x, f) ↦ elim (Option-cases (users_table_find_by_client_fd s.users fd)) [
        | inl h ↦ rw (e, process_status, f) (Ends-bind (returns (rw h (returns g))))
        | inr (u, h) ↦
            rw (e, process_status, f)
              (Ends-bind (returns (rw h (update_status-Sound u x text fd s g (own_fd s fd u g h)))))
      ]
    ]
  ]

  send_text-Sound :
      (to : User) (text : Option Text) (fd : ℕ) (s : Server)
      → IsGood s
      → (text ≡ none → F null_pointer)
      → Sound (send_text to text fd s)
  unfolding send_text non_null
  send_text-Sound to text fd s g crash =
      elim (Option-cases (users_table_find_by_client_fd s.users fd)) [
        | inl e ↦ Ends-bind (returns (rw e (returns g)))
        | inr (from, e) ↦ elim (Option-cases text) [
          | inl f ↦ Ends-bind (returns (rw (e, f) (Ends-bind (stops (crash f)))))
          | inr (body, f) ↦ Ends-bind (
              returns
                (rw (e, f) (Ends-bind (returns (send_or_disconnect-Ends F to.socket_fd _ fd s g)))))
        ]
      ]

  text_named-Sound :
      (n : Text) (text : Option Text) (fd : ℕ) (s : Server)
      → IsGood s
      → (text ≡ none → F null_pointer)
      → Sound (text_named n text fd s)
  unfolding text_named
  text_named-Sound n text fd s g crash =
      elim (Option-cases (users_table_find_by_username s.users n)) [
        | inl e ↦ Ends-bind (returns (rw e (send_or_disconnect-Ends F fd _ fd s g)))
        | inr (u, e) ↦ elim (Bool-cases (is_self u (users_table_find_by_client_fd s.users fd))) [
          | inl f ↦ Ends-bind (returns (rw e (Ends-bind (returns (rw f (returns g))))))
          | inr f ↦
              Ends-bind
                (returns (rw e (Ends-bind (returns (rw f (send_text-Sound u text fd s g crash))))))
        ]
      ]

  pub process_text-Sound :
      (m : Message) (fd : ℕ) (s : Server)
      → IsGood s
      → (m.username ≡ none → F null_pointer)
      → (m.text ≡ none → F null_pointer)
      → Sound (process_text m fd s)
  unfolding process_text non_null
  process_text-Sound m fd s g no_name no_text = elim (Option-cases m.username) [
    | inl e ↦ rw e (Ends-bind (stops (no_name e)))
    | inr (n, e) ↦ rw e (Ends-bind (returns (text_named-Sound n m.text fd s g no_text)))
  ]

  pub process_public_text-Sound :
      (m : Message) (fd : ℕ) (s : Server)
      → IsGood s
      → (m.text ≡ none → F null_pointer)
      → Sound (process_public_text m fd s)
  unfolding process_public_text non_null
  process_public_text-Sound m fd s g crash =
      elim (Option-cases (users_table_find_by_client_fd s.users fd)) [
        | inl e ↦ Ends-bind (returns (rw e (returns g)))
        | inr (u, e) ↦ elim (Option-cases m.text) [
          | inl f ↦ Ends-bind (returns (rw (e, f) (Ends-bind (stops (crash f)))))
          | inr (body, f) ↦ Ends-bind (
              returns (
                rw (e, f)
                  (Ends-bind (returns (Ends-bind (notify-Ends F _ _ fd s g λ t k. returns k))))))
        ]
      ]
