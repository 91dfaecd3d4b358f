-- ===== src/Handler/Arrival.antt =====
-- What the server knows of a client after IDENTIFY and STATUS.
use ojalvo_chat.Prelude.{
  ℕ, ◌≡◌, inl, inr, refl, ap, ◌∙◌, true, List, none, some, Text, take, arith, codes, Bool-cases,
}
use ojalvo_chat.Glib.{Glib}
use ojalvo_chat.Cjson.{Cjson}
use ojalvo_chat.User.{User, Status, active, away, busy, username_max_length, status_from_string}
use ojalvo_chat.UsersTable.{
  users_table_add, users_table_find_by_client_fd, users_table_find_by_username,
}
use ojalvo_chat.UsersTable.View.{fits}
use ojalvo_chat.UsersTable.Directory.{add-directory, change_status-directory}
use ojalvo_chat.Message.{Message}
use ojalvo_chat.Server.{Server}
use ojalvo_chat.Server.Monad.{Network, Event}
use ojalvo_chat.Server.Ends.{Ends, returns, Ends-bind, Ends-mono}
use ojalvo_chat.Server.Invariant.{IsGood, users_table_add-Inv, own_fd}
use ojalvo_chat.Handler.Notify.{store_users}
use ojalvo_chat.Handler.Chat.{
  response, status_eq, identify_new, identify_as, process_identify, update_status, process_status,
}
use ojalvo_chat.Handler.Sound.Chat.{mark-IsGood}
use ojalvo_chat.Handler.Effects.{each_room-Ends}
use ojalvo_chat.Server.Sends.{IfSo, if_so, if_not, arrives, server_send-arrives}
use ojalvo_chat.Handler.Farewell.{Gone, process_disconnect-Gone}
use ojalvo_chat.Handler.Notice.{Knows, notify-Knows}

module _ ⦃G : Glib⦄ ⦃C : Cjson⦄ ⦃N : Network⦄ where
  abbrev pub newcomer : Text → ℕ → User
  newcomer name fd = record {
    username = take username_max_length name;
    socket_fd = fd;
    status = active;
  }

  -- The answer to one who is identified.
  abbrev pub identified : Text → Message
  identified name = response (codes "IDENTIFY") (codes "SUCCESS") (some name)

  identify_new-Knows :
      (name : Text) (fd : ℕ) (s : Server)
      → IsGood s
      → users_table_find_by_client_fd s.users fd ≡ none
      → users_table_find_by_username s.users (take username_max_length name) ≡ none
      → fits (take username_max_length name) ≡ true
      → (users_table_add s.users (take username_max_length name) fd).1 ≡ true
      → Ends
          (λ f. ⊥)
          (λ ok t.
            IfSo
              (arrives s.trace fd (identified (take username_max_length name)))
              ((ok ≡ true) × Knows fd (newcomer name fd) t)
              (Gone fd t))
          (identify_new (take username_max_length name) fd s)
  unfolding identify_new store_users
  identify_new-Knows name fd s g e f fit added = Ends-bind (
      returns (
        Ends-bind (
          returns (
            rw added (
              Ends-bind (
                server_send-arrives (λ f. ⊥) _ fd _ _
                  (elim (Bool-cases
                    (arrives s.trace fd (identified (take username_max_length name)))) [
                      | inl y ↦ rw y (
                          Ends-bind (
                            Ends-mono (λ _ t l. returns (if_so refl (refl, l)))
                              (notify-Knows _ fd _ _ k)))
                      | inr y ↦ rw y (
                          Ends-mono (λ ok t q. if_not refl q) (process_disconnect-Gone fd _ k.good))
                    ])))))))
    where
      k :
          {tr : List Event}
          → Knows fd (newcomer name fd) (record s {
            users = (users_table_add s.users (take username_max_length name) fd).0;
            trace = tr;
          })
      k = record {
        good = record {
          inv = users_table_add-Inv s.users s.rooms _ fd g.inv e f;
          unlocked = g.unlocked;
        };
        known =
            ap (λ d. d.by_fd fd)
              (add-directory s.users (take username_max_length name) fd g.inv.users.valid)
            ∙ ground (arith, fit, f);
      }

  -- When a client with no user asks from a good state for a name that, cut to its length, is free
  -- and is added to the table, then if the answer SUCCESS arrives the handler returns true and the
  -- client is registered as an active user of that name, whatever sends to others fail; if it does
  -- not arrive the client is gone from all tables.
  pub process_identify-Knows :
      (m : Message) (fd : ℕ) (s : Server) (name : Text)
      → IsGood s
      → m.username ≡ some name
      → users_table_find_by_client_fd s.users fd ≡ none
      → users_table_find_by_username s.users (take username_max_length name) ≡ none
      → fits (take username_max_length name) ≡ true
      → (users_table_add s.users (take username_max_length name) fd).1 ≡ true
      → Ends
          (λ f. ⊥)
          (λ ok t.
            IfSo
              (arrives s.trace fd (identified (take username_max_length name)))
              ((ok ≡ true) × Knows fd (newcomer name fd) t)
              (Gone fd t))
          (process_identify m fd s)
  unfolding process_identify identify_as
  process_identify-Knows m fd s name g h e f fit added = rw h (
      Ends-bind (
        returns (rw e (Ends-bind (returns (rw f (identify_new-Knows name fd s g e f fit added)))))))

  same_status : (a b : Status) → status_eq a b ≡ true → a ≡ b
  same_status active active h = refl
  same_status active away h = cc
  same_status active busy h = cc
  same_status away active h = cc
  same_status away away h = refl
  same_status away busy h = cc
  same_status busy active h = cc
  same_status busy away h = cc
  same_status busy busy h = refl

  update_status-Knows :
      (u : User) (x : Status) (text : Text) (fd : ℕ) (s : Server)
      → IsGood s
      → users_table_find_by_client_fd s.users fd ≡ some u
      → Ends
          (λ f. ⊥)
          (λ ok t. (ok ≡ true) × Knows fd (record u { status = x }) t)
          (update_status u x text fd s)
  unfolding update_status store_users
  update_status-Knows u x text fd s g e = elim (Bool-cases (status_eq u.status x)) [
    | inl y ↦ rw y (
        returns (
          refl,
          record {
            good = g;
            known = e ∙ ap (λ st. some (record u { status = st })) (same_status u.status x y);
          },
        ))
    | inr y ↦ rw y (
        Ends-bind (
          returns (
            Ends-bind (
              returns (
                Ends-bind (
                  each_room-Ends (λ f. ⊥) _ _ _ g.unlocked
                    (rw (own_fd s fd u g e) (
                      Ends-bind (
                        Ends-mono (λ _ t k. returns (refl, k))
                          (notify-Knows _ fd
                            (record { username = u.username; socket_fd = fd; status = x }) _
                            (record {
                              good = mark-IsGood (λ f. ⊥) s fd x g;
                              known =
                                  ap (λ d. d.by_fd fd)
                                    (change_status-directory s.users fd x g.inv.users.valid)
                                  ∙ ground (arith, e, own_fd s fd u g e);
                            })))))))))))
  ]

  -- When an identified client sends STATUS with the name of a status from a good state, the handler
  -- returns true, the user has that status and is otherwise unchanged, and the state is good, so
  -- that rooms hold the same status.
  pub process_status-Knows :
      (m : Message) (fd : ℕ) (s : Server) (text : Text) (x : Status) (u : User)
      → IsGood s
      → m.status ≡ some text
      → status_from_string (some text) ≡ some x
      → users_table_find_by_client_fd s.users fd ≡ some u
      → Ends
          (λ f. ⊥)
          (λ ok t. (ok ≡ true) × Knows fd (record u { status = x }) t)
          (process_status m fd s)
  unfolding process_status
  process_status-Knows m fd s text x u g h e f =
      rw (h, process_status, e) (Ends-bind (returns (rw f (update_status-Knows u x text fd s g f))))
