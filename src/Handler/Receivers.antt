-- ===== src/Handler/Receivers.antt =====
-- Who a message to all goes to, and what happens where it does not fit the buffer.
use ojalvo_chat.Prelude.{
  if◌then◌else◌, ℕ, ◌≡◌, refl, ap, ◌∙◌, true, false, List, [], ◌∷◌, none, some, Text, ◌==◌,
  Option-cases, Bool-cases, inl, inr,
}
use ojalvo_chat.Glib.{Glib}
use ojalvo_chat.Cjson.{Cjson}
use ojalvo_chat.User.{User}
use ojalvo_chat.UsersTable.{users_table_find_by_client_fd, users_table_iter}
use ojalvo_chat.Message.Kind.{MessageType}
use ojalvo_chat.Message.{message_init, Message, message_to_json, server_buffer_size}
use ojalvo_chat.Server.{Server, server_send, send_line, with_newline}
use ojalvo_chat.Server.Monad.{Event, sent, closed, Network, done, continue}
use ojalvo_chat.Server.Ends.{Ends, returns, Ends-bind, Ends-mono}
use ojalvo_chat.Server.Invariant.{IsGood}
use ojalvo_chat.Handler.Notify.{load_users, send_to_others, notify_all_but_self, non_null}
use ojalvo_chat.Handler.Chat.{process_public_text}
use ojalvo_chat.Handler.Dropping.{other_fds, Drops, has-other, drop_unreached-Drops}

-- To whom what was sent, the newest first.
abbrev pub addressed : List Event → List (ℕ × Text)
addressed [] = []
addressed (sent fd line ok ∷ tr) = (fd, line) ∷ addressed tr
addressed (closed fd ∷ tr) = addressed tr

-- The line for each user of a list but the one with the descriptor.
abbrev pub to_others : ℕ → Text → List User → List (ℕ × Text)
to_others fd line [] = []
to_others fd line (u ∷ us) =
    if u.socket_fd == fd then to_others fd line us else (u.socket_fd, line) ∷ to_others fd line us

-- The first list, one by one, put in front of the second.
abbrev pub onto {ℓ} : {A : Type ℓ} → List A → List A → List A
onto [] ys = ys
onto (x ∷ xs) ys = onto xs (x ∷ ys)

-- The message that a user's public text becomes.
abbrev pub public_text_from : ⦃C : Cjson⦄ → User → Text → Message
public_text_from user text = record message_init {
  kind = MessageType.public_text_from;
  username = some user.username;
  text = some text;
}

module _ ⦃G : Glib⦄ ⦃C : Cjson⦄ ⦃N : Network⦄ where
  -- What a send does with a message that goes out as the line.
  abbrev Says : Message → Text → Type 0
  Says m line =
      (x : ℕ) (t : Server)
      → server_send x m t
        ≡ done (N.accepts t.trace x line)
            (record t { trace = sent x line (N.accepts t.trace x line) ∷ t.trace })

  server_send-Says :
      (m : Message) (json : Text)
      → message_to_json m server_buffer_size ≡ some json
      → Says m (with_newline json)
  unfolding server_send send_line
  server_send-Says m json e x t = rw (e, server_send) refl

  abbrev Tells : ℕ → Text → List User → Server → List ℕ → Server → Type 0
  Tells fd line us s failed t =
      (t.users ≡ s.users)
      × (t.rooms ≡ s.rooms)
      × (t.rooms_locked ≡ s.rooms_locked)
      × (addressed t.trace ≡ onto (to_others fd line us) (addressed s.trace))

  -- With a text that fits, a send is tried to each of the others, once.
  send_to_others-Tells :
      (m : Message) (fd : ℕ) (us : List User) (s : Server) (line : Text)
      → Says m line
      → Ends (λ f. ⊥) (Tells fd line us s) (send_to_others m fd us s)
  unfolding send_to_others
  send_to_others-Tells m fd [] s line e = returns (refl, refl, refl, refl)
  send_to_others-Tells m fd (u ∷ us) s line e = elim (Bool-cases (u.socket_fd == fd)) [
    | inl y ↦ rw y (
        Ends-mono (λ failed t (a, b, c, d). (a, b, c, rw y d))
          (send_to_others-Tells m fd us s line e))
    | inr y ↦
        rw (y, e u.socket_fd s)
          (Ends-bind (
            returns (
              Ends-bind (
                Ends-mono (λ failed t (a, b, c, d). returns (a, b, c, rw y d))
                  (send_to_others-Tells m fd us
                    (record s {
                      trace = sent u.socket_fd line (N.accepts s.trace u.socket_fd line) ∷ s.trace;
                    })
                    line e)))))
  ]

  -- With one that does not, nothing is sent, and all of the others count as out of reach.
  send_to_others-oversized :
      (m : Message) (fd : ℕ) (us : List User) (s : Server)
      → message_to_json m server_buffer_size ≡ none
      → send_to_others m fd us s ≡ done (other_fds fd us) s
  unfolding send_to_others server_send continue
  send_to_others-oversized m fd [] s e = refl
  send_to_others-oversized m fd (u ∷ us) s e = elim (Bool-cases (u.socket_fd == fd)) [
    | inl y ↦ rw y (send_to_others-oversized m fd us s e)
    | inr y ↦ rw (y, server_send, e, send_to_others-oversized m fd us s e) refl
  ]

  -- A PUBLIC_TEXT from an identified client, in a good state and where its JSON fits, is sent once
  -- to each user that a traversal of the users meets but to the sender, in that order, and nothing
  -- else is sent, whether or not the sends succeed.
  pub process_public_text-addressed :
      (m : Message) (fd : ℕ) (s : Server) (u : User) (text json : Text)
      → IsGood s
      → users_table_find_by_client_fd s.users fd ≡ some u
      → m.text ≡ some text
      → message_to_json (public_text_from u text) server_buffer_size ≡ some json
      → Ends
          (λ f. ⊥)
          (λ ok t.
            (ok ≡ true)
            × (addressed t.trace
                ≡ onto
                    (to_others fd (with_newline json) (users_table_iter s.users))
                    (addressed s.trace)))
          (process_public_text m fd s)
  unfolding process_public_text notify_all_but_self non_null load_users
  process_public_text-addressed m fd s u text json g e f fits = Ends-bind (
      returns (
        rw e (
          Ends-bind (
            rw f (
              returns (
                Ends-bind (
                  Ends-bind (
                    returns (
                      Ends-bind (
                        Ends-mono
                          (λ failed t (same_users, same_rooms, same_lock, said).
                            Ends-mono (λ _ v d. returns (refl, ap addressed d.silent ∙ said))
                              (drop_unreached-Drops failed t (record {
                                inv = rw (same_users, same_rooms) g.inv;
                                unlocked = same_lock ∙ g.unlocked;
                              })))
                          (send_to_others-Tells (public_text_from u text) fd
                            (users_table_iter s.users) s (with_newline json)
                            (server_send-Says (public_text_from u text) json fits))))))))))))

  -- A PUBLIC_TEXT from an identified client in a good state, whose message to the others does not
  -- fit the buffer for its JSON, is sent to nobody, nothing is closed, and afterwards no other
  -- descriptor has a user.
  pub process_public_text-oversized :
      (m : Message) (fd : ℕ) (s : Server) (u : User) (text : Text)
      → IsGood s
      → users_table_find_by_client_fd s.users fd ≡ some u
      → m.text ≡ some text
      → message_to_json (public_text_from u text) server_buffer_size ≡ none
      → Ends
          (λ f. ⊥)
          (λ ok t.
            (ok ≡ true)
            × (t.trace ≡ s.trace)
            × ((x : ℕ) → (x == fd) ≡ false → users_table_find_by_client_fd t.users x ≡ none))
          (process_public_text m fd s)
  unfolding process_public_text notify_all_but_self non_null load_users
  process_public_text-oversized m fd s u text g e f large = Ends-bind (
      returns (
        rw e (
          Ends-bind (
            rw f (
              returns (
                Ends-bind (
                  Ends-bind (
                    returns (
                      Ends-bind (
                        rw
                          (send_to_others-oversized (public_text_from u text) fd
                            (users_table_iter s.users) s large)
                          (returns (
                            Ends-mono (λ _ t d. returns (refl, d.silent, all_gone t d))
                              (drop_unreached-Drops (other_fds fd (users_table_iter s.users)) s
                                g)))))))))))))
    where
      all_gone :
          (t : Server)
          → Drops (other_fds fd (users_table_iter s.users)) s t
          → (x : ℕ) → (x == fd) ≡ false
          → users_table_find_by_client_fd t.users x ≡ none
      all_gone t d x y = elim (Option-cases (users_table_find_by_client_fd s.users x)) [
        | inl k ↦ d.kept x k
        | inr (v, k) ↦ d.gone x (has-other s x fd v g k y)
      ]
