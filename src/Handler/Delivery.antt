-- ===== src/Handler/Delivery.antt =====
-- What happens where a message cannot be delivered.
use ojalvo_chat.Prelude.{
  codes, none, ℕ, ◌≡◌, refl, Bool, true, List, ◌∷◌, Option, some, Text, str_eq, Option-cases,
  Bool-cases, inl, inr,
}
use ojalvo_chat.Glib.{Glib}
use ojalvo_chat.Cjson.{Cjson}
use ojalvo_chat.User.{User}
use ojalvo_chat.UsersTable.{
  users_table_find_by_username, users_table_find_by_client_fd, users_table_iter,
}
use ojalvo_chat.Message.{Message, message_init}
use ojalvo_chat.Message.Kind.{MessageType}
use ojalvo_chat.Server.{Server, each_room}
use ojalvo_chat.Server.Monad.{Network, Event, done, fault, deadlock, continue}
use ojalvo_chat.Server.Ends.{Ends, returns, Ends-bind, Ends-mono}
use ojalvo_chat.Handler.Notify.{
  members_of, non_null, load_users, drop_unreached, send_to_others, notify_all_but_self,
}
use ojalvo_chat.Handler.Chat.{response, process_text, text_named, send_text}
use ojalvo_chat.Server.Invariant.{IsGood}
use ojalvo_chat.Server.Sends.{IfSo, if_so, if_not}
use ojalvo_chat.Handler.Answers.{Told, send_or_disconnect-Told}

module _ ⦃G : Glib⦄ ⦃C : Cjson⦄ ⦃N : Network⦄ where
  abbrev pub text_from : User → Text → Message
  text_from user text = record message_init {
    kind = MessageType.text_from;
    username = some user.username;
    text = some text;
  }

  -- What a TEXT for the user of that name comes to.
  abbrev pub Passed : Text → User → Text → ℕ → Server → Option User → Bool → Server → Type 0
  Passed name from text fd s none ok t =
      Told fd (response (codes "TEXT") (codes "NO_SUCH_USER") (some name)) fd s ok t
  Passed name from text fd s (some to) ok t =
      IfSo (str_eq to.username from.username) ((ok ≡ true) × (t ≡ s))
        (Told to.socket_fd (text_from from text) fd s ok t)

  -- A TEXT from an identified client in a good state, with a name and a text, does one of three
  -- things. Where nobody has the name, the client is told that there is no such user. Where the
  -- name is the client's own, nothing happens. Otherwise the text is sent to the user of that name,
  -- and to nobody else. Where what is sent arrives, the handler returns true and nothing has
  -- changed but the trace; where it does not, as it is too long or the network refuses it, the
  -- client who sent the TEXT is gone from all tables.
  pub process_text-delivers :
      (m : Message) (fd : ℕ) (s : Server) (from : User) (name text : Text)
      → IsGood s
      → m.username ≡ some name
      → m.text ≡ some text
      → users_table_find_by_client_fd s.users fd ≡ some from
      → Ends
          (λ f. ⊥)
          (Passed name from text fd s (users_table_find_by_username s.users name))
          (process_text m fd s)
  unfolding process_text text_named send_text non_null
  process_text-delivers m fd s from name text g e1 e2 e4 =
      rw (e1, non_null)
        (Ends-bind (
          returns (
            Ends-bind (
              returns (elim (Option-cases (users_table_find_by_username s.users name)) [
                | inl e ↦ rw e (send_or_disconnect-Told fd _ fd s g)
                | inr (to, e) ↦ rw e (
                    Ends-bind (
                      returns (
                        rw e4 (elim (Bool-cases (str_eq to.username from.username)) [
                          | inl y ↦ rw y (returns (if_so y (refl, refl)))
                          | inr y ↦ rw y (
                              Ends-bind (
                                returns (
                                  rw (e4, e2, non_null)
                                    (Ends-bind (
                                      returns (
                                        Ends-mono (λ ok t q. if_not y q)
                                          (send_or_disconnect-Told to.socket_fd
                                            (text_from from text) fd s g)))))))
                        ]))))
              ])))))

  -- With the rooms locked, as inside an action on a room, a first member that cannot be reached and
  -- is found by its descriptor stops the thread at a deadlock.
  pub notify_members-deadlock :
      (name : Text) (m : Message) (fd : ℕ) (s : Server) (tr : List Event) (x : ℕ) (failed : List ℕ)
      (u : User)
      → s.rooms_locked ≡ true
      → send_to_others m fd (users_table_iter (load_users (members_of name) s)) s
        ≡ done (x ∷ failed) (record s { trace = tr })
      → users_table_find_by_client_fd (load_users (members_of name) s) x ≡ some u
      → notify_all_but_self (members_of name) m fd s ≡ fault deadlock (record s { trace = tr })
  unfolding notify_all_but_self drop_unreached each_room load_users continue
  notify_members-deadlock name m fd s tr x failed u locked sends known =
      rw (sends, drop_unreached, known, locked) refl
