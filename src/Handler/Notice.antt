-- ===== src/Handler/Notice.antt =====
-- Who is still registered after a notice to all, from which the users that could not be reached
-- are dropped.
use ojalvo_chat.Prelude.{
  ℕ, ◌≡◌, inl, inr, ap, ◌∙◌, Bool, true, false, List, [], ◌∷◌, All, some, ◌==◌, if◌then◌else◌,
  arith, Option-cases, Bool-cases,
}
use ojalvo_chat.Glib.{Glib}
use ojalvo_chat.Cjson.{Cjson}
use ojalvo_chat.User.{User}
use ojalvo_chat.UsersTable.{users_table_find_by_client_fd}
use ojalvo_chat.UsersTable.Directory.{users_table_remove-directory}
use ojalvo_chat.Message.{Message}
use ojalvo_chat.Server.{Server}
use ojalvo_chat.Server.Monad.{Network}
use ojalvo_chat.Server.Ends.{Ends, returns, Ends-bind, Ends-mono}
use ojalvo_chat.Server.Invariant.{IsGood}
use ojalvo_chat.Handler.Notify.{server_users, drop_unreached, send_to_others, notify_all_but_self}
use ojalvo_chat.Handler.Effects.{forgotten, forgotten-IsGood, each_room-Ends, server_send-Ends}

module _ ⦃G : Glib⦄ where
  -- The state is good, and the descriptor is that of the user.
  pub record Knows (fd : ℕ) (u : User) (t : Server) : Type 0 where
    pub good : IsGood t
    pub known : users_table_find_by_client_fd t.users fd ≡ some u

  abbrev pub AllOthers : ℕ → List ℕ → Type 0
  AllOthers fd = All λ x. (x == fd) ≡ false

  pub forgotten-Knows :
      (fd x : ℕ) (u v : User) (t : Server)
      → Knows fd u t
      → (x == fd) ≡ false
      → users_table_find_by_client_fd t.users x ≡ some v
      → Knows fd u (forgotten t v.username)
  forgotten-Knows fd x u v t k d e = record {
    good = forgotten-IsGood t v.username k.good;
    known =
        ap (λ d. d.by_fd fd)
          (users_table_remove-directory t.users v.username k.good.inv.users.valid)
        ∙ (let (p, q) = k.good.inv.users.consistent.fds x v e in ground (arith, q, p, d, k.known));
  }

module _ ⦃G : Glib⦄ ⦃C : Cjson⦄ ⦃N : Network⦄ where
  pub drop_unreached-Knows :
      (fds : List ℕ) (fd : ℕ) (u : User) (t : Server)
      → AllOthers fd fds
      → Knows fd u t
      → Ends (λ f. ⊥) (λ _. Knows fd u) (drop_unreached server_users fds t)
  unfolding drop_unreached
  drop_unreached-Knows [] fd u t d k = returns k
  drop_unreached-Knows (x ∷ fds) fd u t (d, ds) k =
      elim (Option-cases (users_table_find_by_client_fd t.users x)) [
        | inl e ↦
            Ends-bind (returns (Ends-bind (rw e (returns (drop_unreached-Knows fds fd u t ds k)))))
        | inr (v, e) ↦ Ends-bind (
            returns (
              Ends-bind (
                rw e (
                  Ends-bind (
                    each_room-Ends (λ f. ⊥) _ _ t k.good.unlocked
                      (Ends-bind (
                        returns (
                          returns (
                            drop_unreached-Knows fds fd u (forgotten t v.username) ds
                              (forgotten-Knows fd x u v t k d e))))))))))
      ]

  pub send_to_others-AllOthers :
      (m : Message) (fd : ℕ) (us : List User) (s : Server) (u : User)
      → Knows fd u s
      → Ends (λ f. ⊥) (λ failed t. AllOthers fd failed × Knows fd u t) (send_to_others m fd us s)
  unfolding send_to_others
  send_to_others-AllOthers m fd [] s u k = returns (tt, k)
  send_to_others-AllOthers m fd (v ∷ us) s u k = elim (Bool-cases (v.socket_fd == fd)) [
    | inl e ↦ rw e (send_to_others-AllOthers m fd us s u k)
    | inr e ↦ rw e (
        Ends-bind (
          server_send-Ends (λ f. ⊥) _ v.socket_fd m s
            λ ok tr. Ends-bind (
              Ends-mono (λ failed t (d, l). returns (added ok failed e d, l))
                (send_to_others-AllOthers m fd us (record s { trace = tr }) u
                  (record {
                    good = record { inv = k.good.inv; unlocked = k.good.unlocked };
                    known = k.known;
                  })))))
  ]
    where
      added :
          (ok : Bool) (failed : List ℕ)
          → (v.socket_fd == fd) ≡ false
          → AllOthers fd failed
          → AllOthers fd (if ok then failed else v.socket_fd ∷ failed)
      added true failed e d = d
      added false failed e d = (e, d)

  -- Telling the others leaves a client registered.
  pub notify-Knows :
      (m : Message) (fd : ℕ) (u : User) (s : Server)
      → Knows fd u s
      → Ends (λ f. ⊥) (λ _. Knows fd u) (notify_all_but_self server_users m fd s)
  unfolding notify_all_but_self
  notify-Knows m fd u s k = Ends-bind (
      returns (
        Ends-bind (
          Ends-mono (λ failed t (d, l). drop_unreached-Knows failed fd u t d l)
            (send_to_others-AllOthers m fd _ s u k))))
