-- ===== src/Handler/Dropping.antt =====
-- Who is gone after the users that could not be reached are dropped.
use ojalvo_chat.Prelude.{
  ℕ, ◌≡◌, refl, ap, ◌∙◌, Bool, true, false, ◌||◌, List, [], ◌∷◌, none, some, Text, ◌==◌,
  if◌then◌else◌, arith, Option-cases, Bool-cases, inl, inr,
}
use ojalvo_chat.Glib.{Glib}
use ojalvo_chat.Cjson.{Cjson}
use ojalvo_chat.User.{User}
use ojalvo_chat.UsersTable.{users_table_find_by_client_fd, users_table_iter}
use ojalvo_chat.UsersTable.Directory.{users_table_remove-directory}
use ojalvo_chat.UsersTable.Listing.{find_named, users_table_iter-find}
use ojalvo_chat.Server.{Server}
use ojalvo_chat.Server.Monad.{Network}
use ojalvo_chat.Server.Ends.{Ends, returns, Ends-bind, Ends-mono}
use ojalvo_chat.Server.Invariant.{IsGood}
use ojalvo_chat.Handler.Notify.{server_users, drop_unreached}
use ojalvo_chat.Handler.Effects.{forgotten, forgotten-IsGood, each_room-Ends}

-- The descriptors of the others.
abbrev pub other_fds : ℕ → List User → List ℕ
other_fds fd [] = []
other_fds fd (u ∷ us) = if u.socket_fd == fd then other_fds fd us else u.socket_fd ∷ other_fds fd us

module _ ⦃G : Glib⦄ where
  abbrev pub has : ℕ → List ℕ → Bool
  has x [] = false
  has x (y ∷ ys) = x == y || has x ys

  pub record Drops (fds : List ℕ) (s t : Server) : Type 0 where
    pub good : IsGood t
    pub kept :
        (x : ℕ)
        → users_table_find_by_client_fd s.users x ≡ none
        → users_table_find_by_client_fd t.users x ≡ none
    pub gone : (x : ℕ) → has x fds ≡ true → users_table_find_by_client_fd t.users x ≡ none
    pub silent : t.trace ≡ s.trace

  pub forgotten-none_kept :
      (s : Server) (n : Text) (x : ℕ)
      → IsGood s
      → users_table_find_by_client_fd s.users x ≡ none
      → users_table_find_by_client_fd (forgotten s n).users x ≡ none
  forgotten-none_kept s n x g e =
      ap (λ d. d.by_fd x) (users_table_remove-directory s.users n g.inv.users.valid)
      ∙ ground (arith, e)

  pub forgotten-own :
      (s : Server) (x : ℕ) (u : User)
      → IsGood s
      → users_table_find_by_client_fd s.users x ≡ some u
      → users_table_find_by_client_fd (forgotten s u.username).users x ≡ none
  forgotten-own s x u g e =
      ap (λ d. d.by_fd x) (users_table_remove-directory s.users u.username g.inv.users.valid)
      ∙ (let (p, q) = g.inv.users.consistent.fds x u e in ground (arith, e, p, q))

  pub has_named :
      (us : List User) (n : Text) (v : User) (fd : ℕ)
      → find_named us n ≡ some v
      → (v.socket_fd == fd) ≡ false
      → has v.socket_fd (other_fds fd us) ≡ true
  has_named [] n v fd h d = cc
  has_named (u ∷ us) n v fd h d = ground (arith, has_named us n v fd)

  -- Every other descriptor that is known is on the list.
  pub has-other :
      (s : Server) (x fd : ℕ) (v : User)
      → IsGood s
      → users_table_find_by_client_fd s.users x ≡ some v
      → (x == fd) ≡ false
      → has x (other_fds fd (users_table_iter s.users)) ≡ true
  has-other s x fd v g e d =
      let (p, q) = g.inv.users.consistent.fds x v e in
      rw p at (
        has_named (users_table_iter s.users) v.username v fd
          ((users_table_iter-find s.users g.inv.users.valid).1 v.username ∙ q) (rw p d))

module _ ⦃G : Glib⦄ ⦃C : Cjson⦄ ⦃N : Network⦄ where
  pub drop_unreached-Drops :
      (fds : List ℕ) (s : Server)
      → IsGood s
      → Ends (λ f. ⊥) (λ _. Drops fds s) (drop_unreached server_users fds s)
  unfolding drop_unreached
  drop_unreached-Drops [] s g =
      returns (record { good = g; kept = λ x h. h; gone = λ x h. cc; silent = refl })
  drop_unreached-Drops (fd ∷ fds) s g =
      elim (Option-cases (users_table_find_by_client_fd s.users fd)) [
        | inl e ↦ Ends-bind (
            returns (
              Ends-bind (
                rw e (
                  returns (
                    Ends-mono
                      (λ _ t d. record {
                        good = d.good;
                        kept = d.kept;
                        gone = λ x h. elim (Bool-cases (x == fd)) [
                          | inl y ↦ d.kept x (ground (arith, e, y))
                          | inr y ↦ d.gone x (ground (arith, h, y))
                        ];
                        silent = d.silent;
                      })
                      (drop_unreached-Drops fds s g))))))
        | inr (u, e) ↦ Ends-bind (
            returns (
              Ends-bind (
                rw e (
                  Ends-bind (
                    each_room-Ends (λ f. ⊥) _ _ s g.unlocked
                      (Ends-bind (
                        returns (
                          returns (
                            Ends-mono
                              (λ _ t d. record {
                                good = d.good;
                                kept = λ x h. d.kept x (forgotten-none_kept s u.username x g h);
                                gone = λ x h. elim (Bool-cases (x == fd)) [
                                  | inl y ↦ d.kept x (ground (arith, forgotten-own s fd u g e, y))
                                  | inr y ↦ d.gone x (ground (arith, h, y))
                                ];
                                silent = d.silent;
                              })
                              (drop_unreached-Drops fds (forgotten s u.username)
                                (forgotten-IsGood s u.username g)))))))))))
      ]
