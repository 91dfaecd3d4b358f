-- ===== src/UsersTable/Shared.antt =====
-- A users table that threads share: each operation holds the mutex throughout, so that what the
-- threads do is a sequence of operations, in any order.
use ojalvo_chat.Prelude.{
  ℕ, ◌≡◌, refl, ap, ◌∙◌, Bool, true, false, List, [], ◌∷◌, Option, none, some, Text, str_eq_refl,
  arith,
}
use ojalvo_chat.Glib.{Glib}
use ojalvo_chat.User.{User, Status, active, user_init}
use ojalvo_chat.UsersTable.{
  UsersTable, insert_user, users_table_init, users_table_add, users_table_add_with_status,
  users_table_change_status_by_username, users_table_change_status_by_client_fd, users_table_remove,
  users_table_destroy, users_table_find_by_username,
}
use ojalvo_chat.UsersTable.Invariant.{
  IsValid, users_table_init-IsValid, users_table_add-IsValid, users_table_add_with_status-IsValid,
  users_table_change_status_by_username-IsValid, users_table_change_status_by_client_fd-IsValid,
  users_table_remove-IsValid,
}
use ojalvo_chat.UsersTable.View.{fits, contains-find}
use ojalvo_chat.UsersTable.Directory.{add-directory}
use ojalvo_chat.UsersTable.Freeing.{users_table_destroy-none}

-- The operations that change a table, with their arguments.
pub data Operation : Type 0 where
  add : Text → ℕ → Operation
  add_with_status : Text → ℕ → Status → Operation
  change_status_by_username : Text → Status → Operation
  change_status_by_client_fd : ℕ → Status → Operation
  remove : Text → Operation

module _ ⦃G : Glib⦄ where
  abbrev pub perform : Operation → UsersTable → UsersTable × Bool
  perform (add n fd) t = users_table_add t n fd
  perform (add_with_status n fd s) t = users_table_add_with_status t n fd s
  perform (change_status_by_username n s) t = users_table_change_status_by_username t n s
  perform (change_status_by_client_fd fd s) t = users_table_change_status_by_client_fd t fd s
  perform (remove n) t = users_table_remove t n

  -- The table that the operations leave, the first one first.
  abbrev pub perform_all : List Operation → UsersTable → UsersTable
  perform_all [] t = t
  perform_all (o ∷ os) t = perform_all os (perform o t).0

  -- What the operations return.
  abbrev pub answers : List Operation → UsersTable → List Bool
  answers [] t = []
  answers (o ∷ os) t = (perform o t).1 ∷ answers os (perform o t).0

  pub perform-IsValid : (o : Operation) (t : UsersTable) → IsValid t → IsValid (perform o t).0
  perform-IsValid (add n fd) t v = users_table_add-IsValid t n fd v
  perform-IsValid (add_with_status n fd s) t v = users_table_add_with_status-IsValid t n fd s v
  perform-IsValid (change_status_by_username n s) t v =
      users_table_change_status_by_username-IsValid t n s v
  perform-IsValid (change_status_by_client_fd fd s) t v =
      users_table_change_status_by_client_fd-IsValid t fd s v
  perform-IsValid (remove n) t v = users_table_remove-IsValid t n v

  perform_all-IsValid :
      (os : List Operation) (t : UsersTable) → IsValid t → IsValid (perform_all os t)
  perform_all-IsValid [] t v = v
  perform_all-IsValid (o ∷ os) t v = perform_all-IsValid os (perform o t).0 (perform-IsValid o t v)

  -- The pointers are sound, and destroying the table frees every struct, and none twice.
  abbrev pub IsIntact : UsersTable → Type 0
  IsIntact t =
      IsValid t
      × ((rest : ℕ → Option User) × (users_table_destroy t ≡ some rest) × ((p : ℕ) → rest p ≡ none))

  -- Whatever operations threads perform on a new table of users, and in whatever order they get its
  -- mutex, the pointers of the table are sound, and destroying it frees every User struct, and none
  -- twice.
  pub perform_all-IsIntact : (os : List Operation) → IsIntact (perform_all os users_table_init)
  perform_all-IsIntact os =
      let v = perform_all-IsValid os users_table_init users_table_init-IsValid in
      (v, users_table_destroy-none (perform_all os users_table_init) v)

  -- The threads that ask for one name, each for its own descriptor.
  abbrev pub adds : Text → List ℕ → List Operation
  adds n [] = []
  adds n (fd ∷ fds) = add n fd ∷ adds n fds

  abbrev pub refused : List ℕ → List Bool
  refused [] = []
  refused (fd ∷ fds) = false ∷ refused fds

  add_taken :
      (t : UsersTable) (n : Text) (fd : ℕ) (u : User)
      → IsValid t
      → users_table_find_by_username t n ≡ some u
      → users_table_add t n fd ≡ (t, false)
  unfolding users_table_add user_init insert_user
  add_taken t n fd u v e = ground (arith, contains-find t n v, e)

  add_free :
      (t : UsersTable) (n : Text) (fd : ℕ)
      → IsValid t
      → fits n ≡ true
      → users_table_find_by_username t n ≡ none
      → (users_table_add t n fd).1 ≡ true
  unfolding users_table_add user_init insert_user
  add_free t n fd v f e = ground (arith, contains-find t n v, e, f)

  adds-refused :
      (t : UsersTable) (n : Text) (u : User) (fds : List ℕ)
      → IsValid t
      → users_table_find_by_username t n ≡ some u
      → (answers (adds n fds) t ≡ refused fds) × (perform_all (adds n fds) t ≡ t)
  adds-refused t n u [] v e = (refl, refl)
  adds-refused t n u (fd ∷ fds) v e =
      let (p, q) = adds-refused t n u fds v e in
      (
        ap (λ (r : UsersTable × Bool). r.1 ∷ answers (adds n fds) r.0) (add_taken t n fd u v e)
            ∙ ap (λ bs. false ∷ bs) p,
        ap (λ (r : UsersTable × Bool). perform_all (adds n fds) r.0) (add_taken t n fd u v e) ∙ q,
      )

  -- When threads add users of one free name, of a length that user_init takes, to a table with
  -- sound pointers, the first that gets the mutex succeeds, all others are refused, and the name
  -- finds the user of the first.
  pub adds-first :
      (t : UsersTable) (n : Text) (fd : ℕ) (fds : List ℕ)
      → IsValid t
      → fits n ≡ true
      → users_table_find_by_username t n ≡ none
      → (answers (adds n (fd ∷ fds)) t ≡ true ∷ refused fds)
        × (users_table_find_by_username (perform_all (adds n (fd ∷ fds)) t) n
            ≡ some (record { username = n; socket_fd = fd; status = active }))
  adds-first t n fd fds v f e =
      let (p, q) =
        adds-refused (users_table_add t n fd).0 n _ fds (users_table_add-IsValid t n fd v)
          entered in
      (
        ap (λ b. b ∷ answers (adds n fds) (users_table_add t n fd).0) (add_free t n fd v f e)
            ∙ ap (λ bs. true ∷ bs) p,
        ap (λ u. users_table_find_by_username u n) q ∙ entered,
      )
    where
      entered :
          users_table_find_by_username (users_table_add t n fd).0 n
          ≡ some (record { username = n; socket_fd = fd; status = active })
      entered = ap (λ d. d.by_name n) (add-directory t n fd v) ∙ ground (arith, f, e, str_eq_refl n)
