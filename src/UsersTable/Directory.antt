-- ===== src/UsersTable/Directory.antt =====
-- The operations of a users table do to the directory that it shows what they promise.
use ojalvo_chat.Prelude.{
  ℕ, ◌≡◌, none, some, Text, str_eq, ◌==◌, if◌then◌else◌, arith, str_eq_iff, Option-cases, inl, inr,
}
use ojalvo_chat.Glib.{Glib}
use ojalvo_chat.User.{User, Status, active, user_init}
use ojalvo_chat.UsersTable.{
  UsersTable, insert_user, set_status, remove_found, users_table_init, users_table_add,
  users_table_add_with_status, users_table_find_by_username, users_table_find_by_client_fd,
  users_table_remove, users_table_change_status_by_client_fd,
}
use ojalvo_chat.UsersTable.Invariant.{IsValid}
use ojalvo_chat.UsersTable.View.{
  enter, fits, released, leave, marked, named, mark, directory, directory_eq, contains-find,
  deref-fresh, named_live, indexed_live,
}

module _ ⦃G : Glib⦄ where
  open G use {strings, ints}

  insert_user-directory :
      (t : UsersTable) (u : User)
      → IsValid t
      → directory (insert_user t u.username u).0 ≡ enter (directory t) u
  unfolding users_table_find_by_username users_table_find_by_client_fd insert_user
  insert_user-directory t u v =
      directory_eq _ _
        (λ n. ground (
          arith,
          strings.lookup-insert t.table u.username t.next n,
          contains-find t u.username v,
          deref-fresh t (strings.lookup t.table n) (some u) (λ p. named_live t n p v) v,
        ))
        (λ fd. ground (
          arith,
          ints.lookup-insert t.table_by_fd u.socket_fd t.next fd,
          contains-find t u.username v,
          deref-fresh t (ints.lookup t.table_by_fd fd) (some u) (λ p. indexed_live t fd p v) v,
        ))

  module _ (t : UsersTable) (n : Text) (q : ℕ) (v : IsValid t)
      (e : strings.lookup t.table n ≡ some q) where
    by_name-remove :
        (m : Text)
        → users_table_find_by_username (remove_found t n (some q)).0 m
          ≡ (if str_eq n m then none else users_table_find_by_username t m)
    unfolding users_table_find_by_username remove_found
    by_name-remove m = elim (Option-cases (strings.lookup t.table m)) [
      | inl f ↦ ground (arith, strings.lookup-remove t.table n m, v.named n q e)
      | inr (p, f) ↦
          ground
            (arith, strings.lookup-remove t.table n m, v.named m p f, v.named n q e, str_eq_iff n m)
    ]

    by_fd-remove :
        (fd : ℕ)
        → users_table_find_by_client_fd (remove_found t n (some q)).0 fd
          ≡ (if released (t.heap q) fd then none else users_table_find_by_client_fd t fd)
    unfolding users_table_find_by_client_fd remove_found
    by_fd-remove fd = elim (Option-cases (t.heap q)) [
      | inl g ↦ ground (arith, v.named n q e)
      | inr (u, g) ↦ elim (Option-cases (ints.lookup t.table_by_fd fd)) [
        | inl f ↦ ground (arith, f, g, ints.lookup-remove t.table_by_fd u.socket_fd fd)
        | inr (p, f) ↦
            ground (arith, g, ints.lookup-remove t.table_by_fd u.socket_fd fd, v.indexed fd p f)
      ]
    ]

  -- On a table with sound pointers, users_table_remove does to searches by name and by descriptor
  -- what `leave` does to a directory: the name finds nothing any more, nor does the descriptor of
  -- the user that had it, and all other searches find what they found.
  pub users_table_remove-directory :
      (t : UsersTable) (n : Text)
      → IsValid t
      → directory (users_table_remove t n).0 ≡ leave (directory t) n
  unfolding users_table_find_by_username users_table_find_by_client_fd users_table_remove
  users_table_remove-directory t n v = elim (Option-cases (strings.lookup t.table n)) [
    | inl e ↦ directory_eq _ _ (λ m. ground (arith, e, str_eq_iff n m)) (λ fd. ground (arith, e))
    | inr (q, e) ↦
        directory_eq _ _ (λ m. ground (arith, e, by_name-remove t n q v e m))
          (λ fd. ground (arith, e, by_fd-remove t n q v e fd))
  ]

  module _ (t : UsersTable) (q : ℕ) (s : Status) (v : IsValid t) where
    by_name-set_status :
        (n : Text)
        → users_table_find_by_username (set_status t (some q) s).0 n
          ≡ (if named (t.heap q) n then marked (t.heap q) s else users_table_find_by_username t n)
    unfolding users_table_find_by_username set_status
    by_name-set_status n = elim (Option-cases (t.heap q)) [
      | inl g ↦ ground (arith, g)
      | inr (u, g) ↦ elim (Option-cases (strings.lookup t.table n)) [
        | inl f ↦ ground (arith, g, f, v.owned q u g, str_eq_iff u.username n)
        | inr (p, f) ↦ ground (arith, g, f, v.owned q u g, v.named n p f, str_eq_iff u.username n)
      ]
    ]

    by_fd-set_status :
        (fd : ℕ)
        → ints.lookup t.table_by_fd fd ≡ some q
        → (g : ℕ)
        → users_table_find_by_client_fd (set_status t (some q) s).0 g
          ≡ (if fd == g then marked (t.heap q) s else users_table_find_by_client_fd t g)
    unfolding users_table_find_by_client_fd set_status
    by_fd-set_status fd e g = elim (Option-cases (ints.lookup t.table_by_fd g)) [
      | inl f ↦ ground (arith, e, f, v.indexed fd q e)
      | inr (p, f) ↦ ground (arith, e, f, v.indexed fd q e, v.indexed g p f)
    ]

  -- On a table with sound pointers, users_table_change_status_by_client_fd does what `mark` does to
  -- a directory: the status set by descriptor is the one that a search by name finds as well, and
  -- no other user changes.
  pub change_status-directory :
      (t : UsersTable) (fd : ℕ) (s : Status)
      → IsValid t
      → directory (users_table_change_status_by_client_fd t fd s).0 ≡ mark (directory t) fd s
  unfolding users_table_find_by_username users_table_find_by_client_fd
      users_table_change_status_by_client_fd
  change_status-directory t fd s v = elim (Option-cases (ints.lookup t.table_by_fd fd)) [
    | inl e ↦ directory_eq _ _ (λ n. ground (arith, e)) (λ g. ground (arith, e))
    | inr (q, e) ↦
        directory_eq _ _ (λ n. ground (arith, e, by_name-set_status t q s v n))
          (λ g. ground (arith, e, by_fd-set_status t q s v fd e g))
  ]

  -- On a table with sound pointers, users_table_add_with_status does what `enter` does to a
  -- directory with a user of that status, if the name is of a length that user_init takes;
  -- otherwise, and for a name that is taken, all searches find what they found.
  pub add_with_status-directory :
      (t : UsersTable) (n : Text) (fd : ℕ) (s : Status)
      → IsValid t
      → directory (users_table_add_with_status t n fd s).0 ≡ (
          if fits n
          then enter (directory t) (record { username = n; socket_fd = fd; status = s })
          else directory t)
  unfolding users_table_add_with_status user_init
  add_with_status-directory t n fd s v =
      ground
        (arith, insert_user-directory t (record { username = n; socket_fd = fd; status = s }) v)

  -- On a table with sound pointers, users_table_add does what `enter` does to a directory with a
  -- new active user, if the name is of a length that user_init takes; otherwise, and for a name
  -- that is taken, all searches find what they found.
  pub add-directory :
      (t : UsersTable) (n : Text) (fd : ℕ)
      → IsValid t
      → directory (users_table_add t n fd).0 ≡ (
          if fits n
          then enter (directory t) (record { username = n; socket_fd = fd; status = active })
          else directory t)
  unfolding users_table_add user_init
  add-directory t n fd v =
      ground (
        arith,
        insert_user-directory t (record { username = n; socket_fd = fd; status = active }) v,
      )

  pub directory-init :
      directory users_table_init ≡ record { by_name = λ n. none; by_fd = λ fd. none }
  unfolding users_table_init users_table_find_by_username users_table_find_by_client_fd
  directory-init =
      directory_eq _ _ (λ n. ground (arith, strings.lookup-new {V = ℕ} n))
        (λ fd. ground (arith, ints.lookup-new {V = ℕ} fd))
