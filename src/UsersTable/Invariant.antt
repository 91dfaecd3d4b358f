-- ===== src/UsersTable/Invariant.antt =====
-- The pointers of a users table: none dangles, none is lost, and each operation keeps it so.
use ojalvo_chat.Prelude.{
  ℕ, ◌≡◌, ◌<◌, ◌⊎◌, refl, Option, none, some, Text, arith, str_eq_iff, Option-cases, inl, inr,
}
use ojalvo_chat.Glib.{Glib}
use ojalvo_chat.User.{User, Status, active, user_init}
use ojalvo_chat.UsersTable.{
  UsersTable, insert_user, set_status, users_table_init, users_table_add_with_status,
  users_table_remove, remove_found, users_table_add, users_table_change_status_by_client_fd,
  users_table_change_status_by_username,
}

-- The address holds a struct, and the struct satisfies `P`.
abbrev pub Live : Option User → (User → Type 0) → Type 0
Live none P = ⊥
Live (some u) P = P u

module _ ⦃G : Glib⦄ where
  open G use {strings, ints}

  pub record IsValid (t : UsersTable) : Type 0 where
    -- A name leads to a live struct with that name.
    pub named :
        (n : Text) (p : ℕ)
        → strings.lookup t.table n ≡ some p
        → Live (t.heap p) (λ u. u.username ≡ n)
    -- A descriptor leads to a live struct with that descriptor.
    pub indexed :
        (fd p : ℕ) → ints.lookup t.table_by_fd fd ≡ some p → Live (t.heap p) (λ u. u.socket_fd ≡ fd)
    -- A live struct is reached by its name, so none is lost.
    pub owned : (p : ℕ) (u : User) → t.heap p ≡ some u → strings.lookup t.table u.username ≡ some p
    pub allocated : (p : ℕ) → p < t.next ⊎ t.heap p ≡ none

  pub users_table_init-IsValid : IsValid users_table_init
  unfolding users_table_init
  users_table_init-IsValid = record {
    named = λ n p e. cc (strings.lookup-new {V = ℕ} n);
    indexed = λ fd p e. cc (ints.lookup-new {V = ℕ} fd);
    owned = λ p u e. cc;
    allocated = λ p. inr refl;
  }

  insert_user-IsValid :
      (t : UsersTable) (u : User) → IsValid t → IsValid (insert_user t u.username u).0
  unfolding insert_user
  insert_user-IsValid t u v = elim (Option-cases (strings.lookup t.table u.username)) [
    | inl e ↦ rw e (record {
      named = λ n p h. ground (
        arith,
        strings.lookup-insert t.table u.username t.next n,
        v.named n p,
        str_eq_iff u.username n,
        v.allocated p,
      );
      indexed = λ fd p h. ground (
        arith,
        ints.lookup-insert t.table_by_fd u.socket_fd t.next fd,
        v.indexed fd p,
        v.allocated p,
      );
      owned = λ p w h. ground (
        arith,
        strings.lookup-insert t.table u.username t.next w.username,
        v.owned p w,
        str_eq_iff u.username w.username,
      );
      allocated = λ p. ground (arith, v.allocated p);
    })
    | inr (q, e) ↦ rw e v
  ]

  pub users_table_add_with_status-IsValid :
      (t : UsersTable) (n : Text) (fd : ℕ) (s : Status)
      → IsValid t
      → IsValid (users_table_add_with_status t n fd s).0
  unfolding users_table_add_with_status user_init
  users_table_add_with_status-IsValid t n fd s v =
      ground (arith, insert_user-IsValid t (record { username = n; socket_fd = fd; status = s }) v)

  set_status-IsValid :
      (t : UsersTable) (o : Option ℕ) (s : Status) → IsValid t → IsValid (set_status t o s).0
  unfolding set_status
  set_status-IsValid t none s v = v
  set_status-IsValid t (some q) s v = elim (Option-cases (t.heap q)) [
    | inl e ↦ rw (e, set_status) v
    | inr (u, e) ↦
        rw (e, set_status)
          (record {
            named = λ n p h. ground (arith, v.named n p h);
            indexed = λ fd p h. ground (arith, v.indexed fd p h);
            owned = λ p w h. ground (arith, v.owned p w, v.owned q u);
            allocated = λ p. ground (arith, v.allocated p);
          })
  ]

  -- Removing a user keeps the pointers of a users table sound: none dangles and none is lost.
  pub users_table_remove-IsValid :
      (t : UsersTable) (n : Text) → IsValid t → IsValid (users_table_remove t n).0
  unfolding users_table_remove
  users_table_remove-IsValid t n v = elim (Option-cases (strings.lookup t.table n)) [
    | inl e ↦ rw e v
    | inr (q, e) ↦ elim (Option-cases (t.heap q)) [
      | inl f ↦ ground (arith, v.named n q e)
      | inr (u, f) ↦
          rw (e, remove_found, f)
            (record {
              named = λ m p h. ground (
                arith,
                strings.lookup-remove t.table n m,
                v.named m p,
                v.named n q e,
                str_eq_iff n m,
              );
              indexed = λ fd p h.
                  ground (arith, ints.lookup-remove t.table_by_fd u.socket_fd fd, v.indexed fd p);
              owned = λ p w h. ground (
                arith,
                strings.lookup-remove t.table n w.username,
                v.owned p w,
                str_eq_iff n w.username,
              );
              allocated = λ p. ground (arith, v.allocated p);
            })
    ]
  ]

  -- Adding a user keeps the pointers of a users table sound, also where the name is taken or the
  -- descriptor is in use.
  pub users_table_add-IsValid :
      (t : UsersTable) (n : Text) (fd : ℕ) → IsValid t → IsValid (users_table_add t n fd).0
  unfolding users_table_add user_init
  users_table_add-IsValid t n fd v =
      ground
        (arith, insert_user-IsValid t (record { username = n; socket_fd = fd; status = active }) v)

  pub users_table_change_status_by_client_fd-IsValid :
      (t : UsersTable) (fd : ℕ) (s : Status)
      → IsValid t
      → IsValid (users_table_change_status_by_client_fd t fd s).0
  unfolding users_table_change_status_by_client_fd
  users_table_change_status_by_client_fd-IsValid t fd s v = set_status-IsValid t _ s v

  -- Setting a status by name keeps the pointers of a users table sound.
  pub users_table_change_status_by_username-IsValid :
      (t : UsersTable) (n : Text) (s : Status)
      → IsValid t
      → IsValid (users_table_change_status_by_username t n s).0
  unfolding users_table_change_status_by_username
  users_table_change_status_by_username-IsValid t n s v = set_status-IsValid t _ s v
