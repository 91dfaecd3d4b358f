-- ===== src/UsersTable.antt =====
-- server/src/users_table.c: users by name and by descriptor. Both hash tables hold pointers to
-- the same `User` structs, so the structs stand in a heap and the tables hold addresses.
-- Each function locks the table's mutex around its body and calls nothing that locks it again, so
-- it is one atomic step here; `malloc` and `g_strdup` are taken to succeed.
pub mod Invariant
pub mod View
pub mod Directory
pub mod Consistent
pub mod Listing
pub mod Freeing
pub mod Shared
use mathlib.Core.List.{filter_map}
use ojalvo_chat.Prelude.{
  ℕ, ◌+◌, Bool, true, false, List, [], ◌∷◌, Option, none, some, Text, ◌==◌, is_some, if◌then◌else◌,
  length,
}
use ojalvo_chat.Glib.{Glib}
use ojalvo_chat.User.{User, Status, user_init}

module _ ⦃G : Glib⦄ where
  open G use {strings, ints}

  pub record UsersTable : Type 0 where
    pub table : strings.Table ℕ
    pub table_by_fd : ints.Table ℕ
    pub heap : ℕ → Option User
    -- The next address that `malloc` gives.
    pub next : ℕ

  unfoldable pub users_table_init : UsersTable
  users_table_init = record {
    table = strings.new;
    table_by_fd = ints.new;
    heap = λ p. none;
    next = 0;
  }

  -- `*found`, where `found` is what a lookup returned.
  abbrev pub deref : UsersTable → Option ℕ → Option User
  deref t none = none
  deref t (some p) = t.heap p

  abbrev pub store : (ℕ → Option User) → ℕ → Option User → ℕ → Option User
  store heap p u q = if p == q then u else heap q

  insert_user : UsersTable → Text → User → UsersTable × Bool
  insert_user t username user = if is_some (strings.lookup t.table username) then (t, false) else (
    record t {
      table = strings.insert t.table username t.next;
      table_by_fd = ints.insert t.table_by_fd user.socket_fd t.next;
      heap = store t.heap t.next (some user);
      next = t.next + 1;
    },
    true,
  )

  unfoldable pub users_table_add : UsersTable → Text → ℕ → UsersTable × Bool
  unfolding insert_user
  users_table_add t username socket_fd = elim (user_init (some username) socket_fd) [
    | none ↦ (t, false)
    | some user ↦ insert_user t username user
  ]

  unfoldable pub users_table_add_with_status : UsersTable → Text → ℕ → Status → UsersTable × Bool
  unfolding insert_user
  users_table_add_with_status t username socket_fd status =
      elim (user_init (some username) socket_fd) [
        | none ↦ (t, false)
        | some user ↦ insert_user t username (record user { status = status })
      ]

  unfoldable pub users_table_contains_by_username : UsersTable → Text → Bool
  users_table_contains_by_username t username = is_some (strings.lookup t.table username)

  unfoldable pub users_table_contains_by_client_fd : UsersTable → ℕ → Bool
  users_table_contains_by_client_fd t client_fd = is_some (ints.lookup t.table_by_fd client_fd)

  -- The copy that is written to `*out_user`, or `none` where the function returns false.
  unfoldable pub users_table_find_by_username : UsersTable → Text → Option User
  users_table_find_by_username t username = deref t (strings.lookup t.table username)

  unfoldable pub users_table_find_by_client_fd : UsersTable → ℕ → Option User
  users_table_find_by_client_fd t client_fd = deref t (ints.lookup t.table_by_fd client_fd)

  -- `if (exists) found->status = status;`
  set_status : UsersTable → Option ℕ → Status → UsersTable × Bool
  set_status t none status = (t, false)
  set_status t (some p) status = elim (t.heap p) [
    | none ↦ (t, true)
    | some user ↦
        (record t { heap = store t.heap p (some (record user { status = status })) }, true)
  ]

  unfoldable pub users_table_change_status_by_username :
      UsersTable → Text → Status → UsersTable × Bool
  unfolding set_status
  users_table_change_status_by_username t username status =
      set_status t (strings.lookup t.table username) status

  unfoldable pub users_table_change_status_by_client_fd :
      UsersTable → ℕ → Status → UsersTable × Bool
  unfolding set_status
  users_table_change_status_by_client_fd t client_fd status =
      set_status t (ints.lookup t.table_by_fd client_fd) status

  -- The table of names owns the structs: dropping an entry frees the struct.
  remove_found : UsersTable → Text → Option ℕ → UsersTable × Bool
  remove_found t username none = (t, false)
  remove_found t username (some p) = elim (t.heap p) [
    | none ↦ (record t { table = strings.remove t.table username }, true)
    | some found ↦ (
      record t {
        table_by_fd = ints.remove t.table_by_fd found.socket_fd;
        table = strings.remove t.table username;
        heap = store t.heap p none;
      },
      true,
    )
  ]

  unfoldable pub users_table_remove : UsersTable → Text → UsersTable × Bool
  unfolding remove_found
  users_table_remove t username = remove_found t username (strings.lookup t.table username)

  -- The users in the order in which `users_table_iter_next` copies them out, and in which
  -- `users_table_for_each` visits them.
  unfoldable pub users_table_iter : UsersTable → List User
  users_table_iter t = filter_map (λ e. t.heap e.1) (strings.entries t.table)

  -- `g_hash_table_size(users->table)`
  unfoldable pub users_table_size : UsersTable → ℕ
  users_table_size t = length (strings.entries t.table)

  -- `free` of the values of a hash table's pairs; `none` where one is not allocated, as after a
  -- first `free` of it.
  free_values : List (Text × ℕ) → (ℕ → Option User) → Option (ℕ → Option User)
  free_values [] heap = some heap
  free_values ((username, p) ∷ rest) heap =
      let freed = free_values rest (store heap p none) in
      elim (heap p) [ none ↦ none | some user ↦ freed ]

  -- The heap that is left, or `none` where a struct would be freed twice.
  unfoldable pub users_table_destroy : UsersTable → Option (ℕ → Option User)
  unfolding free_values
  users_table_destroy t = free_values (strings.entries t.table) t.heap
