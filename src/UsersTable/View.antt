-- ===== src/UsersTable/View.antt =====
-- A directory of users by name and by descriptor, without pointers: what the operations of a users
-- table are to do, and the view of a table as a directory.
use ojalvo_chat.Prelude.{
  ℕ, ◌≡◌, not, Bool, Option, none, some, Text, str_eq, length, ltb, ◌==◌, ◌||◌, if◌then◌else◌,
  is_some, arith, Option-cases, inl, inr, refl, true, false,
}
use ojalvo_chat.Glib.{Glib}
use ojalvo_chat.User.{User, Status, username_max_length}
use ojalvo_chat.UsersTable.{
  UsersTable, deref, store, users_table_find_by_username, users_table_find_by_client_fd,
}
use ojalvo_chat.UsersTable.Invariant.{IsValid}

pub record Directory : Type 0 where
  pub by_name : Text → Option User
  pub by_fd : ℕ → Option User

-- A new user takes a free name; the descriptor then leads to the newest user that has it.
abbrev pub enter : Directory → User → Directory
enter d u = record {
  by_name = λ n.
      if is_some (d.by_name u.username)
      then d.by_name n
      else if str_eq u.username n
      then some u
      else d.by_name n;
  by_fd = λ fd.
      if is_some (d.by_name u.username)
      then d.by_fd fd
      else if u.socket_fd == fd
      then some u
      else d.by_fd fd;
}

-- The test of `user_init` on a name.
abbrev pub fits : Text → Bool
fits n = not (length n == 0 || ltb username_max_length (length n))

abbrev pub released : Option User → ℕ → Bool
released none fd = false
released (some u) fd = u.socket_fd == fd

abbrev pub leave : Directory → Text → Directory
leave d n = record {
  by_name = λ m. if str_eq n m then none else d.by_name m;
  by_fd = λ fd. if released (d.by_name n) fd then none else d.by_fd fd;
}

abbrev pub marked : Option User → Status → Option User
marked none s = none
marked (some u) s = some (record u { status = s })

abbrev pub named : Option User → Text → Bool
named none n = false
named (some u) n = str_eq u.username n

abbrev pub mark : Directory → ℕ → Status → Directory
mark d fd s = record {
  by_name = λ n. if named (d.by_fd fd) n then marked (d.by_fd fd) s else d.by_name n;
  by_fd = λ g. if fd == g then marked (d.by_fd fd) s else d.by_fd g;
}

module _ ⦃G : Glib⦄ where
  open G use {strings, ints}

  abbrev pub directory : UsersTable → Directory
  directory t = record {
    by_name = users_table_find_by_username t;
    by_fd = users_table_find_by_client_fd t;
  }

  pub directory_eq :
      (d e : Directory)
      → ((n : Text) → d.by_name n ≡ e.by_name n)
      → ((fd : ℕ) → d.by_fd fd ≡ e.by_fd fd)
      → d ≡ e
  directory_eq d e p q = λ i. record { by_name = λ n. p n i; by_fd = λ fd. q fd i }

  -- A pointer of the table of names is not NULL exactly when it finds a user.
  pub contains-find :
      (t : UsersTable) (n : Text)
      → IsValid t
      → is_some (users_table_find_by_username t n) ≡ is_some (strings.lookup t.table n)
  unfolding users_table_find_by_username
  contains-find t n v = elim (Option-cases (strings.lookup t.table n)) [
    | inl e ↦ rw e
    | inr (p, e) ↦ rw e (ground (arith, v.named n p e))
  ]

  -- A struct at a fresh address leaves what the old pointers lead to.
  pub deref-fresh :
      (t : UsersTable) (o : Option ℕ) (x : Option User)
      → ((p : ℕ) → o ≡ some p → is_some (t.heap p) ≡ true)
      → IsValid t
      → deref (record t { heap = store t.heap t.next x }) o ≡ deref t o
  deref-fresh t none x h v = refl
  deref-fresh t (some p) x h v = ground (arith, h p, v.allocated p)

  pub named_live :
      (t : UsersTable) (n : Text) (p : ℕ)
      → IsValid t
      → strings.lookup t.table n ≡ some p
      → is_some (t.heap p) ≡ true
  named_live t n p v e = ground (arith, v.named n p e)

  pub indexed_live :
      (t : UsersTable) (fd : ℕ) (p : ℕ)
      → IsValid t
      → ints.lookup t.table_by_fd fd ≡ some p
      → is_some (t.heap p) ≡ true
  indexed_live t n p v e = ground (arith, v.indexed n p e)
