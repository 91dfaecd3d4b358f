-- ===== src/UsersTable/Consistent.antt =====
-- Directories whose two views agree, and a directory within another: what the operations keep.
use ojalvo_chat.Prelude.{ℕ, ◌≡◌, none, some, Text, str_eq_iff, arith, Option-cases, inl, inr}
use ojalvo_chat.User.{User, Status}
use ojalvo_chat.UsersTable.View.{Directory, enter, leave, mark}

-- Each user is found by its own name and descriptor, and by no other.
pub record IsConsistent (d : Directory) : Type 0 where
  pub names :
      (n : Text) (u : User)
      → d.by_name n ≡ some u
      → (u.username ≡ n) × (d.by_fd u.socket_fd ≡ some u)
  pub fds :
      (fd : ℕ) (u : User)
      → d.by_fd fd ≡ some u
      → (u.socket_fd ≡ fd) × (d.by_name u.username ≡ some u)

-- Every user of the first is the same user in the second.
pub record Within (m d : Directory) : Type 0 where
  pub at : (n : Text) (u : User) → m.by_name n ≡ some u → d.by_name n ≡ some u

pub enter-IsConsistent :
    (d : Directory) (u : User)
    → IsConsistent d
    → (d.by_name u.username ≡ none → d.by_fd u.socket_fd ≡ none)
    → IsConsistent (enter d u)
enter-IsConsistent d u c free = elim (Option-cases (d.by_name u.username)) [
  | inr (w, e) ↦ record {
    names = λ n x h. ground (arith, e, c.names n x);
    fds = λ fd x h. ground (arith, e, c.fds fd x);
  }
  | inl e ↦ record {
    names = λ n x h. ground (arith, e, free e, c.names n x, str_eq_iff u.username n);
    fds = λ fd x h. ground (arith, e, free e, c.fds fd x, str_eq_iff u.username x.username);
  }
]

pub leave-IsConsistent : (d : Directory) (n : Text) → IsConsistent d → IsConsistent (leave d n)
leave-IsConsistent d n c = elim (Option-cases (d.by_name n)) [
  | inl e ↦ record {
    names = λ m x h. ground (arith, e, c.names m x, str_eq_iff n m);
    fds = λ fd x h. ground (arith, e, c.fds fd x, str_eq_iff n x.username);
  }
  | inr (u, e) ↦ record {
    names = λ m x h. ground (arith, e, c.names m x, c.names n u e, str_eq_iff n m);
    fds = λ fd x h. ground (arith, e, c.fds fd x, c.names n u e, str_eq_iff n x.username);
  }
]

pub mark-IsConsistent :
    (d : Directory) (fd : ℕ) (s : Status) → IsConsistent d → IsConsistent (mark d fd s)
mark-IsConsistent d fd s c = elim (Option-cases (d.by_fd fd)) [
  | inl e ↦ record {
    names = λ n x h. ground (arith, e, c.names n x);
    fds = λ g x h. ground (arith, e, c.fds g x);
  }
  | inr (u, e) ↦ record {
    names = λ n x h. ground (arith, e, c.names n x, c.fds fd u e, str_eq_iff u.username n);
    fds = λ g x h. ground (arith, e, c.fds g x, c.fds fd u e, str_eq_iff u.username x.username);
  }
]

pub enter-Within :
    (m d : Directory) (u : User) → Within m d → d.by_name u.username ≡ some u → Within (enter m u) d
enter-Within m d u w h = record { at = λ n x e. ground (arith, w.at n x, str_eq_iff u.username n) }

pub Within-enter :
    (m d : Directory) (u : User) → Within m d → d.by_name u.username ≡ none → Within m (enter d u)
Within-enter m d u w h = record {
  at = λ n x e. ground (arith, w.at n x e, str_eq_iff u.username n);
}

pub leave-Within : (m d : Directory) (n : Text) → Within m d → Within (leave m n) (leave d n)
leave-Within m d n w = record { at = λ k x e. ground (arith, w.at k x) }

pub leave-Within_same : (m d : Directory) (n : Text) → Within m d → Within (leave m n) d
leave-Within_same m d n w = record { at = λ k x e. ground (arith, w.at k x) }

pub mark-Within :
    (m d : Directory) (fd : ℕ) (s : Status)
    → IsConsistent m
    → IsConsistent d
    → Within m d
    → Within (mark m fd s) (mark d fd s)
mark-Within m d fd s c k w = record { at = at }
  where
    at : (n : Text) (x : User) → (mark m fd s).by_name n ≡ some x → (mark d fd s).by_name n ≡ some x
    at n x e = elim (Option-cases (m.by_fd fd)) [
      | inr (u, f) ↦ ground (
        arith,
        f,
        c.fds fd u f,
        w.at u.username u,
        k.names u.username u,
        w.at n x,
        str_eq_iff u.username n,
      )
      | inl f ↦ elim (Option-cases (d.by_fd fd)) [
        | inl g ↦ ground (arith, f, g, w.at n x)
        | inr (y, g) ↦
            ground (arith, f, g, c.names n x, w.at n x, k.fds fd y g, str_eq_iff y.username n)
      ]
    ]

-- In a directory within a consistent one, a descriptor that is taken is taken by the same user.
pub Within-fd :
    (m d : Directory) (u : User)
    → IsConsistent m
    → IsConsistent d
    → Within m d
    → d.by_name u.username ≡ some u
    → m.by_name u.username ≡ none
    → m.by_fd u.socket_fd ≡ none
Within-fd m d u c k w h e = elim (Option-cases (m.by_fd u.socket_fd)) [
  | inl f ↦ f
  | inr (x, f) ↦ ground (
    arith,
    c.fds u.socket_fd x f,
    w.at x.username x,
    k.names x.username x,
    k.names u.username u h,
  )
]
