-- ===== src/Server/Synced.antt =====
-- Sound tables, and tables of users that are registered in another: what the operations keep.
use ojalvo_chat.Prelude.{ℕ, ◌≡◌, none, some, Text, if_both}
use ojalvo_chat.Glib.{Glib}
use ojalvo_chat.User.{User, Status}
use ojalvo_chat.UsersTable.{
  UsersTable, users_table_init, users_table_find_by_username, users_table_find_by_client_fd,
  users_table_add_with_status, users_table_remove, users_table_change_status_by_client_fd,
  users_table_add,
}
use ojalvo_chat.UsersTable.Invariant.{
  IsValid, users_table_init-IsValid, users_table_add_with_status-IsValid,
  users_table_remove-IsValid, users_table_add-IsValid,
  users_table_change_status_by_client_fd-IsValid,
}
use ojalvo_chat.UsersTable.View.{directory, fits}
use ojalvo_chat.UsersTable.Directory.{
  users_table_remove-directory, change_status-directory, add_with_status-directory, add-directory,
  directory-init,
}
use ojalvo_chat.UsersTable.Consistent.{
  IsConsistent, Within, enter-IsConsistent, leave-IsConsistent, mark-IsConsistent, enter-Within,
  Within-enter, leave-Within, leave-Within_same, mark-Within, Within-fd,
}
use ojalvo_chat.Room.{Room}
use ojalvo_chat.RoomTable.{RoomTable, room_table_find}

module _ ⦃G : Glib⦄ where
  -- A table with sound pointers in which each user is found by its own name and descriptor.
  pub record IsSound (t : UsersTable) : Type 0 where
    pub valid : IsValid t
    pub consistent : IsConsistent (directory t)

  -- A sound table of users that are registered in `users`, with the same descriptor and status.
  pub record IsSynced (users t : UsersTable) : Type 0 where
    pub sound : IsSound t
    pub registered : Within (directory t) (directory users)

  pub record RoomIsSynced (users : UsersTable) (room : Room) : Type 0 where
    pub members : IsSynced users room.members
    pub guests : IsSynced users room.guests

  pub record Inv (us : UsersTable) (rs : RoomTable) : Type 0 where
    pub users : IsSound us
    pub rooms :
        (name : Text) (room : Room) → room_table_find rs name ≡ some room → RoomIsSynced us room

  pub remove-IsSound : (t : UsersTable) (n : Text) → IsSound t → IsSound (users_table_remove t n).0
  remove-IsSound t n h = record {
    valid = users_table_remove-IsValid t n h.valid;
    consistent =
        rw (users_table_remove-directory t n h.valid) (leave-IsConsistent _ n h.consistent);
  }

  pub change_status-IsSound :
      (t : UsersTable) (fd : ℕ) (s : Status)
      → IsSound t
      → IsSound (users_table_change_status_by_client_fd t fd s).0
  change_status-IsSound t fd s h = record {
    valid = users_table_change_status_by_client_fd-IsValid t fd s h.valid;
    consistent =
        rw (change_status-directory t fd s h.valid) (mark-IsConsistent _ fd s h.consistent);
  }

  pub users_table_init-IsSound : IsSound users_table_init
  users_table_init-IsSound = record {
    valid = users_table_init-IsValid;
    consistent = rw directory-init (record { names = λ n u e. cc; fds = λ fd u e. cc });
  }

  pub remove-IsSynced :
      (us t : UsersTable) (n : Text)
      → IsSound us
      → IsSynced us t
      → IsSynced (users_table_remove us n).0 (users_table_remove t n).0
  remove-IsSynced us t n u h = record {
    sound = remove-IsSound t n h.sound;
    registered =
        rw
          (
            users_table_remove-directory t n h.sound.valid,
            users_table_remove-directory us n u.valid,
          )
          (leave-Within _ _ n h.registered);
  }

  -- A user may leave a room and stay registered.
  pub remove-IsSynced_same :
      (us t : UsersTable) (n : Text) → IsSynced us t → IsSynced us (users_table_remove t n).0
  remove-IsSynced_same us t n h = record {
    sound = remove-IsSound t n h.sound;
    registered =
        rw (users_table_remove-directory t n h.sound.valid) (leave-Within_same _ _ n h.registered);
  }

  pub change_status-IsSynced :
      (us t : UsersTable) (fd : ℕ) (s : Status)
      → IsSound us
      → IsSynced us t
      → IsSynced
          (users_table_change_status_by_client_fd us fd s).0
          (users_table_change_status_by_client_fd t fd s).0
  change_status-IsSynced us t fd s u h = record {
    sound = change_status-IsSound t fd s h.sound;
    registered =
        rw (change_status-directory t fd s h.sound.valid, change_status-directory us fd s u.valid)
          (mark-Within _ _ fd s h.sound.consistent u.consistent h.registered);
  }

  pub users_table_init-IsSynced : (us : UsersTable) → IsSynced us users_table_init
  users_table_init-IsSynced us = record {
    sound = users_table_init-IsSound;
    registered = rw directory-init (record { at = λ n u e. cc });
  }

  -- A registered user enters a room's table.
  pub add-IsSynced :
      (us t : UsersTable) (u : User)
      → IsSound us
      → IsSynced us t
      → users_table_find_by_username us u.username ≡ some u
      → IsSynced us (users_table_add_with_status t u.username u.socket_fd u.status).0
  add-IsSynced us t u s h e = record {
    sound = record {
      valid = users_table_add_with_status-IsValid t u.username u.socket_fd u.status h.sound.valid;
      consistent = rw (add_with_status-directory t u.username u.socket_fd u.status h.sound.valid) (
          if_both IsConsistent (fits u.username) _ _
            (enter-IsConsistent _ u h.sound.consistent
              (Within-fd _ _ u h.sound.consistent s.consistent h.registered e))
            h.sound.consistent);
    };
    registered = rw (add_with_status-directory t u.username u.socket_fd u.status h.sound.valid) (
        if_both (λ d. Within d (directory us)) (fits u.username) _ _
          (enter-Within _ _ u h.registered e) h.registered);
  }

  -- A new user takes a free name on a free descriptor, and the rooms stay as they are.
  pub users_table_add-IsSound :
      (us : UsersTable) (n : Text) (fd : ℕ)
      → IsSound us
      → users_table_find_by_client_fd us fd ≡ none
      → IsSound (users_table_add us n fd).0
  users_table_add-IsSound us n fd s e = record {
    valid = users_table_add-IsValid us n fd s.valid;
    consistent = rw (add-directory us n fd s.valid) (
        if_both IsConsistent (fits n) _ _ (enter-IsConsistent _ _ s.consistent (λ _. e))
          s.consistent);
  }

  pub users_table_add-IsSynced :
      (us t : UsersTable) (n : Text) (fd : ℕ)
      → IsSound us
      → users_table_find_by_username us n ≡ none
      → IsSynced us t
      → IsSynced (users_table_add us n fd).0 t
  users_table_add-IsSynced us t n fd s e h = record {
    sound = h.sound;
    registered = rw (add-directory us n fd s.valid) (
        if_both (λ d. Within (directory t) d) (fits n) _ _ (Within-enter _ _ _ h.registered e)
          h.registered);
  }
