-- ===== src/MainProgram.antt =====
-- server/src/main.c: the main thread, from the command line to the end of the program. The calls of
-- `accept` are a list of attempts; at its end the thread still waits.
pub mod Protocol
pub mod Run
pub mod Descriptors
use ojalvo_chat.Prelude.{
  ℕ, Bool, true, false, List, [], ◌∷◌, Option, none, some, Text, if◌then◌else◌,
}
use ojalvo_chat.Glib.{Glib}
use ojalvo_chat.Options.{ℤ, pos, negsuc, Libc, server_parse_args, server_resolve_port}
use ojalvo_chat.Server.Monad.{pure, ◌>>=◌, ◌>>◌}
use ojalvo_chat.Listener.{
  Attempt, arrived, failed, Kernel, Listener, Main, call, thread_started, fd_closed,
  sigpipe_ignored, sigint_handled, server_init, server_bind_and_listen, server_accept_client,
  server_close,
}

-- EXIT_SUCCESS and EXIT_FAILURE
pub data ExitCode : Type 0 where
  exit_success exit_failure : ExitCode

-- `g_shutdown_requested` after an attempt.
abbrev pub shutdown_requested : Attempt → Bool
shutdown_requested (arrived client_fd a s) = false
shutdown_requested (failed i shutdown) = shutdown

-- `errno == EINTR` after an attempt.
abbrev pub interrupted : Attempt → Bool
interrupted (arrived client_fd a s) = false
interrupted (failed i shutdown) = i

-- Whether `malloc` succeeds after an attempt.
abbrev pub allocated : Attempt → Bool
allocated (arrived client_fd a s) = a
allocated (failed i shutdown) = false

-- Whether `pthread_create` succeeds after an attempt.
abbrev pub started : Attempt → Bool
started (arrived client_fd a s) = s
started (failed i shutdown) = false

-- A thread for the new client; without one, its descriptor is closed.
unfoldable pub start_client : ℕ → Attempt → Main (Unit {0})
start_client client_fd attempt =
    if allocated attempt
    then if started attempt then call (thread_started client_fd) else call (fd_closed client_fd)
    else call (fd_closed client_fd)

module _ ⦃G : Glib⦄ where
  -- The loop: whether the thread has left it.
  unfoldable pub accept_loop : List Attempt → Listener → Main Bool
  accept_loop [] listener = pure false
  accept_loop (attempt ∷ attempts) listener =
      let rest = accept_loop attempts listener in
      (do
        result ← server_accept_client listener attempt
        elim result [
          | pos client_fd ↦ (do start_client client_fd attempt; rest)
          | negsuc n ↦
              if shutdown_requested attempt
              then pure true
              else if interrupted attempt
              then rest
              else pure true
        ])

  -- The main thread from the call of server_bind_and_listen on.
  unfoldable pub serve : ⦃K : Kernel⦄ → List Attempt → Listener → Main (Option ExitCode)
  serve ⦃K⦄ attempts listener = do
    ready ← server_bind_and_listen listener K.somaxconn
    (if ready
        then (do
          call sigpipe_ignored
          call sigint_handled
          left ← accept_loop attempts listener
          (if left then (do server_close listener; pure (some exit_success)) else pure none))
        else (do server_close listener; pure (some exit_failure)))

  -- The exit code, or `none` where the thread still waits for a client.
  unfoldable pub main : ⦃L : Libc⦄ ⦃K : Kernel⦄ → List Text → List Attempt → Main (Option ExitCode)
  main argv attempts =
      let options = server_parse_args argv in
      if options.show_help then pure (some exit_success) else (do
        initialised ← server_init (server_resolve_port options) options.log_enabled
        elim initialised [
          | none ↦ pure (some exit_failure)
          | some listener ↦ serve attempts listener
        ])
