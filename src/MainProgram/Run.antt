-- ===== src/MainProgram/Run.antt =====
-- What the main thread asks of the kernel, in order, and when it ends.
use mathlib.Core.Path.{subst}
use ojalvo_chat.Prelude.{
  ℕ, ◌≤◌, ◌%◌, ◌^◌, ◌≡◌, refl, ap, Bool, true, false, List, [], ◌∷◌, Option, none, some, Text,
  if◌then◌else◌, arith, Option-cases, Bool-cases, inl, inr,
}
use ojalvo_chat.Glib.{Glib}
use ojalvo_chat.Options.{Libc, server_parse_args, server_resolve_port}
use ojalvo_chat.Options.Port.{server_resolve_port-bounds}
use ojalvo_chat.Server.{initial_server}
use ojalvo_chat.Server.Monad.{pure, continue, ◌>>◌, ◌>>=◌}
use ojalvo_chat.Server.Ends.{Ends, returns, Ends-bind, Ends-mono}
use ojalvo_chat.Listener.{
  Call, socket_opened, Attempt, Kernel, Listener, server_init, server_bind_and_listen, server_close,
}
use ojalvo_chat.MainProgram.{ExitCode, exit_success, exit_failure, serve, main}
use ojalvo_chat.MainProgram.Protocol.{
  Serving, Run, stopped_by, accept_loop-Serving, ready, helped, no_socket, not_bound, not_listening,
  waits, finishes,
}

module _ ⦃G : Glib⦄ where
  -- How the loop's end becomes the exit code.
  abbrev pub exit_when : Bool → Option ExitCode
  exit_when left = if left then some exit_success else none

  -- The exit code of a server with a socket, as `bind`, `listen` and the attempts decide.
  abbrev pub served_exit : ⦃K : Kernel⦄ → ℕ → ℕ → List Attempt → Option ExitCode
  served_exit ⦃K⦄ fd port attempts =
      if K.bind fd port
      then if K.listen fd K.somaxconn then exit_when (stopped_by attempts) else some exit_failure
      else some exit_failure

  -- The exit code of a run.
  abbrev pub expected_exit : ⦃K : Kernel⦄ → Bool → ℕ → List Attempt → Option ExitCode
  expected_exit ⦃K⦄ help port attempts =
      if help
      then some exit_success
      else elim K.socket [ none ↦ some exit_failure | some fd ↦ served_exit fd port attempts ]

  finish :
      (left stopped : Bool) (l : Listener) (fd port : ℕ) (tr : List Call)
      → l.socket_fd ≡ some fd
      → left ≡ stopped
      → Serving fd port tr
      → Ends
          (λ f. ⊥)
          (λ code tr. (code ≡ exit_when stopped) × Run port code tr)
          ((if left then (server_close l >> pure (some exit_success)) else pure none) tr)
  unfolding server_close
  finish true b l fd port tr e k h =
      rw e (Ends-bind (Ends-bind (returns (returns (returns (ap exit_when k, finishes fd h))))))
  finish false b l fd port tr e k h = returns (ap exit_when k, waits fd h)

  module _ ⦃K : Kernel⦄ where
    serve-Run :
        (attempts : List Attempt) (l : Listener) (fd : ℕ)
        → l.socket_fd ≡ some fd
        → Ends
            (λ f. ⊥)
            (λ code tr. (code ≡ served_exit fd l.sin_port attempts) × Run l.sin_port code tr)
            (serve attempts l (socket_opened fd ∷ []))
    unfolding serve server_bind_and_listen server_close continue
    serve-Run attempts l fd e = elim (Bool-cases (K.bind fd l.sin_port)) [
      | inr b ↦ rw (e, b) (returns (refl, not_bound fd))
      | inl b ↦ elim (Bool-cases (K.listen fd K.somaxconn)) [
        | inr c ↦ rw (e, b, c) (returns (refl, not_listening fd K.somaxconn))
        | inl c ↦
            rw (e, b, c)
              (Ends-bind (
                Ends-mono
                  (λ left tr (p, q).
                    finish left (stopped_by attempts) (record l { socket_fd = some fd }) fd
                      l.sin_port tr refl p q)
                  (accept_loop-Serving attempts (record l { socket_fd = some fd }) fd l.sin_port _
                    (ready K.somaxconn))))
      ]
    ]

    small_port : (p : ℕ) → p ≤ 65535 → p % 2 ^ 16 ≡ p
    small_port p h = omega (arith, h)

    abbrev opened_on : ℕ → Bool → ℕ → Listener
    opened_on port log fd = record {
      socket_fd = some fd;
      port = port;
      log_enabled = log;
      sin_port = port % 2 ^ 16;
      server = initial_server;
    }

    start_up :
        (help log : Bool) (port : ℕ) (attempts : List Attempt)
        → port ≤ 65535
        → Ends
            (λ f. ⊥)
            (λ code tr. (code ≡ expected_exit help port attempts) × Run port code tr)
            ((if help
                then pure (some exit_success)
                else server_init port log >>= λ initialised. elim initialised [
                  | none ↦ pure (some exit_failure)
                  | some listener ↦ serve attempts listener
                ])
              [])
    unfolding server_init continue
    start_up true log port attempts h = returns (refl, helped)
    start_up false log port attempts h = elim (Option-cases K.socket) [
      | inl f ↦ rw f (returns (refl, no_socket))
      | inr (fd, f) ↦ rw f (
          subst
            (λ p.
              Ends (λ x. ⊥) (λ code tr. (code ≡ served_exit fd p attempts) × Run p code tr)
                (serve attempts (opened_on port log fd) (socket_opened fd ∷ [])))
            (small_port port h) (serve-Run attempts (opened_on port log fd) fd refl))
    ]

    main_lem :
        ⦃L : Libc⦄ (argv : List Text) (attempts : List Attempt)
        → Ends
            (λ f. ⊥)
            (λ code tr.
              (code
                ≡ expected_exit
                    (server_parse_args argv).show_help
                    (server_resolve_port (server_parse_args argv))
                    attempts)
              × Run (server_resolve_port (server_parse_args argv)) code tr)
            (main argv attempts [])
    unfolding main
    main_lem argv attempts =
        start_up _ _ _ attempts (server_resolve_port-bounds (server_parse_args argv)).1

    -- The calls of the main thread follow the protocol of Run: the socket is opened, bound to the
    -- port of the options, which is not cut, and listened on, the two signals are set, each client
    -- that is accepted gets a thread or is closed, and the socket is closed at the end and after a
    -- failure.
    pub main-Run :
        ⦃L : Libc⦄ (argv : List Text) (attempts : List Attempt)
        → Ends
            (λ f. ⊥)
            (λ code tr. Run (server_resolve_port (server_parse_args argv)) code tr)
            (main argv attempts [])
    main-Run argv attempts = Ends-mono (λ code tr (p, q). q) (main_lem argv attempts)

    -- The main thread ends exactly when it was asked for help, got no socket, could not bind or
    -- listen, or a call of accept fails when SIGINT came before or for another reason than an
    -- interruption; its exit code says failure in the second and third case only.
    pub main-exits :
        ⦃L : Libc⦄ (argv : List Text) (attempts : List Attempt)
        → Ends
            (λ f. ⊥)
            (λ code tr.
              code
              ≡ expected_exit
                  (server_parse_args argv).show_help
                  (server_resolve_port (server_parse_args argv))
                  attempts)
            (main argv attempts [])
    main-exits argv attempts = Ends-mono (λ code tr (p, q). p) (main_lem argv attempts)
