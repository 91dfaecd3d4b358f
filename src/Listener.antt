-- ===== src/Listener.antt =====
-- server/src/server.c: the socket that the server listens on. What the kernel answers is a
-- parameter; what is asked of it leaves a trace, the newest call first.
use ojalvo_chat.Prelude.{ℕ, ◌%◌, ◌^◌, Bool, false, List, ◌∷◌, Option, none, some, if◌then◌else◌}
use ojalvo_chat.Glib.{Glib}
use ojalvo_chat.Options.{ℤ, pos, negsuc}
use ojalvo_chat.Server.{Server, initial_server}
use ojalvo_chat.Server.Monad.{Action, done, pure, ◌>>◌}

pub data Call : Type 0 where
  socket_opened accepted thread_started fd_closed : ℕ → Call
  -- The descriptor, the port, and whether the call succeeded.
  bound : ℕ → ℕ → Bool → Call
  -- The descriptor, the backlog, and whether the call succeeded.
  listening : ℕ → ℕ → Bool → Call
  sigpipe_ignored sigint_handled : Call

-- The answers of `socket`, `bind` and `listen`; `none` is a negative descriptor.
pub record Kernel : Type 0 where
  pub socket : Option ℕ
  pub bind : ℕ → ℕ → Bool
  pub listen : ℕ → ℕ → Bool
  -- SOMAXCONN
  pub somaxconn : ℕ

-- What a call of `accept` comes to: a descriptor, with whether `malloc` and `pthread_create`
-- succeed for it; or a failure, with whether `errno` is EINTR and whether SIGINT came before.
pub data Attempt : Type 0 where
  arrived : ℕ → Bool → Bool → Attempt
  failed : Bool → Bool → Attempt

abbrev pub Main : Type 0 → Type 0
Main A = Action (List Call) A

abbrev pub call : Call → Main (Unit {0})
call c trace = done tt (c ∷ trace)

module _ ⦃G : Glib⦄ where
  -- The fields of Server that the main thread uses, and the tables that the threads share. The
  -- port of the address is kept as a number, where the code stores its bytes in network order.
  pub record Listener : Type 0 where
    pub socket_fd : Option ℕ
    pub port : ℕ
    pub log_enabled : Bool
    pub sin_port : ℕ
    pub server : Server

  -- `none` where the function returns -1.
  unfoldable pub server_init : ⦃K : Kernel⦄ → ℕ → Bool → Main (Option Listener)
  server_init ⦃K⦄ port log_enabled = elim K.socket [
    | none ↦ pure none
    | some fd ↦ do
      call (socket_opened fd)
      pure (
          some (record {
            socket_fd = some fd;
            port = port;
            log_enabled = log_enabled;
            sin_port = port % 2 ^ 16;
            server = initial_server;
          }))
  ]

  -- Whether the function returns 0.
  unfoldable pub server_bind_and_listen : ⦃K : Kernel⦄ → Listener → ℕ → Main Bool
  server_bind_and_listen ⦃K⦄ listener backlog = elim listener.socket_fd [
    | none ↦ pure false
    | some fd ↦ do
      call (bound fd listener.sin_port (K.bind fd listener.sin_port))
      (if K.bind fd listener.sin_port
          then (do call (listening fd backlog (K.listen fd backlog)); pure (K.listen fd backlog))
          else pure false)
  ]

  unfoldable pub server_accept_client : Listener → Attempt → Main ℤ
  server_accept_client listener (arrived client_fd allocated started) = do
    call (accepted client_fd)
    pure (pos client_fd)
  server_accept_client listener (failed interrupted shutdown) =
      pure (if interrupted then negsuc 1 else negsuc 0)

  unfoldable pub server_close : Listener → Main Listener
  server_close listener = elim listener.socket_fd [
    | none ↦ pure listener
    | some fd ↦ do call (fd_closed fd); pure (record listener { socket_fd = none })
  ]
