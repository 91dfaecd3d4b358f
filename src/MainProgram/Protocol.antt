-- ===== src/MainProgram/Protocol.antt =====
-- The order of the calls that the main thread makes while it serves.
use ojalvo_chat.Prelude.{
  ℕ, ◌≡◌, refl, Bool, true, false, ◌||◌, not, List, [], ◌∷◌, Option, none, some,
}
use ojalvo_chat.Glib.{Glib}
use ojalvo_chat.Server.Ends.{Ends, returns, Ends-bind}
use ojalvo_chat.Listener.{
  Call, socket_opened, accepted, thread_started, fd_closed, bound, listening, sigpipe_ignored,
  sigint_handled, Attempt, arrived, failed, Listener, server_accept_client,
}
use ojalvo_chat.MainProgram.{ExitCode, exit_success, exit_failure, start_client, accept_loop}

-- The calls while the server listens on `fd`: first the socket and the signals, then each client
-- that was accepted gets a thread or is closed at once.
pub data Serving (fd port : ℕ) : List Call → Type 0 where
  ready :
      (backlog : ℕ)
      → Serving fd port (
          sigint_handled
          ∷ sigpipe_ignored
          ∷ listening fd backlog true
          ∷ bound fd port true
          ∷ socket_opened fd
          ∷ [])
  handed_over :
      (c : ℕ) {tr : List Call}
      → Serving fd port tr
      → Serving fd port (thread_started c ∷ accepted c ∷ tr)
  turned_away :
      (c : ℕ) {tr : List Call}
      → Serving fd port tr
      → Serving fd port (fd_closed c ∷ accepted c ∷ tr)

-- The calls of a whole run, and how it ends.
pub data Run (port : ℕ) : Option ExitCode → List Call → Type 0 where
  helped : Run port (some exit_success) []
  no_socket : Run port (some exit_failure) []
  not_bound :
      (fd : ℕ)
      → Run port (some exit_failure) (fd_closed fd ∷ bound fd port false ∷ socket_opened fd ∷ [])
  not_listening :
      (fd backlog : ℕ)
      → Run port
          (some exit_failure)
          (fd_closed fd ∷ listening fd backlog false ∷ bound fd port true ∷ socket_opened fd ∷ [])
  waits : (fd : ℕ) {tr : List Call} → Serving fd port tr → Run port none tr
  finishes :
      (fd : ℕ) {tr : List Call}
      → Serving fd port tr
      → Run port (some exit_success) (fd_closed fd ∷ tr)

-- Whether the loop ends at an attempt.
abbrev pub stops_at : Attempt → Bool
stops_at (arrived c a s) = false
stops_at (failed interrupted shutdown) = shutdown || not interrupted

abbrev pub stopped_by : List Attempt → Bool
stopped_by [] = false
stopped_by (a ∷ attempts) = stops_at a || stopped_by attempts

module _ ⦃G : Glib⦄ where
  pub accept_loop-Serving :
      (attempts : List Attempt) (l : Listener) (fd port : ℕ) (tr : List Call)
      → Serving fd port tr
      → Ends
          (λ f. ⊥)
          (λ left tr. (left ≡ stopped_by attempts) × Serving fd port tr)
          (accept_loop attempts l tr)
  unfolding accept_loop server_accept_client start_client
  accept_loop-Serving [] l fd port tr h = returns (refl, h)
  accept_loop-Serving (arrived c true true ∷ more) l fd port tr h = Ends-bind (
      Ends-bind (
        returns
          (returns (Ends-bind (returns (accept_loop-Serving more l fd port _ (handed_over c h)))))))
  accept_loop-Serving (arrived c true false ∷ more) l fd port tr h = Ends-bind (
      Ends-bind (
        returns
          (returns (Ends-bind (returns (accept_loop-Serving more l fd port _ (turned_away c h)))))))
  accept_loop-Serving (arrived c false s ∷ more) l fd port tr h = Ends-bind (
      Ends-bind (
        returns
          (returns (Ends-bind (returns (accept_loop-Serving more l fd port _ (turned_away c h)))))))
  accept_loop-Serving (failed true true ∷ more) l fd port tr h =
      Ends-bind (returns (returns (refl, h)))
  accept_loop-Serving (failed true false ∷ more) l fd port tr h =
      Ends-bind (returns (accept_loop-Serving more l fd port tr h))
  accept_loop-Serving (failed false true ∷ more) l fd port tr h =
      Ends-bind (returns (returns (refl, h)))
  accept_loop-Serving (failed false false ∷ more) l fd port tr h =
      Ends-bind (returns (returns (refl, h)))
