-- ===== src/MainProgram/Descriptors.antt =====
-- Every descriptor that the main thread opens is closed or handed to a thread.
use ojalvo_chat.Prelude.{
  ℕ, ◌+◌, ◌≡◌, refl, Bool, true, false, List, [], ◌∷◌, Option, none, some, Text, ◌==◌,
  if◌then◌else◌, arith, ◌&&◌, ◌||◌,
}
use ojalvo_chat.Glib.{Glib}
use ojalvo_chat.Options.{Libc}
use ojalvo_chat.Server.Ends.{Ends, Ends-mono}
use ojalvo_chat.Listener.{
  Call, socket_opened, accepted, thread_started, fd_closed, bound, listening, sigpipe_ignored,
  sigint_handled, Attempt, Kernel,
}
use ojalvo_chat.MainProgram.{ExitCode, main}
use ojalvo_chat.MainProgram.Protocol.{Serving, Run}
use ojalvo_chat.MainProgram.Protocol.{
  ready, handed_over, turned_away, helped, no_socket, not_bound, not_listening, waits, finishes,
}
use ojalvo_chat.MainProgram.Run.{main-Run}

-- How many times the kernel gave the main thread this descriptor.
abbrev pub given : ℕ → List Call → ℕ
given x [] = 0
given x (socket_opened fd ∷ tr) = (if fd == x then 1 else 0) + given x tr
given x (accepted fd ∷ tr) = (if fd == x then 1 else 0) + given x tr
given x (thread_started fd ∷ tr) = given x tr
given x (fd_closed fd ∷ tr) = given x tr
given x (bound fd port ok ∷ tr) = given x tr
given x (listening fd backlog ok ∷ tr) = given x tr
given x (sigpipe_ignored ∷ tr) = given x tr
given x (sigint_handled ∷ tr) = given x tr

-- How many times the main thread closed this descriptor or handed it to a thread.
abbrev pub settled : ℕ → List Call → ℕ
settled x [] = 0
settled x (socket_opened fd ∷ tr) = settled x tr
settled x (accepted fd ∷ tr) = settled x tr
settled x (thread_started fd ∷ tr) = (if fd == x then 1 else 0) + settled x tr
settled x (fd_closed fd ∷ tr) = (if fd == x then 1 else 0) + settled x tr
settled x (bound fd port ok ∷ tr) = settled x tr
settled x (listening fd backlog ok ∷ tr) = settled x tr
settled x (sigpipe_ignored ∷ tr) = settled x tr
settled x (sigint_handled ∷ tr) = settled x tr

-- Whether SIGPIPE was ignored so far.
abbrev pub ignored : List Call → Bool
ignored [] = false
ignored (sigpipe_ignored ∷ tr) = true
ignored (c ∷ tr) = ignored tr

-- Whether SIGPIPE was ignored before each thread was started.
abbrev pub Guarded : List Call → Type 0
Guarded [] = Unit {0}
Guarded (thread_started fd ∷ tr) = (ignored tr ≡ true) × Guarded tr
Guarded (c ∷ tr) = Guarded tr

Serving-given :
    {fd port : ℕ} {tr : List Call} (x : ℕ)
    → Serving fd port tr
    → given x tr ≡ (if fd == x then 1 else 0) + settled x tr
Serving-given x (ready backlog) = omega arith
Serving-given x (handed_over c h) = ground (arith, Serving-given x h)
Serving-given x (turned_away c h) = ground (arith, Serving-given x h)

Serving-ignored : {fd port : ℕ} {tr : List Call} → Serving fd port tr → ignored tr ≡ true
Serving-ignored (ready backlog) = refl
Serving-ignored (handed_over c h) = Serving-ignored h
Serving-ignored (turned_away c h) = Serving-ignored h

Serving-Guarded : {fd port : ℕ} {tr : List Call} → Serving fd port tr → Guarded tr
Serving-Guarded (ready backlog) = tt
Serving-Guarded (handed_over c h) = (Serving-ignored h, Serving-Guarded h)
Serving-Guarded (turned_away c h) = Serving-Guarded h

-- Whether the descriptor is a socket on which `listen` succeeded.
abbrev pub listens_on : ℕ → List Call → Bool
listens_on x [] = false
listens_on x (socket_opened fd ∷ tr) = listens_on x tr
listens_on x (accepted fd ∷ tr) = listens_on x tr
listens_on x (thread_started fd ∷ tr) = listens_on x tr
listens_on x (fd_closed fd ∷ tr) = listens_on x tr
listens_on x (bound fd port ok ∷ tr) = listens_on x tr
listens_on x (listening fd backlog ok ∷ tr) = (ok && fd == x) || listens_on x tr
listens_on x (sigpipe_ignored ∷ tr) = listens_on x tr
listens_on x (sigint_handled ∷ tr) = listens_on x tr

Serving-listens : {fd port : ℕ} {tr : List Call} → Serving fd port tr → listens_on fd tr ≡ true
Serving-listens (ready backlog) = ground arith
Serving-listens (handed_over c h) = Serving-listens h
Serving-listens (turned_away c h) = Serving-listens h

-- The descriptors in balance: all settled at the end, all but the socket that it listens on while the
-- thread waits.
abbrev pub IsSettled : Option ExitCode → List Call → Type 0
IsSettled (some code) tr = (x : ℕ) → given x tr ≡ settled x tr
IsSettled none tr =
    (fd : ℕ) × (listens_on fd tr ≡ true)
    × ((x : ℕ) → given x tr ≡ (if fd == x then 1 else 0) + settled x tr)

Run-IsSettled :
    {port : ℕ} {code : Option ExitCode} {tr : List Call}
    → Run port code tr
    → IsSettled code tr × Guarded tr
Run-IsSettled helped = (λ x. refl, tt)
Run-IsSettled no_socket = (λ x. refl, tt)
Run-IsSettled (not_bound fd) = (λ x. omega arith, tt)
Run-IsSettled (not_listening fd backlog) = (λ x. omega arith, tt)
Run-IsSettled (waits fd h) = ((fd, Serving-listens h, λ x. Serving-given x h), Serving-Guarded h)
Run-IsSettled (finishes fd h) = (λ x. ground (arith, Serving-given x h), Serving-Guarded h)

module _ ⦃G : Glib⦄ ⦃K : Kernel⦄ where
  -- The main thread gives every descriptor that it got from socket or accept away exactly as often
  -- as it got it, by closing it or by starting a thread for it: all of them when it ends; while it
  -- waits, all but one socket, on which it listens, that it got once more than it gave it away.
  -- SIGPIPE is ignored before any thread starts.
  pub main-IsSettled :
      ⦃L : Libc⦄ (argv : List Text) (attempts : List Attempt)
      → Ends (λ f. ⊥) (λ code tr. IsSettled code tr × Guarded tr) (main argv attempts [])
  main-IsSettled argv attempts = Ends-mono (λ code tr h. Run-IsSettled h) (main-Run argv attempts)
