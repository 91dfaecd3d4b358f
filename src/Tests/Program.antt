-- ===== src/Tests/Program.antt =====
-- The theorems about the main thread at concrete inputs.
use ojalvo_chat.Prelude.{◌≡◌, true, false, List, [], ◌∷◌, some, Text, codes}
use ojalvo_chat.Options.{server_parse_args, server_resolve_port}
use ojalvo_chat.Server.Ends.{Ends}
use ojalvo_chat.Listener.{Kernel, Attempt, arrived, failed}
use ojalvo_chat.MainProgram.{main}
use ojalvo_chat.MainProgram.Protocol.{Run}
use ojalvo_chat.MainProgram.Run.{expected_exit, main-Run, main-exits}
use ojalvo_chat.MainProgram.Descriptors.{IsSettled, Guarded, main-IsSettled}
use ojalvo_chat.Tests.World.{glib_list}
use ojalvo_chat.Tests.Facts.{too_high}

instance abbrev willing : Kernel
willing = record {
  socket = some 3;
  bind = λ fd port. true;
  listen = λ fd backlog. true;
  somaxconn = 4096;
}

abbrev argv : List Text
argv = codes "ojalvochat" ∷ codes "-p" ∷ codes "70000" ∷ []

-- A client with a thread, one for which there is no memory, an interruption, and SIGINT.
abbrev attempts : List Attempt
attempts = arrived 4 true true ∷ arrived 5 false false ∷ failed true false ∷ failed true true ∷ []

main-Run_example :
    Ends
      (λ f. ⊥)
      (λ code tr. Run (server_resolve_port ⦃L = too_high⦄ (server_parse_args argv)) code tr)
      (main ⦃L = too_high⦄ argv attempts [])
main-Run_example = main-Run ⦃L = too_high⦄ argv attempts

main-exits_example :
    Ends
      (λ f. ⊥)
      (λ code tr.
        code
        ≡ expected_exit
            (server_parse_args argv).show_help
            (server_resolve_port ⦃L = too_high⦄ (server_parse_args argv))
            attempts)
      (main ⦃L = too_high⦄ argv attempts [])
main-exits_example = main-exits ⦃L = too_high⦄ argv attempts

main-IsSettled_example :
    Ends (λ f. ⊥) (λ code tr. IsSettled code tr × Guarded tr) (main ⦃L = too_high⦄ argv attempts [])
main-IsSettled_example = main-IsSettled ⦃L = too_high⦄ argv attempts
