-- ===== src/Tests/Interleaved.antt =====
-- The theorems about threads whose parts take turns, at concrete inputs.
use ojalvo_chat.Prelude.{ℕ, ◌≡◌, List, [], ◌∷◌, All, Option, none, some}
use ojalvo_chat.User.{User}
use ojalvo_chat.UsersTable.Listing.{EachOnce}
use ojalvo_chat.UsersTable.{users_table_iter, users_table_destroy}
use ojalvo_chat.RoomTable.{room_table_destroy}
use ojalvo_chat.RoomTable.Freeing.{AreEmpty}
use ojalvo_chat.Atomic.Pool.{Pool, UnlockedOrBlocked, start, start_up}
use ojalvo_chat.Atomic.Schedule.{Move, arrive, go, play, play-Turns}
use ojalvo_chat.Atomic.Intact.{IsIntact, Turns-IsIntact}
use ojalvo_chat.Atomic.Replies.{IsReply, Turns-AreReplies}
use ojalvo_chat.Tests.Json.{cjson_calls}
use ojalvo_chat.Tests.World.{glib_list, all_but_five}
use ojalvo_chat.Tests.Facts.{two_chunks}

-- Two clients send the same lines, and their threads take turns.
abbrev order : List Move
order =
    arrive 0 4 two_chunks
    ∷ go 0
    ∷ arrive 1 6 two_chunks
    ∷ go 1
    ∷ go 0
    ∷ go 1
    ∷ go 1
    ∷ go 0
    ∷ go 0
    ∷ go 1
    ∷ []

abbrev in_turns : Pool
in_turns = play order start_up

Turns-IsIntact_example :
    IsIntact in_turns.server
    × UnlockedOrBlocked in_turns
    × EachOnce (users_table_iter in_turns.server.users)
    × ((heap : ℕ → Option User) × (users_table_destroy in_turns.server.users ≡ some heap)
        × ((q : ℕ) → heap q ≡ none))
    × ((heaps : List (ℕ → Option User)) × (room_table_destroy in_turns.server.rooms ≡ some heaps)
        × AreEmpty heaps)
Turns-IsIntact_example = Turns-IsIntact in_turns (play-Turns order start_up start)

Turns-AreReplies_example : All IsReply in_turns.server.trace
Turns-AreReplies_example = Turns-AreReplies in_turns (play-Turns order start_up start)
