-- ===== src/Lib.antt =====
-- OjalvoChat's server, verified: the tables of users and rooms, the protocol's messages, the
-- handlers of the messages, the threads that serve the clients, and the main thread.
--
-- The program. The main thread (server/src/main.c) listens for clients and starts a thread for
-- each. A client's thread (server/src/client_handler.c) receives bytes into a buffer
-- (message_buffer.c), cuts them into lines, reads each line as a JSON message (message.c), and
-- passes it to message_handler_process (message_handler.c), which changes the tables of users
-- (users_table.c) and rooms (room_table.c, room.c, user.c) and sends answers (server.c).
--
-- Which file models what:
--   Prelude        shared names, texts as lists of bytes, lemmas on lists and tests
--   Glib           GLib's hash table, a parameter with its documented laws
--   Cjson          the calls of cJSON, a parameter, with its documented laws in Laws
--   User           server/src/user.c
--   UsersTable     server/src/users_table.c: two hash tables that share pointers into a heap;
--                  Invariant is about the pointers, View and Directory have the view without
--                  pointers, Consistent is about the users that such views hold, Listing about
--                  traversals, Freeing about destroying, Shared about threads that share a table
--   Message        server/src/message.c, with the kinds of message in Message/Kind and the way
--                  through JSON and back in Written and RoundTrip; Memory has the blocks that
--                  message_from_json and message_destroy allocate and free, with Balance, Copying
--                  and Freed about which they are, Writing those of message_to_json
--   MessageBuffer  server/src/message_buffer.c; Lines is about streams of lines
--   Room           server/src/room.c
--   RoomTable      server/src/room_table.c; Visits is about what visitors reach, Freeing about
--                  destroying
--   Server         server/src/server.c: the state, the actions on it (Monad), how an action ends
--                  (Ends), the invariant of the state (Synced, Invariant), whether a message
--                  arrives (Sends), and Freeing
--   Handler        server/src/message_handler.c: the dispatch, with the handlers in Notify, Chat,
--                  Rooms and RoomTalk; Effects and Sound are about the invariant, Farewell about
--                  disconnecting, Answers about telling one client, Notice and Arrival about
--                  names and statuses, Creation, Membership and Joining about rooms, with
--                  Presence for what they share, Guests, Inviting and Invites about invitations,
--                  Delivery, Dropping, Receivers and Deadlock about messages, Listed about lists
--                  of users
--   Options        the command line and the port of server/src/server.c
--   Client         server/src/client_handler.c; Stream is about the order of the lines, Sound
--                  about the invariant
--   Atomic         all threads of client_handler.c, where others act between any two parts of the
--                  handling of a line: Actions says what parts are, Common, Handlers, Rooms, Talk
--                  and Lines take the functions of message_handler.c and client_handler.c apart,
--                  Pool has the threads and their turns, Schedule turns in a chosen order, Intact
--                  is about the tables, Replies about what is sent
--   Listener       the listening socket of server/src/server.c
--   MainProgram    server/src/main.c; Protocol and Run are about the order of its calls and its
--                  end, Descriptors about what is left open
--   Tests          concrete parameters and inputs
--
-- How the code corresponds. The definitions keep the names of the C functions. A function that
-- writes through a pointer and returns a bool returns an Option or a pair. A handler is an
-- action: it takes the server's state and gives a result and a new state, or a fault, and the
-- state in which the thread then stands, where the code passes NULL to a function that reads it,
-- or locks a mutex that the thread holds. `send` and `close` leave events in a trace; whether a
-- send succeeds is chosen by a parameter that sees the trace. A struct of which part is set
-- later is split: initial_server has the tables that server_init makes, Listener the socket
-- beside them. Descriptors are natural numbers, bytes are numbers, and a NULL string is `none`.
--
-- Fuel. The inner loop of handle_client takes at least one byte from the buffer at each turn,
-- and the buffer holds at most SERVER_BUFFER_SIZE bytes, so that SERVER_BUFFER_SIZE + 1 turns
-- are enough.
--
-- Threads. The main thread's calls of accept are a list of attempts, each with whether memory
-- and a thread were to be had; the flag that the handler of SIGINT sets is part of an attempt.
-- In Atomic the client threads take turns in any order. A turn is a part of the handling of a
-- line: a call that reads or changes the server's users under their mutex, a visit of the rooms
-- under theirs, a send, or a close. What a thread sends or does to the users while it holds the
-- mutex of the rooms belongs to that part. A thread whose part stops at a fault is blocked for
-- good, with what the part did until then, and with the mutex of the rooms if it holds it; a
-- thread that then wants that mutex is blocked too. A NULL pointer blocks one thread there,
-- where it ends the program. Calls that search the rooms by name, add a room or remove one take
-- the same mutex, but are not held up there: the model has every order that the program has, and
-- more. The theorems about one handler take it with nothing of another thread in between.
--
-- Not modelled: failing allocations but those of the main thread and of message.c, freeing but
-- that of the tables and the messages, logging, and the client program. The array of
-- notify_all_but_self is a list, so that its length, which is read without the table's mutex,
-- has no part. setsockopt in server_init is left out: its failure is only logged. In
-- Message/Memory the blocks of a cJSON tree are one, and what cJSON allocates inside a tree that
-- it builds is taken to be there.
pub mod Prelude
pub mod Glib
pub mod User
pub mod UsersTable
pub mod Cjson
pub mod Message
pub mod Room
pub mod RoomTable
pub mod MessageBuffer
pub mod Server
pub mod Options
pub mod Handler
pub mod Client
pub mod Atomic
pub mod Listener
pub mod MainProgram
pub mod Tests
