-- ===== src/Lib.antt =====
-- The ASys daemon (asyd): an agent's encrypted APDU requests, from the bytes of the connection to
-- what the daemon does to the system.
--
-- Parts and files:
--   Base        shared names: Boolean tests, lists as C arrays, bytes and big-endian words.
--   Apdu        src/asyd/core/apdu_parser.c: the receive buffer, the frame parser, the slot pool.
--   Crypto      the primitives of monocypher as a parameter (`Crypto`) with what is documented of
--               them (`Laws`), and src/asyd/core/crypto_utils.c.
--   Noise       src/asyd/core/noise_ik.c: Noise.Server and Noise.Client are the two sides of the
--               handshake, Noise.Transport is what follows it.
--   Auth        src/asyd/core/auth_verify.c: the tag of signed frames, and the session's epoch.
--   Tasks       src/asyd/core/task_pool.c: the handles of running restarts, and the bag of
--               tasks that the slots stand for (Tasks.Bag).
--   Scan        fscanf and fgets as the text files are read with them.
--   Reports     what the reporting handlers read of the system and keep between calls.
--   Handlers    src/asyd/handlers, a module for each of the seven handlers (SysCaps is sys_caps.c,
--               and so on), with the status words of src/asyd/core/dispatcher.h. SysStatus and SysProcs
--               have their readers of /proc in child modules.
--   Dispatcher  src/asyd/core/dispatcher.c: the capability bitmap and the tables.
--   Whitelist   src/asyd/core/whitelist.c: the agents' keys. Whitelist.Text is the file as an
--               administrator writes it.
--   Session     src/asyd/asyd.c: recv_exact, the opening of handle_client (Session.Handshake), its
--               packet loop and clean-up (Session.Packet), the session identifiers, the connection
--               slots and the reaping of children (Session.Clients). Session.Opening
--               follows an opening that succeeds, Session.Step to Session.Conversation a whole
--               conversation, and Session.EndToEnd handle_client from the first byte to its end.
--   System      src/asyd/asyd.c: the sessions in their threads, status_warm_thread and the SIGCHLD
--               handler over the shared state, as a list of events in any order. System.Answers is a
--               conversation among the events of the other threads, System.Agents one from its
--               first byte.
--   Startup     src/asyd/asyd.c: parse_args (Startup.Options), load_or_generate_keys (Startup.Keys), and
--               main up to the accept loop (Startup.Main). Startup.Lifetime joins it with System.
--   Server      src/asyd/asyd.c: the accept loop of main, with signals and client threads as steps.
--   Tests       the theorems at concrete inputs, with simple functions for the primitives.
--
-- How they interact: handle_client reads the magic and the first handshake message, checks the
-- agent's key against the whitelist and takes a parser slot. A pass of its loop (handle_packet)
-- decrypts a packet into the slot's buffer, parses, checks tag and sequence number, dispatches, and
-- sends the encrypted reply. Handlers read and change the task pool and ask the system for signals
-- and processes; these requests are the list `World.effects`, latest first.
--
-- Correspondence: each C function is the definition of the same name, without the prefixes
-- apdu_parser_, apdu_ and noise_ik_; a part of a long function (from some statement on) is a
-- definition of its own, and its comment says where it starts. Pointers
-- into the receive buffer are offsets, NULL is `none`, a buffer is the list of its bytes. Integers
-- are natural numbers with the wrap-around of their C type written out; `size_t` has 64 bits. The
-- answers of the system during a call (time, kill, fork, send, urandom) are arguments: Io, PassIo,
-- OpeningIo. What is opened and sent on a socket is modelled by the chunks that recv is offered.
--
-- Fuel: recv_loop has the number of bytes asked for, since a pass gets one at least; the loops over the
-- lines of a file (load_lines, find_kb, read_totals, status_lines, net_lines) have the length of the
-- file and one more, since a line takes one byte at least. The packet loop runs for a given list of
-- passes; statements hold for every list. All else is structural recursion.
--
-- Text files: a number that does not fit its type has no defined value after fscanf; it is taken modulo
-- the type's size. The times that the status cache compares are arguments, and the sleep between two
-- samples is the difference of the two files given.
--
-- Not modelled: monocypher.c, which is a third-party library; file modes, socket options and logging in
-- asyd.c. Concurrent sessions are taken one pass at a time: no two passes overlap, and a signal does
-- not interrupt one. Where the code takes no lock (the caches of SYS_PROCS, the reload of the
-- whitelist), overlapping calls can do what no order of passes does.
pub mod Base
pub mod Apdu
pub mod Tasks
pub mod Handlers
pub mod Scan
pub mod Reports
pub mod Crypto
pub mod Noise
pub mod Auth
pub mod Dispatcher
pub mod Whitelist
pub mod Startup
pub mod Server
pub mod Session
pub mod System
pub mod Tests
