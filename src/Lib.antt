-- ===== src/Lib.antt =====
-- A model of MCSHub, a proxy for Minecraft servers: one process listens for players, reads the
-- address that a player's handshake names, and either forwards the connection to the backend server
-- that the configuration has for this address, or answers the player itself with a status or a
-- login message.
--
-- The parts of the program, and the files that model them:
-- - Portal (src/client.cpp, src/client.hpp): `portal`, one player's connection, with its two `gate`s.
--   Portal.Portal is the object; `from` is the player's gate and `to` the backend server's. Methods
--   are state passing with exceptions as values (Exec): what was written before an exception stays
--   written, and undefined behaviour or a failed `assert` is a crash, which no handler catches.
--   Portal/Buffers has the methods of `gate`, Portal/Requests those that answer a packet,
--   Portal/Events the handlers of the event loop. Portal/History has the sequences of events.
--   Portal/Control, Portal/Coherence and Portal/Reach are about the two state machines,
--   Portal/Stream, Portal/Carried, Portal/Relay, Portal/Transparency, Portal/Progress and
--   Portal/Delivery about the bytes,
--   Portal/Reading about packets, Portal/Refusals about clients that are turned away, Portal/Answers
--   and Portal/Greeted about those that get a text, Portal/Contained and Portal/Termination about how the handlers end.
-- - Routing (`portal::record` in src/client.cpp): from an address to a server record.
-- - Settings (src/settings.hpp, src/settings.cpp): the configuration, `check_domain`
--   (Settings/Domain), the loading of a record (Settings/Load), of the main file
--   (Settings/LoadConf) and of the directories (Settings/LoadAll); Settings/Servers, Settings/Safe
--   and Settings/Reload are about what is loaded. Settings/Listener is `settings::init_listener`,
--   which follows the files while the hub runs: a batch of events with the files as each handler
--   finds them, and the calls on the watcher as a list. Settings/Watches is the loading at the start,
--   which adds the watches.
-- - ProgArgs (src/prog_args.hpp, src/prog_args.cpp): the command line. ProgArgs/Printed writes
--   arguments as a command line; ProgArgs/Decimal and ProgArgs/Reading are about reading it back.
-- - Vars, Namespaces, Base64 (src/response_props.hpp, src/response_props.cpp): the variables in a
--   status or login text. Vars/Pieces says what a text means, piece by piece; Vars/Meaning and
--   Vars/Division are about the loop that computes it.
-- - HostsDb (src/hosts_db.cpp): the cache of name lookups.
-- - Manager (src/manager.cpp): the console, which changes `default_conf` and reloads.
-- - Workers (src/thread_controller.hpp, src/thread_controller.cpp): the threads. A worker's state is
--   its list of clients, its channel and the flag `working`; what `poll.wait` finds is given, a list of
--   ready descriptors for each wait. The clients are a parameter, which Workers/Clients fills with
--   portals; the handlers that these register themselves, of the backend's events and the timer, run
--   in the worker's waits too. Workers/Everyone and Workers/Coherent are about what all clients keep.
-- - Start (src/mcshub.cpp, `settings::initialize` and `settings::static_install`): the start of the hub
--   up to its event loop, with the disk, the streams and the log as its state; Start/Usage has the help
--   text. Start/Running follows the configurations from the start on.
-- - Serving (src/mcshub.cpp): the event loop of the main thread, with the handlers of signals, files and
--   console, and the whole of `entrypoint_internal`. The main thread may also wait without end for a
--   worker, in `terminate` or when an exception destroys the workers; Serving.Progress has a case for
--   this.
-- - Program (src/main.cpp): `main`.
-- - Sclient (src/sclient.hpp, src/sclient.cpp): the blocking client for a status, a ping or a login,
--   with one function per method. Sclient/Loops.Reliable states what is relied on of its socket.
-- - PingTool (src/pingtool.cpp): `host_info`, the address that the ping tool is given; PingTool/Main
--   has `main` and `entry`, and PingTool/Main/Served follows a run through Sclient.
-- - Paket (src/mc_pakets.hpp, src/mc_pakets.cpp): the packets.
-- - Platform: what the code asks of the system and of libraries that are submodules, as parameters:
--   sockets, the event loop, files, the environment, random identifiers, and the packet library.
--   Portal/Stream.Sockets states what is relied on of sockets. Settings/Yaml is the YAML library.
-- - Base: shared helpers. Texts are lists of bytes, since a `std::string` may hold null bytes; the
--   numbers are natural numbers with the wrap-around of the machine written out. Base/Map stands for
--   `std::unordered_map` with keys of text.
-- - Tests: a small world, and runs in it.
--
-- How they interact: a worker calls the handlers of Portal; these route the address with the
-- portal's own snapshot of Settings, look up the backend server through HostsDb, and resolve a
-- message's variables through Vars. A gate reads the current configuration for the largest packet. The
-- listener and the console, on the main thread, replace the configuration in force as a whole. The ping
-- tool is a program of its own, which uses Sclient.
--
-- Bounds: `process_from_request` and `from_handshake` call one another, at most once, so the bound 2
-- is enough. The loop of `vars_manager::resolve` moves on by at least a byte, so the text's length
-- and one more is enough. The loop over the arguments takes at least one each time, so their number
-- is enough. The loops of `sclient::read` and `sclient::write` have one round more than there are
-- bytes, which is enough while each round moves a byte. At the end of the stream a read takes none and
-- the source loops without end: there the bound is used up, and the model's result is a crash.
-- `sclient::peek_head` fetches a byte in each round: its bound is an argument, and one above the length
-- of a packet's head is enough.
--
-- Not modelled: destructors, but for the wait for the workers' threads when the event loop is left by an
-- exception; an exception of a later worker's constructor, or after it, before the event loop; what a
-- portal has registered with the event loop at any time; log messages, and what is in libraries that
-- are submodules: the event loop, sockets, the parsing of console lines and of YAML, and the coding of
-- packets. Undefined behaviour of concurrent access is left out: what other threads do is a step between
-- two handlers of a portal (Portal/History).
pub mod Base
pub mod Settings
pub mod Routing
pub mod Paket
pub mod Vars
pub mod Exec
pub mod Platform
pub mod HostsDb
pub mod Base64
pub mod Namespaces
pub mod Portal
pub mod ProgArgs
pub mod PingTool
pub mod Sclient
pub mod Manager
pub mod Workers
pub mod Start
pub mod Serving
pub mod Program
pub mod Tests
