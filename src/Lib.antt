-- ===== src/Lib.antt =====
-- A model of the Terracotta multiplayer backend (the Rust library of this repository) and its correctness.
--
-- The program is a library behind a C interface. A caller holds a handle to a context. The context
-- owns one session, a queue of events to the caller, a channel of commands from the caller and a
-- scaffolding server. A command thread takes the commands and starts a host flow or a guest flow; a
-- flow writes to the session for as long as its token is good, and leaves a monitor thread behind.
-- The handlers of the scaffolding server read and write the same session.
--
--   Base         texts, bytes, UTF-8, decimal numbers and list lemmas that the parts share;
--   Room         src/room.rs: room codes; Room/RoundTrip and Room/Sound hold its theorems;
--   Json         the JSON values of serde_json, with its printer and parsers as a parameter;
--   Profile, Event, Snapshot   src/profile.rs, src/event.rs, src/snapshot.rs;
--   Session      src/session.rs; Session/Tokens: what a token means over a history of commits;
--   Emitter      the `Emitter` of src/context.rs; Emitter/Queue: the event queue; Emitter/Writes: the
--                guarded writes;
--   Context      `TerracottaContext`, `run_main` and `handle_command` of src/context.rs, and
--                src/command.rs; Context/Commands: the answers to the commands; Context/Loop: a
--                shutdown in the channel; Context/Destruction: `destroy` and the threads beside it;
--   Scaffolding  the wire protocol of src/scaffolding/mod.rs, server.rs and client.rs;
--                Scaffolding/Serving: the loops of the server's threads; Scaffolding/Session: the
--                client's session;
--   Protocols    the handlers of src/scaffolding/protocols.rs, alone and over the wire, and the request of
--                a guest's ping (Protocols/Pinged);
--   EasyTier     src/easytier/mod.rs, argument.rs, publics.rs, and of process.rs the command line, the
--                reading of the peer list (EasyTier/Peers), the rounds of port forwards
--                (EasyTier/Forwarding), the lines that are logged at its end (EasyTier/Output) and the
--                unpacking of its archive (EasyTier/Factory);
--   Mc           src/mc: the announcement of fakeserver.rs, the scanner (Mc/Scanner) and the
--                sockets of both (Mc/Sockets);
--   MachineId    src/machine_id.rs;
--   Addresses    src/addresses.rs and src/ports.rs;
--   BuildScript  build.rs: which EasyTier is packed, the effects that fetch it
--                (BuildScript/Download) and the variables that it sets (BuildScript/Environment);
--   Client       what examples/terracotta-test and examples/terracotta-client-test do with the C interface;
--   Flow         src/flow.rs: Flow/Host is `run_host` with its monitor, Flow/Guest is `run_guest` up to
--                its monitor, Flow/Guest/Refresh is that monitor (Accepted: a host's list as a
--                guest reads it; Exchange: a ping and the list after it), Flow/Exclusive is the
--                transition system of all threads; Flow/Host/Run and Flow/Guest/Run are the whole
--                flows (Meets: a guest and a ready host), Flow/Probe is the wait for the Minecraft server, and
--                Flow/Processes is the ownership of the EasyTier processes;
--   Ffi          src/ffi.rs: handles, strings and the exported functions; Ffi/Memory: the allocations
--                that cross the C interface;
--   Logging      src/logging.rs: the ring of log lines; Crate: the error codes, the vendor and the logging
--                macro of src/lib.rs;
--   Examples     the theorems at concrete inputs; Examples/Suite: the crate's unit tests, run on the
--                definitions.
--
-- Operations keep the names of the source, in snake case. A method that runs under the session's lock
-- is one step: it takes the session or the emitter and returns it. What an operation finds outside the
-- program is an argument: random bytes, times, the answer of a process or a socket, the JSON codec.
-- Errors are values: Option where the source has one, a result type where it has codes.
--
-- Counters of 64 bits wrap as in a release build, and the theorems on tokens hold below the end of
-- the counter. Fuel stands in three places: `replace_version` counts the characters of its text; `serve` takes the server's handlers
-- one for each round, and one round more than the stream has bytes is enough; and the
-- decimal printer counts digits, five for a number of 16 bits and twenty for one of 64. The loop of
-- `parse` and the folds of the wire protocol are recursion on lists, and the polling loops take the
-- list of what they see. The loops of five and of sixty rounds in `run_guest` take what each of their rounds
-- would find; `drain_events` takes what the other threads do before each of its polls.
--
-- `destroy` is four actions with locks of their own, and Context/Destruction has their interleavings with
-- the command thread and the rest.
--
-- Not modelled: the inside of sockets, processes, files and downloads, the timing of threads and the calls
-- of the log, which are the operating system's; their results are inputs of the definitions, and where
-- their order matters (BuildScript/Download, EasyTier/Factory, Mc/Sockets) they are a list of effects. Client/Bindings has
-- the examples' lookup of the C functions by their names, and not the memory layout of their arguments.
pub mod Base
pub mod Room
pub mod Json
pub mod Profile
pub mod Session
pub mod Crate
pub mod Event
pub mod Snapshot
pub mod Emitter
pub mod Context
pub mod Scaffolding
pub mod Protocols
pub mod EasyTier
pub mod Flow
pub mod BuildScript
pub mod Addresses
pub mod Ffi
pub mod Client
pub mod Logging
pub mod Mc
pub mod MachineId
pub mod Examples
