-- ===== src/Lib.antt =====
-- A replicated in-memory key-value store in C++ (gRPC, one Paxos instance for each key and round).
--
-- Every process keeps a key-value store (`Database`), a Paxos log (`Consensus`, a map of keys to
-- rounds to entries), the address of the leader, and the list of members (`Cluster`). A user's
-- `set` or `get` goes to any process (`DatabaseRPC`), which answers it if it is the leader and
-- forwards it otherwise. The leader of a `set`, and the process that holds an election, run
-- `Consensus::AttemptConsensus`: a proposer that pings all members, then proposes, asks for
-- acceptance, and spreads the success, each time to one node after the other. The acceptors' side
-- are the handlers of `ConsensusRPC`; `ConsensusRPCWrapperCall` is the client's side of each call.
-- A success applies the value: to the store, or to the leader if the key is "leader".
--
-- Files:
--   Base            shared names. Base/Int: `int`, integers over the native numbers; Base/Lists:
--                   lists; Base/Text: the order of strings
--   Map             std::map as an association list; Map/Laws: lookups after each operation;
--                   Map/Sorted, Map/Unique: ascending keys
--   Proto           the messages of src/consensus_interface.proto, src/database_interface.proto
--   Config, Process src/declaration.h: Address, Config, Node, Cluster, Statistics; one process's
--                   state; Config/Decimal: numbers as text
--   Log             src/app.cc, Set_Log, Get_Log, Find_Max_Proposal. Log/Laws: entry by entry;
--                   Log/Rounds, Log/Latest, Log/Below: the rounds of a key; Log/Same: equal rounds
--   Database        src/app.cc, Get_KV, Set_KV, Delete_KV, Get_DB
--   ConsensusRpc    src/rpc.cc, the handlers of ConsensusRPC; ConsensusRpc/Effects: their branches;
--                   ConsensusRpc/Newest, ConsensusRpc/Converge: successes in several rounds
--   Threads         src/rpc.cc, the handlers again, as threads that interleave. Threads/Whole: one
--                   that nobody interrupts; Threads/Agrees, Threads/Coarse: any number of them, and
--                   events; Threads/Race: two of them for one key
--   World           the running processes, and the fate of one call; World/Counts: the counters
--   Cluster         src/app.cc, initializeStaticInstance, and src/utility.cc, make_address.
--                   Cluster/Members: the member list; Cluster/Errors: what ends a start
--   Call            src/rpc.cc, ConsensusRPCWrapperCall
--   Attempt         src/app.cc, AttemptConsensus; its child modules hold the proofs about it:
--                   Stages (where it stops), Loops (relations kept by the loops), Slots and Values
--                   (one key and round), Live and Quorum (who was counted), Chosen, Adoption and
--                   Agreement (which value), Settled and History (attempts one after the other),
--                   Abort, Settings, and Partition, Inform, Above, Liveness, Receive (a network in
--                   which some members are out of reach), Whole (one rule for the whole attempt),
--                   Growth, Counted and Leads (the rounds of a key),
--                   Promise
--   Election        src/rpc.cc, elect_leader and trigger_election
--   DatabaseRpc     src/rpc.cc, DatabaseRPC: get, set, get_db; its child modules are about the
--                   leader's own answer, and forwarded requests (Chains, Forwarded: by several
--                   processes; Failover, Takeover: when the leader is out of reach)
--   DatabaseCall    src/rpc.cc, DatabaseRPCWrapperCall; DatabaseCall/Laws: what a user reads
--   Session         a series of requests at the leader and the map that it stands for;
--                   Session/Steps: one request; Session/Refines: all of them
--   Startup         src/app.cc, coordinate: finding the leader, or electing one, and recovery of
--                   the store. Startup/Laws: recovery; Startup/Copies: of an empty store;
--                   Startup/Joining, Startup/Start: a start beside a leader
--   Node            src/entrypoint.cc, main in node mode; Node/Start: a new process joins a cluster
--   User            src/entrypoint.cc, user_entrypoint: User/Commands, User/Entry: the commands;
--                   User/Laws, User/Sessions: a read after a write
--   Disk            src/app.cc, readFromDisk and writeToDisk; Disk/Laws: one after the other
--   Options         src/utility.cc, parse_options and what it uses: Options/Schema (the options),
--                   Options/Node and Options/User (the two modes), Options/Schema/Settings (fields
--                   and defaults, written down once more), Options/Documented (the
--                   library), Options/Priority and Options/Arguments (where a value comes from)
--   Program         src/entrypoint.cc, main. Program/Command: its user mode; Program/Server: the
--                   addresses of run_gRPC_server
--   Tests           small clusters, runs, and the theorems at concrete inputs; Tests/Lost: a run of
--                   three attempts in one round
--
-- How the code is modelled. A handler is a function from `IsCancelled()`, the request and the
-- process to the reply and the process, in one step, although the code takes its locks for each
-- access to the log or the store and not for the whole handler. `Threads` models the handlers
-- propose, accept and success the other way, as threads that make one access at a time and
-- interleave, and compares the two. Remote calls are made in a `World`, a function from addresses
-- to processes. The gRPC library and the other threads are parameters: a `Network` gives each call
-- of an attempt a `Slot`, which says what other threads have done since the last call (`others`, a
-- list of events, each a whole handler or one write of another thread) and what becomes of the call
-- (`delivered`, `expired`, `reply_lost`, `unreachable`). So a theorem for every network is one for
-- all losses and interleavings of handlers. The quorum test on doubles, `count <= ceil(n / 2.0) -
-- 1`, is written on whole numbers. A 32-bit `int` conversion of a size is `to_int32`, which wraps; the
-- `int` counters of `Statistics` are integers that wrap at 2^31 too, where C++ leaves the sum undefined.
--
-- Fuel. `DatabaseRpc.get` and `set` take fuel for a chain of processes that forward one request to
-- each other, which in the program the 5 seconds of the deadline end; where n processes forward it
-- before the leader answers, the fuel n + 1 is enough. Every other loop is structural.
--
-- Options. boost::program_options and the paths and files of the machine are parameters of
-- `Options`, which models what the code makes of them; Options/Documented states what it relies on.
--
-- Not modelled: what the servers print, colours, clocks, the lengths of deadlines, the threads of
-- the servers, and the random delay of `coordinate`. The member list is fixed once it is built;
-- `DatabaseRPC` calls a leader by the member's consensus address (Program/Server is about its
-- database address), and the user's program finds the process that serves at an address by a
-- parameter.
pub mod Base
pub mod Map
pub mod Proto
pub mod Config
pub mod Log
pub mod Database
pub mod Process
pub mod ConsensusRpc
pub mod World
pub mod Call
pub mod Cluster
pub mod Attempt
pub mod Election
pub mod DatabaseRpc
pub mod DatabaseCall
pub mod Session
pub mod Startup
pub mod Node
pub mod User
pub mod Threads
pub mod Disk
pub mod Options
pub mod Program
mod Tests
