-- ===== src/Lib.antt =====
-- PE Netplan, verified.
--
-- PE Netplan reads a declarative network configuration and applies it to a Windows PE machine. The
-- library crates/netplan holds the document, the plan that is made of it and the protocol between a
-- client and the daemon; crates/netpland is the daemon, which parses and validates a document, plans
-- it, and applies it through a platform backend. This library models these parts as functions and
-- proves what makes them correct.
--
--   Base        Shared types and lemmas: the result type with `?` as a bind, loops over vectors,
--               texts as lists of code points, a decoder of UTF-8.
--   Error       crates/netplan/src/error.rs, a diagnostic being a constructor for its wording.
--   Config      crates/netplan/src/config.rs: the document's types; `parse` in Config/Parse,
--               `validate` in Config/Validate, the checks it calls in Config/Checks, Config/Protect
--               and Config/Smb. A loop that compares an element with all before it is
--               `for_each_after`.
--   Model       crates/netplan/src/model.rs: what the daemon reports.
--   Plan        crates/netplan/src/plan.rs: `build_plan` in Plan/Operations, one function for each
--               section of the document, in the order of the source.
--   Platform    crates/netpland/src/platform/mod.rs: `require_plan_capabilities` in
--               Platform/Preflight; platform/portable.rs in Platform/Portable; from
--               platform/windows.rs the resolution of selectors and `validate_runtime_protection`
--               in Platform/Resolve.
--   Protocol    crates/netplan/src/protocol/mod.rs: messages; the object form of the tables
--               (protocol/ipc_generated.rs) in Protocol/Wire, the conversions in Protocol/Convert,
--               envelopes, encoding, decoding, reading and writing in Protocol/Frames.
--   Daemon      crates/netpland/src/main.rs: the state; the table of jobs, `daemon_status` and
--               `list_jobs` in Daemon/Jobs; `dispatch`, `apply_live` with the end of its task, and
--               `handle_connection` in Daemon/Dispatch; the steps of the daemon in Daemon/Steps.
--   Rpc         crates/netplan-cli/src/jsonrpc.rs: JSON and the parameters; `map_command` in
--               Rpc/Commands, the answers in Rpc/Answers, `execute_command` in Rpc/Gateway, `handle`
--               and `serve` in Rpc/Requests.
--   Output      crates/netplan-cli/src/output.rs: `wrap_text`; the answers in Output/Render and
--               Output/Answers.
--   Cli         crates/netplan-cli/src/main.rs in Cli/Commands, service.rs in Cli/Lifecycle and, for
--               its module `windows`, Cli/Services; `split_command_line` of interactive.rs in
--               Cli/Interactive.
--   Windows     crates/netpland/src/platform/windows: what Windows offers, as a parameter; `apply` of
--               windows/apply.rs in Windows/Transaction, `apply_reversible` in Windows/Reversible,
--               `RollbackAction` and `rollback_all` in Windows/Rollback, the commands of an adapter
--               in Windows/Network and Windows/Ipv4, `NetworkRestore` in Windows/Restore, services
--               and the firewall in Windows/Services; windows/wifi.rs in Windows/Wifi, windows/smb.rs
--               in Windows/Shares; the preflight of windows.rs and its capabilities in Windows/Backend;
--               Wi-Fi status and scans in Windows/Radio, Scans and Requests. Windows/Xml reads XML, and
--               Windows/Pieces and Windows/Keys are what it finds in a profile.
--   Elevation   crates/netplan/src/windows_elevation.rs: the command line of an elevated program.
--   Client      crates/netplan/src/client.rs: calls over an endpoint.
--   Tests       Concrete runs.
--
-- The other modules of a folder hold the proofs about its definitions and are named for what they
-- show: Config/Unique, Plan/Order, Protocol/RoundTrip, Daemon/Finality.
--
-- How the state corresponds to the code. The daemon's hash map of jobs is an association list (the
-- order of which Daemon/Unordered is about), its spawned tasks are a list of the identifiers and
-- configurations that are still to be applied, and its watch channel is a Boolean. A call takes a
-- context (clock, fresh identifier, decoders, wording) and what the platform answers at that time.
-- A step of the daemon is a call of `dispatch` or the end of a task; any order of steps is allowed,
-- so that a reachable daemon stands for every interleaving of connections and tasks. A fresh
-- identifier is taken to be that of no job, which is what a version 4 UUID is for.
--
-- A function of the Windows backend is a call: it takes the state of a machine, of any type, and leaves
-- a result and another state, which stays changed when the result is an error. `apply_reversible` runs
-- on a journal, the machine with the vector `rollback`. The record `System` holds what the backend
-- calls of Windows; a function of the source that only wraps one such call, with the conversion of its
-- error, stands for that call. A GUID is a number.
--
-- Numbers are native natural numbers, with the width of the source's type in a comment where a field
-- has one; the counters of `daemon_status` saturate at the largest u32 as in the source, and a clock
-- at the largest u64. The fuel of `decimal` is the number itself plus one, which is more
-- than its digits. The loops that wait for a service and for a connection have fuel for the rounds
-- until their deadline of 30 seconds, 301 with a sleep of 100 milliseconds and 151 with one of 200;
-- `Polls` in Windows/Waiting is the loop without fuel. `wait_for_job` has rounds for its time and its
-- interval, and two more, after which an outcome of the model, `unfinished`, stands for a loop that
-- goes on. `wait_for_state` of service.rs has 302 rounds for its 30 seconds. All other loops are
-- structural recursion.
--
-- A lifecycle command takes the state of a machine in the same way; the record `Env` holds the calls of
-- the daemon, of processes and of the service control manager.
--
-- A command of the gateway takes the state of its host, of any type: the record `Host` holds the calls
-- of the daemon and the clock, and `Serde` what serde derives from the types of the parameters and of
-- the answers. A map of JSON has its entries in the order in which they are written.
--
-- Parameters. The serde decoders, the case tables of Unicode beyond ASCII, the wording of messages
-- and the debug form of a text are parameters with no law but that of ASCII upper case. The
-- FlatBuffers library is a parameter, with its documented behaviour as a hypothesis where a theorem
-- needs it: a finished buffer carries its identifier, and unpacks to what was packed. What a call of
-- Windows does to a machine is a parameter with no law; a theorem on the transaction says which calls
-- were made, in which order, from which state to which, and what they answered. Theorems on loops that
-- wait have the clock as a hypothesis: a sleep advances it, and a query does not turn it back.
--
-- Not modelled: the bodies of the functions of crates/netpland/src/platform/windows that wrap one call
-- of Windows, the inventory there, the acceptance of connections and the service control of the
-- daemon, the calls of Windows for elevation, the parsing of arguments by clap with the loop over the
-- prompt, the relaunch of the command line with elevation, and the C bindings. These are input and
-- output.
pub mod Base
pub mod Error
pub mod Config
pub mod Model
pub mod Plan
pub mod Platform
pub mod Protocol
pub mod Daemon
pub mod Rpc
pub mod Output
pub mod Cli
pub mod Windows
pub mod Elevation
pub mod Client
pub mod Tests
