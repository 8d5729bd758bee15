-- ===== src/Lib.antt =====
-- A model of vivary, a daemon (keeperd) that runs agents in containers and talks to them, to its
-- control clients and to its browser service in frames of one binary format.
--
-- The program's parts and the files that model them:
--   pkg/mus: varints and strings on byte streams. Mus: AppendVarint is `append_varint`, ReadVarint
--     is `read_varint`, and so on; the children hold the laws, Mus/Wire the rules by which a reader
--     is matched to what a writer wrote, Mus/Ensures the rules for what a reader lets in.
--   internal/switchboard: Switchboard/MsgType, Switchboard/Codec (headers, ReadFrame, WriteFrame),
--     Switchboard/Limiter (ByteRateLimiter), Switchboard/Router (pipes, readLoop, Send).
--   internal/capabilities: Capabilities/Payloads, Capabilities/Dispatch (Registry, ACL, Dispatcher),
--     Capabilities/FileWrite (FilesystemFileWrite) over Capabilities/Paths (path/filepath),
--     Capabilities/Browser (BrowserPageRead).
--   internal/chromproxy: Chromproxy (WhitelistPolicy).
--   internal/ctl: Ctl/Requests, Ctl/Status. internal/chromed: Chromed/Payloads.
--   internal/config: Config/Records (the records and the nodes of a document), Config/Parse,
--     Config/Validate (ValidateAgentID is `validate_agent_id`).
--   cmd/keeperd: Keeperd/State (the daemon), Keeperd/Handlers (dispatch.go: handleFrame is
--     `handle_frame`, and so on), Keeperd/Ctl (main.go: dispatchCtl, dispatchPrompt, the status),
--     Keeperd/Connection (main.go: handleCtlConn),
--     Keeperd/AgentAcl, Keeperd/AgentKdl, Keeperd/Provisioning and Keeperd/Lifecycle
--     (provisioning.go: agentCreate, agentDestroy, the reaper of a ward), Keeperd/Proxies
--     (browser_proxy.go: the allocator), Keeperd/Browser (chromed.go), Keeperd/Pairing (its
--     calls under way).
--   chromed: Chromed/Manager (Acquire), Chromed/Sessions (Release, Status, reap), Chromed/Conn
--     (handleConn and the client), Chromed/Launch (how Chrome is started and reached),
--     Chromed/Overlap (two calls of Acquire at once).
--   cmd/ward: Ward/Loop (the loop detector), Ward/State (the pipe, the calls that wait), Ward/Tools
--     (toolserver.go), Ward/Prompts (a prompt, its retries and its report).
-- A ward writes frames to its pipe; the router's read loop checks each one and gives it to
-- keeperd's handler, which asks the dispatcher, and the answer goes back through Send. Prelude/Act
-- has the steps that may fail on a state that others share: cleanups run on the state of the failure.
-- The daemon's agentCreate fills the registry, the access lists and the pipes that the handlers read;
-- the browser manager asks the chromed service through its client and takes a port of the allocator.
--
-- How state is modelled: a Go string is a list of bytes, a map with string keys is Prelude/Map, an
-- integer is a native number with its wrap-around written out. A reader is a function of the bytes
-- that are still to come and of how the stream ends. The read loop is a function of the clock
-- readings of its turns (its fuel: one turn for each byte of the input and one more are enough) and
-- returns its actions, which `perform` runs on the handlers and the security sink. What lies
-- outside of the repository, such as the world that a capability changes, the file system,
-- the audit database and the formatting of floats, is a parameter.
-- Calls of several goroutines are sequences of steps: a run of whole calls where the code holds its
-- lock, and the steps between two holdings of a lock where it does not (Chromed/Overlap,
-- Keeperd/Pairing, Ward/Reordering). The search for a port turns at most 101 times, once for each port of its range;
-- a prompt is run at most once more than there are retries; a loop that waits for Chrome is a
-- function of the list of its probes, which the deadline bounds.
-- An allocation of more than 2 ^ 48 bytes panics, as on a 64-bit machine.
--
-- Not modelled: sockets and their accept loops, the goroutines that copy bytes between connections,
-- the HTTP and WebSocket sides of the two proxies, the audit database, the shell commands of the
-- container runtime, the KDL library and what it decodes by reflection, the JSON that one run of the
-- model's process prints, the terminal interface, code generation and migration, and the parts that
-- PROJECT.json lists as such. A lock is the boundary of a step; nothing else is said of scheduling.
pub mod Prelude
pub mod Capabilities
pub mod Chromed
pub mod Chromproxy
pub mod Config
pub mod Ctl
pub mod Keeperd
pub mod Mus
pub mod Switchboard
pub mod Ward
