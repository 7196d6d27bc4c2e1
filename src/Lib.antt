-- ===== src/Lib.antt =====
-- gluetun-proton-list-updater keeps Gluetun's list of Proton VPN servers current, measures and ranks
-- the servers, and moves Gluetun's tunnel to a better one through Gluetun's control server. The
-- program is one run loop (internal/engine) that owns all state and calls the packages around it.
--
-- Parts and files:
--   Proton          internal/proton/model.go: what Proton's API reports of servers.
--   Countries       internal/countries/countries.go: names and codes.
--   Catalog         internal/catalog/catalog.go: the types, the filters and Build, which turns
--                   Proton's list into candidates. Catalog/Build holds Build in the pieces of its loop
--                   body; Eligible, Index, Kept and Respects reason about it. Catalog/Loads is
--                   ApplyLoads, Catalog/Render is ToGluetunServers, and Catalog/Explain is
--                   internal/catalog/explain.go, which Rules, Lookup and Verdicts compare with Build.
--   Latency         internal/latency/latency.go: the history of measurements, keyed by address.
--   Scoring         internal/scoring/scoring.go: the score of a candidate and the ranking.
--   Serversfile     internal/serversfile/serversfile.go: the layouts of Gluetun's volume, what is
--                   detected there, and in Serversfile/Write the write. Sorted, Disk, Foreign, Preserve
--                   and Promises reason about it.
--   Logbuf          internal/logbuf/logbuf.go: the ring buffer of log records.
--   Engine/State    internal/engine/state.go: the persisted state, its caps and the store.
--   Engine/Core     the fields of Engine, its configuration and its snapshot that the rest reads.
--   Engine/Transfer transfer.go and rates.go: rates, their window, and when they hold a switch back.
--   Engine/Decide   switch.go, evaluate and decide: whether to move, and why not.
--   Engine/Current  tasks.go: which server the tunnel is on.
--   Engine/History  history.go: what is recorded of each server.
--   Engine/Remote   Gluetun's control server as answers to a log of requests.
--   Engine/Switch   switch.go: the two polling loops of a switch.
--   Engine/Attempt  switch.go: applyTarget, tryCandidates, performSwitch and the history entry.
--   Engine/Sets     engine.go and tasks.go: applyLogicals, the options and the adopted requirements.
--   Engine/Manual   switch.go, switchTo: the move that the operator asks for.
--   Engine/Program  the whole state of the loop, and writeServersFile.
--   Engine/Tasks    tasks.go and engine.go: the tasks that ask Proton, read the caches or measure.
--   Engine/Health   tasks.go, checkGluetun, and switch.go, evaluate with the switch it decides on.
--   Engine/Loop     engine.go, commands.go and gluetunloops.go: the rounds of Run and handleCommand.
--                   Frame, Same, Rounds and Runs say once what a round must keep for a property of the
--                   state to hold in every run; Spaced, Quiet and Volume apply it. Startup
--                   is about the start.
--   Platform        what is taken from Go's standard library and Gluetun's country table.
--   Tests           concrete data, and the theorems at it.
--   Prelude         lists, tables, sorting, texts, addresses and float64 as the parts share them.
--
-- Conventions: a function of the source that changes a field returns the changed record. Times and
-- durations are natural numbers of nanoseconds with 0 for the zero time; the configuration admits no
-- negative duration. uint64 sums and differences wrap as they do in Go. float64 is a type with the operations of
-- Prelude/Real, about which only the theorem on sorting assumes anything, and that of values that are not NaN. Maps are association lists;
-- maps keyed by an address's text are keyed by the address. One handler reads the clock once.
-- The first two bytes of a server's name are taken to be its first two characters, as in ASCII.
--
-- A round of the loop is an Event: a ticker or a command, with what the outside answers in that round,
-- a World and the answers of Proton, of the rate sources and of the probes. A run is a list of events,
-- so that tickers and commands may come in any order. A command that repeats a ticker is the same
-- event; the readings are one per round and not forced. The disk is a table of files, where World says
-- which of them can be replaced; what a switch does to the servers file is applied after the switch,
-- one write for each such entry of its log. Between two rounds Gluetun does not change the volume.
-- The log of a round holds the requests of a switch, of a fetch and of a start or stop of a loop; what a
-- health check reads is an answer of the round and not in the log.
--
-- The answers of Gluetun are functions of all requests made so far, so that they may change at any
-- time and for any reason. Engine/Switch gives its loops fuel: 24 rounds for the wait, since a round
-- takes two seconds and the limit is 45, and one round more than the timeout of the verification has
-- polling intervals. Structural recursion serves everywhere else, and the loop that prunes statistics
-- has as much fuel as there are records.
--
-- Not modelled: HTTP and JSON of the clients, authentication, the settings of qBittorrent, the
-- dashboard with the views published for it, environment variables, log lines and explanatory texts,
-- the tickers, the queue of commands and the locks, and the concurrency of the latency probes.
pub mod Prelude
pub mod Platform
pub mod Proton
pub mod Countries
pub mod Catalog
pub mod Latency
pub mod Scoring
pub mod Serversfile
pub mod Engine
pub mod Logbuf
pub mod Tests
