-- ===== src/Lib.antt =====
-- The core of aps: agents that share a workspace, the devices of a user that share one, the routes of
-- messages, who reports to whom, and the registry of sessions.
--
-- Parts and files:
-- - internal/core/collaboration. Collaboration/Types is types.go. Collaboration/Workspace is
--   workspace.go: the members, their roles and the states of one workspace (Members and Ownership are
--   about the roster, Lifecycle about runs of all operations). Collaboration/Tasks is messaging.go:
--   the task router over the task part of Storage (interface.go); Updates is about one status change,
--   Routing about runs of calls, Collaboration/Paging about its listing window. Collaboration/Context
--   is context.go with context_service.go: shared variables, their log of mutations and their access
--   lists; Access is about who may call, Privacy about private variables, Log about the log.
--   Collaboration/Dependencies is task_dependency.go: the graph of tasks and its topological sort;
--   Tables is about the tables that the sort fills, Relaxing about its inner loop, Rounds about its
--   outer loop, Orders about its result. Collaboration/Sessions is session.go with session_service.go:
--   the sessions of agents; Soundness and Uniqueness are about calls one after another, Interleaving
--   about two at once, Expiry about the two loops that close and remove. Collaboration/Resolution is
--   conflict.go and resolution.go over the members of Workspace and the log of Context: Detection is
--   about the conflicts that are found, Winners about the policy on roles, Restoring about the
--   policies that write a value back. Collaboration/Capabilities is capability.go: the index of what
--   the agents can do, and Index what it holds after any calls.
-- - internal/core/multidevice. Multidevice/RateLimit is rate_limit.go, Multidevice/Causality
--   causality.go (the vector clocks), Multidevice/Presence presence.go, Multidevice/Devices linker.go
--   with the roles and links of types.go and storage.go, Multidevice/Access access_control.go with
--   policies.go, Multidevice/Conflicts conflict_detector.go, lww_resolver.go and resolution_manager.go
--   with the events of events.go (Detection, Winner and Resolution are about these three).
--   Multidevice/Events is event_store.go and offline_queue.go: the log of events with its index, and
--   the queue of a device that is offline; Lines is about its lines and their scan, Log about the two
--   files of the log. A file has lines with their sizes, of which some may not parse and the last may
--   be cut, and a scan fails at a line above its limit. Multidevice/Sync is sync_manager.go over all
--   of these: Settlement is about one event, Delivery about a queue. Access asks the links of Devices,
--   the states of Presence and the buckets of RateLimit, as EvaluatePermission does.
-- - internal/core/scope. Scope is scope.go and the resolution of intersection.go: Intersection is
--   about what a narrowed rule lets through, Union about the lists of bundles.
-- - internal/core/msgroute. Routing is table.go, resolve.go, senderkey.go and the index of
--   contacts.go: the route tables of message services (Characters is about sender keys, Compiling
--   about tables, Deciding about the route of a sender).
-- - internal/core/org. Org is graph.go: the profiles and their managers (Graphs is about Build, Walks
--   about the links and their loops, Chains about Chain, Sweeps about one level of TransitiveReports,
--   Levels about the state between two levels, Reports about its result).
-- - internal/core/session. Registry is registry.go with kvstore.go: the sessions of the runtime in the
--   rows of a key-value store. Registry/Calls has the calls; Rows is about the sessions that stand in
--   the rows, Listing about the lists, Sweeping about CleanupInactive, Effects and Guards about what
--   one call writes, Runs about any calls one after another, Migration about the sessions of an old
--   file. It is another registry than that of Collaboration/Sessions, and neither calls the other.
-- Base holds what they share: Boolean tests, results with an error, lists, maps with text keys, how
-- often a list holds a text (Base/Counting), the order of texts (Base/Texts) and sorting by a text
-- (Base/Sorting).
--
-- How the code is modelled: a method of a Go struct is a function from the struct's record to a result
-- or to the record after the call, with its guards in the source's order; a method that takes a lock
-- is one step. A Go error is an `err` that names it, without its text. Strings of an enumeration are a
-- data type with a last constructor for any other text, but in Org and Registry, where they stay
-- texts. A map is a list of pairs (Base/Assoc), and a range over it takes the list's order; no theorem
-- depends on which. Times and durations are natural numbers of nanoseconds, and a call is given the
-- time that `time.Now()` returns in it; IDs that are made at random are arguments too. Integers that
-- the code only counts up or compares are natural numbers, without overflow. Token buckets are exact
-- where the source uses floats.
--
-- Parameters: the key-value store, the state machine and the JSON texts of the session registry
-- (Backend), the file storage of tasks (TaskStorage, which keeps the values of raw JSON messages and
-- not their layout), the repository services of hop.top/kit (ContextService, SessionService), the text
-- functions of the Go library (TextFunctions), the redacting writer of the event log and the limits of
-- the scanner that reads it (Redaction), the clock, the random IDs and the failures of a
-- synchronisation (Outside), the files of device links (LinkFiles) and of conflicts (ConflictFiles),
-- and the clock with its zones (Clock). The storages, files and services state as laws the documented
-- behaviour of a call that succeeds; the clocks and the text functions have no laws. The tests fill
-- each with a concrete one.
--
-- Loops are structural recursion over the list they walk, but for three that run on fuel. The queue of
-- the topological sort (sort_loop) has one unit of fuel for each task of the graph: a round places one
-- task, and no task is placed twice. Chain (chain_from) and TransitiveReports (levels_from) have one
-- for each profile and one more: a round but the last puts a profile into the set of those visited,
-- and none enters it twice. The theorems on these say that the fuel is not used up. Runs are lists of
-- calls of any length.
--
-- Not modelled: interleavings inside a method that does not lock (Send, ExpireSessions; CreateSession
-- is an exception), the search for a cycle (DetectCycles), the search for agents by the words of a
-- task, the findings of Validate on an organisation, the opening of the session store and the reading
-- and renaming of its old file, the alias events after a context change, log output, and the rest of
-- the repository (the command line, protocol servers, isolation, messengers).
pub mod Base
pub mod Collaboration
pub mod Multidevice
pub mod Scope
pub mod Routing
pub mod Org
pub mod Registry
