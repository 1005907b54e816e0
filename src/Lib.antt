-- ===== src/Lib.antt =====
-- mini-dsh: a harness that runs a model's tool calls on the user's machine, with a web client. This
-- library models the parts that decide what happens to a call and what is remembered of it.
--
-- The model asks for a tool call. The approval policy allows it, refuses it or asks the user, and
-- records the question and the decision in the session's log before anything runs. A call of an MCP
-- tool goes through the dispatch coordinator, which records its intent in the execution journal,
-- hands the request to the transport, and records the end. A shell command in the background is
-- registered in the process registry. The log of the session is the only source of the model's
-- history, and the client projects the same events into the rows that it shows.
--
-- Files and sources:
--   Common            lists, dictionaries (`Map`), sets, texts and Boolean tests that all parts share.
--   Mcp/Journal       src/harness/mcp/execution-journal.ts: the journal in memory and on disk, `open`
--                     (Recovery, Reopen), `append` and its queue (Queue), claims (`reserve`, `release`) and
--                     `terminalizeUnresolved`.
--   Mcp/Coordinator   src/harness/mcp/execution-coordinator.ts: `dispatchToolCall` as one call, and in
--                     System any number of them, one action for each piece between two awaits.
--   Approval          src/harness/tools/names.ts and the modes of src/harness/approval/policy.ts;
--                     Approval/Lifecycle is `attachApproval`: the `tools/pre-execute` listener,
--                     `settle` and `reevaluate`, as actions of a history.
--   Session           src/harness/session/events.ts: the settings of a session; Session/Messages is
--                     `deriveMessages` (ExecutedCalls); Session/Log is src/harness/session/session.ts: `append`, the
--                     chain of writes, `durable` and `fork`.
--   Session/EventFile src/harness/storage/events-jsonl.ts: `readEventLog` with its validation and its
--                     repairs of a torn or unterminated last line.
--   Processes         src/harness/processes/registry.ts: all operations of `ProcessRegistry` and the
--                     events of its children.
--   Sse               src/harness/mcp/sse-parser.ts: the reader of server-sent events, chunk by chunk.
--   Kernel            src/kernel/fiber.ts (Fiber: the effects of a plugin and their disposal) and
--                     src/kernel/events.ts (Events: listeners and dispatches that run side by side).
--   Files             src/capabilities/fs/text-document.ts (Document: decoding, line endings, offsets
--                     and splices), src/capabilities/fs/edit-match.ts (Edit: `findEditMatch`), and the
--                     `Edit` tool of src/capabilities/fs/tools.ts with the `FileObservations` and
--                     `requirementFor` of src/capabilities/fs/observation.ts (Tool).
--   Guard             src/harness/guard/matcher.ts: `normalizeCommand` and `matchCommand`, by which a
--                     shell command is denied or asked about.
--   Projection        web/lib/project.ts: `createProjector` with every case of `apply` (Inputs, Answers,
--                     Tools, Audit, Turn), the published list (View), `taskPhase` and `isTurnRunning`
--                     (Phase).
--
-- State is passed explicitly. A class is a record, a method a function from the old state to an answer
-- and the new state, and what arrives from outside is an argument: times, ids, the outcome of a
-- write, what a transport or a child process answers, the live policy. Awaited operations are split at
-- the await. Where the source shares an object between a map and a list, the model keeps its position
-- in the list. Numbers are natural numbers; where a difference can be negative its sign is kept. Texts
-- that a limit cuts or that are taken apart (the output of a process, the journal, the event log, text
-- documents) are lists of code units.
-- Three loops are on fuel: the SSE reader, where the length of its buffer is enough since each round
-- shortens it; the binary search of `rawOffset`, with a round for each position and one more; and the
-- search of `exactOffsets`, with a round for each character and one more. Every other loop is a
-- recursion on a list or a number.
--
-- Parameters: JSON printing and parsing and the hash of the journal (`Codec`, with `IsPrinted` for
-- what is used of them) and of the event log (`Json`), the encodings and the hash of text
-- documents, the decoding of a chunk of a child's output, the hash of results in the coordinator,
-- the option `forceAsk` of the approvals, and the regular expressions of the guard with their
-- engine and the lower case of a text (`Texts`).
--
-- Not modelled: the HTTP server and its routes, the client's components, the transports of MCP and of
-- the providers, the assembly of requests, the file tools' access to files and the hint of a failed
-- edit, the shell and the terminals, the workspace and memory stores, and the timers that only wait.
-- Node's file system, processes and promises are represented by their outcomes.
pub mod Common
pub mod Mcp
pub mod Projection
pub mod Processes
pub mod Approval
pub mod Session
pub mod Sse
pub mod Files
pub mod Kernel
pub mod Guard
