-- ===== src/Lib.antt =====
-- IMGent, a bridge from chat platforms to local coding agents: the store that its resident service
-- keeps and the decisions that the service takes on it.
--
-- The service is one process over one SQLite database. Messages come in through an adapter
-- (packages/im-adapters) and are stored as tasks; the scheduler claims tasks, one per conversation
-- at a time, and runs each as a turn of an agent driver (packages/agent-drivers). While a turn runs,
-- a follow-up message may be steered into it, and the turn may wait for an approval of the user.
-- Replies leave through a table of outbound messages, which a dispatcher sends and retries. A restart
-- makes up for what the last process left running.
--
-- Files and what they model:
--   Prelude           Boolean tests, tables as lists and the statements on them; Texts and Times are
--                     the string functions of JavaScript that the code uses, and toISOString
--   Errors            packages/contracts/src/errors: codes, descriptors, normalizeError
--   Messaging         packages/contracts/src/messaging.ts; Conversation is conversation.ts
--   Store             src/storage/store.ts over src/storage/migrations.ts. Rows, Directory and Memories
--                     are the tables, Indexes their unique indexes and references, Db the database
--                     and transactions; Tasks, Outbox, Steers, Recovery, Ingest and Recent the
--                     operations, Inserts the statements that several parts share. The proofs: Fifo
--                     on claims, Restart on recovery, Frame and Lookup on what an operation leaves
--                     alone, Kept and Ends on tasks that have ended, Calm, Starts, Handover, Exclusive
--                     and Steered on what runs, Taken and Completion on a turn that succeeds; Laws is the
--                     interface of the relations that executions obey. In Ingest, Senders and Events
--                     are operations, Kept, Duplicates, Again and Queued proofs
--   Approvals         src/approvals/service.ts; expirePending is in Expiry; Outcomes, Creation, Once,
--                     Decisions and Answers are proofs
--   Outbound          src/runtime/outbound.ts; send and drain are in Drain; Failures, Delivery, Dispatch
--                     and Keys are proofs
--   Scheduler         src/queue/scheduler.ts: canSteer, replyMessage, handleDriverError and
--                     finishWithError; Retry and Replay are proofs
--   Schedules         src/schedule/service.ts. Rules parses timings, Access checks where and for whom
--                     a schedule may run, Runs makes a turn, Service has the operations of an
--                     operator, Due has processDue and the pump. The proofs: Started on enqueue, Delivered
--                     on what can be delivered, Turns and First on processDue, Drain on the pump, Alone on open tasks, Manual on
--                     trigger, Stuck on a schedule whose person is gone
--   Identity          src/identity/service.ts. Principals has workspaces and locales, Pairing the
--                     pairing codes, Binding the binding codes and unbinding, Merge mergePrincipal,
--                     Groups who lets a group in and what is collected there. The proofs: Merged,
--                     Offers and Once on binding codes, Confirmed and Repeat on pairing codes, Hosts
--                     and Hosted on groups, Modes, Workspaces and Unbinding
--   Lifecycle         the calls of Store (without Ingest), Approvals and Scheduler that change a task, as
--                     one type, and runs over it. The proofs: Frame and Routine on
--                     the calls that start nothing, Terminal and Turns on every execution
--   Tests             concrete runs, and the theorems at concrete inputs
--
-- How the state corresponds. A table is the list of its rows in rowid order; the rowid of a task is a
-- field, since the order of tasks depends on it. A JSON column holds the value that it encodes and an
-- encrypted one the value that it decrypts to (src/security/secret-box.ts is not modelled). ISO
-- times, which the code compares as texts of one fixed format, are numbers of milliseconds. An SQL
-- statement is its meaning on the lists: UPDATE is `update_where`, its `changes` is `count_where`.
-- ORDER BY created_at LIMIT 1 takes the smaller rowid among equals in claimNextTask, which SQL leaves
-- open. One operation reads the clock once. UUIDs are arguments and are taken to be fresh, so no
-- primary key over a generated id is checked. Foreign keys are checked where an approval is inserted
-- and where a row that others refer to is deleted, which only mergePrincipal does, but not at other
-- inserts; the unique indexes of memories are checked where mergePrincipal moves them. The columns updated_at that no code reads are left out, and so are logs and redacted
-- diagnostics. Attempts are counted by natural numbers; the code lowers one only where it has raised it before.
--
-- Loops are recursions on lists. Only the planner's pump takes fuel, one unit for each turn: one more
-- than the schedules that are due by a horizon is enough, since each turn takes one of them out. An
-- adapter's `send`, the texts of replies (src/i18n, src/im), the workspace that a principal was given,
-- the hash of codes, dates, time zones and the croner library are arguments. The promises of a
-- turn (the loop over driver events, steering promises, timers) are not modelled: an execution is a
-- sequence of calls on the database. Memories are modelled only as far as mergePrincipal changes
-- them; their service and curator, skills, backups, configuration, the control socket, the command
-- line, files, cryptography, adapters and drivers are not modelled.
pub mod Approvals
pub mod Errors
pub mod Identity
pub mod Lifecycle
pub mod Messaging
pub mod Outbound
pub mod Prelude
pub mod Scheduler
pub mod Schedules
pub mod Store
pub mod Tests
