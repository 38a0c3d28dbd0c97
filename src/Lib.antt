-- ===== src/Lib.antt =====
-- The plantops-edge-scale controller: the Go program that runs one truck weighbridge.
--
-- Parts and how they interact. Scale frames are appended to a hash-chained journal before any logic
-- sees them; the reference of the journal record travels with the reading. The workflow engine takes
-- readings, position inputs, RFID and LPR observations, faults and overrides, and keeps one transaction
-- per truck, with the outputs that it wants. The remote I/O controller polls the digital inputs, feeds
-- the engine and drives lights, buzzer and barriers after those outputs. Two passes of a truck make a
-- weighing cycle, whose pair of weights is validated before a ticket is final.
--
-- Files.
--   Base: Boolean tests, int64 with its wrap-around, texts as code points, rows of checks.
--   Domain (internal/domain): Types, Device, Workflow for the data of types.go, workflow.go and
--     raw_weight.go; State for tests on the workflow state; Policy for policy.go; Cycle for cycle.go, where
--     ValidatePair is validate_pair; Pairing for what a valid pair is;
--     WeighCycle for the cycle record, RawWeight for the event of the journal.
--   Engine (internal/engine/engine.go): Record has the engine's state and the helpers that change the
--     transaction; Identity has evaluateIdentityLocked and tryAuthorizeEntryLocked; Position has
--     evaluatePositionLocked and tryReadyToWeighLocked; Presence has ObservePosition; Weighing has
--     ObserveScale and commitTicketLocked; Handlers has the other calls, and step and run, one call and a
--     list of calls. Safety, Invariant, Receipt, Committed, Lockout,
--     Interlock, Tickets and Overrides hold proofs.
--   Journal (internal/adapters/rawjournal/journal.go): AppendRecord, loadTail and Verify; Chain, Append,
--     Growth, Tamper and Faults hold proofs.
--   RemoteIo (internal/runtimeio/controller.go): step is poll, the loop of Run is run; Replay says what the
--     outputs of the plant are after the commands, where one that met an error may have left anything; AuditedOutputs has audited_outputs.go. Gate, Order, Applied,
--     Buzzer and Converges hold proofs.
--   Store (internal/adapters/sqlitestore): the tables as lists of rows and the SQL statements; Cycles has
--     the operations of cycle_store.go that write, Queries those that read, Sync those of store.go. Rows, Ops, Final, Backed, Outbox and Lasting
--     hold proofs.
--   TwoPass (internal/twopass): the station around the engine and the bridge to the coordinator; Calls has
--     the calls and the snapshot, Safe, Dark and Sides hold proofs.
--   ScaleAscii (internal/adapters/scaleascii): the parser of a line; Stream has the collector, Bounds and
--     Audited hold proofs.
--   Coordinator (internal/cycle): the business cycle over the store; Adds and Durable hold proofs.
--   Modbus (internal/adapters/modbustcp): io.go, mapping.go and the bound of client.go; Inputs has
--     ReadInputs, Signals and SafeState hold proofs about the writes.
--   Examples: concrete runs, and the theorems at them.
--
-- How the code is modelled. A mutex makes each call of the engine or a journal one step, so a run is a
-- list of calls. The clock and the random identifiers of a call are its Env; a time is the number of
-- nanoseconds since Go's zero time. An int64 is an integer, with its wrap-around written out where the
-- code computes with it. The fault map is a list of its values; Go's order of iteration is the order of
-- that list, whatever it is. Messages that carry numbers are constructors with those numbers. A float64
-- is the number of its bits, which the code only carries. The ticket store, the vehicle registry, the
-- digest, the Unicode tables of unicode.IsLetter and strings.ToUpper, the answers of the operating
-- system, the workflow behind the I/O controller and the plant are parameters; TwoPass gives the engine
-- its bridge as the ticket store. Loops are recursions on
-- lists, so nothing runs on fuel.
--
-- The database engine is not modelled: a table is the list of its rows, an operation of the store is one
-- transaction that rolls back on an error, and the error that each of its steps may meet is a parameter.
--
-- The journal's file is a list of lines. The JSON of an event and its reading back are not modelled, so the
-- journal is that of events whose texts are valid UTF-8, which come back as they were; nor is a last line
-- without its newline, to which the source would join the next record; a torn write is rows of its own. The
-- parser of a scale line works on code points, so it is that of lines in ASCII. Each call of the two-pass
-- workflow is one step, where the source takes its locks one after the other.
--
-- Not modelled: HTTP, serial and TCP transport, the Windows service, the wiring in cmd/edge, migrations
-- and pragmas of SQLite, and for now the audit journal, its recorder and the delivery of tickets to
-- the central server.
pub mod Base
pub mod Domain
pub mod Engine
pub mod Journal
pub mod RemoteIo
pub mod Modbus
pub mod Store
pub mod Coordinator
pub mod TwoPass
pub mod ScaleAscii
mod Examples
