-- ===== src/Lib.antt =====
-- quotamiser: a proxy that spends a provider's free daily token allowance without overrunning it.
--
-- The program has four crates. crates/ledger keeps the books: a durable database of pools and
-- reservations, and an external high-water mark in a second place. crates/admission decides when
-- the pool of a day may be spent and bounds what a request can consume. crates/protocol reads the
-- client's request, down to the fields it lets through, and the provider's stream. crates/proxy asks
-- the ledger for a reservation, sends the request, and tells the ledger what became of it, by the
-- upstream's status and the usage that the stream reports.
--
-- The modules, with the code that each is about:
--   Prelude              Boolean tests, lists as tables, results, i64 arithmetic
--   Ledger.State         crates/ledger/src/state.rs
--   Ledger.Trust         crates/ledger/src/trust.rs, HighWaterMark of hwm.rs
--   Ledger.Schema        the tables of crates/ledger/src/schema.rs
--   Ledger.Core, Store   load_group, adjust_pool and transactions of crates/ledger/src/ledger.rs
--   Ledger.Reserve       reserve, safety inputs and latches of crates/ledger/src/ledger.rs
--   Ledger.Restart       open, check_integrity and normalize_after_restart of ledger.rs
--   Ledger.Transitions   crates/ledger/src/transitions.rs
--   Ledger.Rollover      crates/ledger/src/rollover.rs
--   Ledger.Requests      crates/ledger/src/requests.rs
--   Ledger.Queries       open_dispatches of crates/ledger/src/ledger.rs
--   Ledger.Sound         what holds of the database between operations
--   Ledger.History       every operation in any order, with restarts and failed writes
--   Admission.Epoch      crates/admission/src/epoch.rs
--   Admission.Liability  crates/admission/src/liability.rs
--   Protocol.Json        the values of serde_json, its maps as lists of fields
--   Protocol.Request     crates/protocol/src/request.rs: Shape, Checks, Tools and InputItems are its
--     shapes and checks, Strict its visitor, Bodies what a request becomes, Stable and the files
--     named after it show that a normalized part passes its check unchanged
--   Protocol.Responses   crates/protocol/src/responses.rs
--   Protocol.Sse         crates/protocol/src/sse.rs
--   Proxy.StatusPolicy, FailureBreaker, RateLimit, Clock: the files of those names in
--     crates/proxy/src
--   Proxy.LedgerHandle   crates/proxy/src/ledger_handle.rs
--   Proxy.Admission      crates/proxy/src/admission.rs, with Digest, and CatalogEntry of config.rs
--   Proxy.Dispatch       crates/proxy/src/dispatch.rs: Supervisor and Relay are its two functions,
--     Course the order in which they may call the ledger
--   Proxy.Retrieval      crates/proxy/src/retrieval.rs
--
-- State and operations: a table is the list of its rows, a statement is a function on lists, and a
-- transaction is a function from a database to an outcome with the database after it; an error
-- rolls it back. An operation of Ledger takes the ledger (database, external record, trust) and
-- returns its outcome with the ledger after it. Writing the external record is given its outcome
-- as an argument: not written, in place but reported as failed, or written. The mutexes of the
-- proxy make each method one step.
--
-- Tasks: a LedgerHandle holds the ledger with the turns of the other tasks, which are any calls of
-- the ledger, one before each call of this task; a turn may find the mutex poisoned. A dispatch is
-- given the provider's answer, the readings of the clocks, whether the client waits, and the rounds
-- of the loop: what select! yields each time, any event at any time. The body that goes to the
-- provider is recorded with the ledger as it was then. A send to a client that neither reads nor
-- leaves may never return; the run then has no further round, and no disposition. Course is the
-- order in which a dispatch may make its calls, as a step relation of its own.
--
-- JSON: what serde_json parses and prints is a parameter. A body is a tree whose objects may repeat
-- a key, or a syntax error; a parsed object is a list of fields. A number that is no integer is kept
-- as its text.
--
-- Numbers: columns with a CHECK that they are at least zero, epochs, ids and the tokens of a u64
-- are natural numbers; times are integers. i64 and u64 additions that the code checks are checked
-- here at the same bounds. The epoch window, whose sums the code does not check, is over the
-- integers, and once more over the i64 sums of the code, with bounds under which the two agree.
-- Instants and durations are nanoseconds.
--
-- Fuel: the loop of EventSplitter::push runs on fuel, the length of its buffer, and each round takes
-- at least one byte off the buffer; the decimal digits of a number run on the number, and each round
-- divides it by ten.
--
-- Not modelled: files, locks, SQLite's settings and errors of its own, HTTP, the texts of JSON,
-- the second provider, the loops of the runtime, configuration, and the floating-point parser of
-- reset headers, with its panic on a duration out of range.
pub mod Prelude
pub mod Ledger
pub mod Admission
pub mod Protocol
pub mod Proxy
