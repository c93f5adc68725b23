-- ===== src/Lib.antt =====
-- The Go binding of regolith, an embedded key-value engine: a flat C ABI (ffi/src) over the engine, and
-- the Go code that calls it.
--
-- Every entry point of the ABI runs its body under `guard` (ffi/src/lib.rs), which turns a failure or a
-- panic into a status and an error object. `regolith_db_write` hands a frame that batch.go packed to
-- `decode` (ffi/src/batch.rs); opening a store resolves the options that options.go fills, by
-- `options_from` (ffi/src/options.rs); iterators over a snapshot or a transaction are ffi/src/iter.rs.
--
--   Base      numbers, lists, decimal and hexadecimal text, little-endian bytes
--   Failure   ffi/src/lib.rs: status codes, `Failure`, the conversions of the engine's errors, panics;
--             Failure/Checked: results that are a value or an invalid argument
--   Exec      bodies of entry points: a state, and a `Result` (a value, a failure or a panic)
--   Guard     ffi/src/lib.rs: `guard`, error objects, value handles and out-params; its properties are in
--             Guard/Report. Guard/Buffers: the buffers that the caller frees, and `regolith_noop`
--   Batch     ffi/src/batch.rs: the decoder, whole; batch.go is Batch/Pack. Parse, Ops, Frames and Sizing
--             hold lemmas on one pass over a frame, and Decode what the decoder promises
--   Options   ffi/src/options.rs: `options_from`, whole; `toC` of options.go is Options/Go. What resolving
--             promises is in Options/Resolve and, against the constants of regolith_ffi.h, in
--             Options/Meant, with one field in Options/Picked. Options/Settings says what a Go caller means
--             by the options; Options/Filled and Options/Presence follow it into the struct,
--             Options/RoundTrip out of it, and Options/Refused says when it is refused
--   Iter      ffi/src/iter.rs, and `TxnInner` of ffi/src/txn.rs: Iter/Bounds (options to a key range),
--             Iter/Machine (the methods of `RegolithIter`; its state is Iter/Machine/State), Iter/Calls
--             (the entry points), Iter/Prefix. Iter/Walk is walks one entry at a time, on Iter/Walk/Order (the
--             order of a walk), Iter/Walk/Spans (key ranges) and Iter/Walk/Ways (`WalksBothWays`, what is
--             relied on of a snapshot's cursor); Iter/Batches is walks by batches, Iter/Batches/Sought a
--             seek before one, Iter/Batches/Renewed what follows a reset; Iter/Batches/Moves,
--             Failing and Reported are walks on which a read fails. Iter/Merged is an iterator of a transaction (`Streams`, what is
--             relied on of a scan stream). Iter/Listed is a cursor over a list of entries, for runs
--   Txn       ffi/src/txn.rs: the entry points as bodies, and under `guard` in Txn/Calls, where a run of calls
--             on one handle is a list of requests; Txn/Resolve, Txn/Once and Txn/Iterators hold
--             the properties, Txn/Live the steps of a call on a live transaction
--   Db        ffi/src/db.rs: the entry points as bodies, and under `guard` in Db/Calls; Db/Utf8 is the test of
--             a path's bytes
--   Go        the Go side: errors.go is Go/Errors (Go/Errors/Meant: which error a status becomes), the
--             methods of `DB` in regolith.go are Go/Store. Go/Model is the map that they promise; Go/Tidy,
--             Go/Bodies, Go/Finish and Go/Steps go through one call, Go/Perform says when a handle stands for
--             the map, and Go/Refine puts calls in sequence. iter.go is Go/Iter:
--             Go/Iter/Frame reads a batch's frame, Go/Iter/Seats, Seated and Refill go through one call,
--             Go/Iter/Walk through all of a walk, Go/Iter/Gather and Sought through one after a seek,
--             Go/Iter/Failing and Told through one on which a read fails.
--             The methods of `Txn` in regolith.go are Go/Txn; Go/Txn/Keeps and Go/Txn/Handle follow the handle
--             behind them. Go/Txn/Overlay is what they promise, writes of its own over the store's map;
--             Go/Txn/Bodies, Go/Txn/Serve and Go/Txn/Steps go through one call, and Go/Txn/Refine puts calls in
--             sequence. Go/Opening is `Open` and `OpenWith` (Asks: what the
--             engine is asked for, Refuses: what is refused before, Session: opening, using, closing and
--             opening again), Go/Ranges `IterOptions` and its copy in C memory, Go/Handles `NewIter` and
--             `NewTxn` of `DB`, Go/Buffers `takeBuf`, Go/Iter/Borrow `BorrowValue` and `AppendValue` of iter.go
--
-- The engine is not part of this repository. What the code uses of it is a parameter: `WriteBatch`
-- in Batch, the cursor and the scan stream in Iter (`Scans`), the transaction in Txn
-- (`Transactions`), the store in Db (`Databases`), the default options in Options. `usize::MAX` is
-- a parameter of the code that narrows a 64-bit number. A pointer and a length into the caller's
-- memory are the memory's bytes or null; a pointer that was handed out is the number of an object
-- in a `Heap`, and a handle is what its pointer leads to. The unsafe contracts of the ABI (a
-- pointer is valid for its length, a handle is alive) are assumed by that.
--
-- The loop of `walk` takes fuel: the length of the frame. Every round consumes a byte or more, so
-- this is enough; a model without fuel panics. The loop of `regolith_iter_next_batch` recurses on
-- what is left of `max_entries`; that of `refill` in iter.go takes the frame's length as fuel, of
-- which a round takes 4 bytes or more. All other loops are structural.
--
-- Not modelled: buffer capacities and the lifetime extension in ffi/src/iter.rs; concurrency (the locks of
-- `DB` and `Txn` make each of their methods one step); the engine. Value lengths that Go narrows to `C.int`
-- are within the engine's limit of 1 GiB, which `C.int` holds. An allocation succeeds.
pub mod Base
pub mod Failure
pub mod Exec
pub mod Guard
pub mod Batch
pub mod Options
pub mod Iter
pub mod Txn
pub mod Db
pub mod Go
