-- ===== src/Lib.antt =====
-- Verification of the Bitcoin indexer, a program that follows a Bitcoin node and keeps its blocks in
-- Postgres.
--
-- The program has two halves. `Prefetcher` (src/node/prefetcher.rs) is an iterator over the node's
-- blocks in order, which steps back when the node switches to another chain. `IndexerStore`
-- (src/db/pg.rs) takes these blocks, collects them to batches that worker threads write, and on a
-- reorg collects the new blocks until they overtake the chain; then it replaces the old ones in one
-- transaction. Readers follow the table `event`, in which a revert cancels a block.
--
-- - Base, Base/Tests, Base/Lists, Base/Codes, Base/Outcome: shared names, lists and numbers, and the outcomes of
--   code that fails, panics or waits. BTreeMap and below: the ordered map of the standard library, as
--   a sorted association list.
-- - Types, Bitcoin, Hash: src/types.rs, the block types of src/lib.rs, the data of the `bitcoin` crate,
--   and the cut of a hash in two of src/db/pg.rs.
-- - Prefetcher: `Prefetcher` of src/node/prefetcher.rs; Prefetcher/Window: the recorded hashes of
--   `track_reorgs`; Prefetcher/Session: what workers send and the inner loop of `next`;
--   Prefetcher/Chain: `chain_insert` of src/tests.rs; Prefetcher/Tracking, Prefetcher/Next,
--   Prefetcher/Progress: one call of `next`; Prefetcher/Order: `new` and a whole run; Prefetcher/Origin: that
--   what `next` hands out was sent; Prefetcher/Worker, Prefetcher/Rounds, Prefetcher/Sends: `Worker` and
--   the sessions that its threads come to; Prefetcher/WorkerTests: one of them;
--   Prefetcher/Client, Prefetcher/ClientTests: the node's client and `retry`;
--   Prefetcher/Tests: runs, one with a reorg.
-- - Db: the tables of src/db/pg/init.sql and the statements of src/db/pg.rs; Db/Current: the blocks
--   that are not extinct, as a chain; Db/Replay: the event log as its readers see it;
--   Db/Constraints: the keys of src/db/pg/mode_bulk.sql and src/db/pg/mode_normal.sql, and the
--   ranges of the columns.
-- - Utxo: `TxIdMap`, `UtxoSetCache` and `fetch_outputs` of src/db/pg.rs; Utxo/Maps, Utxo/Consuming,
--   Utxo/Fetching, Utxo/Creating, Utxo/Spending, Utxo/Tests: its maps, what it takes out, reads and
--   adds, and `process_blocks`. Format: the formatters of src/db/pg.rs, and the effect of their
--   statements in each mode; Format/Fees: the fees; Format/Sql, Format/Sql/Decimal,
--   Format/Sql/Reading, Format/Sql/Rows, Format/Sql/Tests: the texts of rows, and how they are read;
--   Format/Sql/Openings, Format/Sql/Statements, Format/Sql/Written: the same for whole statements;
--   Format/Values and below: `MultiValueSqlFormatter`; Format/Values/Formatters: the constructors of
--   the formatters, with the openings of their statements.
-- - Store: `IndexerStore` and `AsyncBlockInsertWorker` of src/db/pg.rs; Store/Insert: `insert`,
--   `finish_reorg` and the queries of heights and hashes; Store/Coherent, Store/Batch, Store/Indexed,
--   Store/Reorg, Store/Finish: that a database keeps one chain and a log that replays to it;
--   Store/Queue, Store/Holding, Store/Tip: the queue and the store outside of a reorg;
--   Store/Collecting, Store/Collects: the store inside of one; Store/Differs, Store/Positions,
--   Store/Relabel: where the chains part, where pushed blocks stand, and what a reorg leaves of the
--   rows; Store/Represents: `insert`; Store/Genuine, Store/Linked, Store/Indexing: `insert` in a whole
--   run; Store/Start, Store/Recovery: `new`; Store/Crash: a restart between two batches; Store/Writes:
--   the statements of a batch; Store/InFlight, Store/Operating, Store/Succeeds, Store/Overtaking,
--   Store/Progress: that `insert` succeeds; Store/Tests, Store/InsertTests, Store/IndexingTests, Store/CrashTests,
--   Store/WritesTests, Store/ProgressTests: a batch, a revert, a reorg, insertions, a crash and a fee.
-- - Indexer: `Indexer` of src/main.rs; Indexer/Chain, Indexer/Follow, Indexer/Run: that the prefetcher
--   and the store stay in step; Indexer/Tests: a run with a reorg.
-- - EventSource: `EventSource` of src/event_source.rs and src/db/pg.rs; EventSource/Pages,
--   EventSource/Reader: pages of events and a reader of them; EventSource/Tests: two
--   pages.
-- - Mempool: `MempoolStore` of src/db/pg.rs and the loop of src/bin/mempool-indexer.rs; Mempool/Rounds,
--   Mempool/Tests: its rounds. Fetcher and below: src/node/fetcher.rs. BottleCheck and below:
--   src/util.rs.
--
-- A hash is a number below 2 ^ 256, a height a number that wraps at 2 ^ 32 where the source adds to it.
-- The hash map is a list whose first entry for a key counts. The worker threads of the prefetcher are
-- a parameter of `next`: for each start of a session, the list of what they send in the order of arrival, and
-- a list that has run out is a wait for ever. `AreSessions` says what is relied on: each height at
-- most once, none below the start, the parent's id as the block has it. The node's answers are free
-- otherwise: sessions may disagree, which is a reorg. For a whole run, `block_of` says which block each
-- hash id is the id of, and the workers send such blocks (`AreBlocks`): a hash identifies its block. The three threads of the store pass each batch
-- on in order, so a queue of batches stands for them; stopping them writes the queue. Postgres is
-- modelled by the documented effect of each statement, which is an error where rows do not have the
-- keys, foreign keys or ranges of the schema, or where one statement would update a row twice. A failed operation gives no state, since its
-- error ends the program; in the mempool's loop an error leaves the store as it was,
-- and its rows are taken to fit in their columns.
-- `address_from_script` is a parameter.
--
-- The loop of `next` runs on fuel: each round but the last lowers the height by one, so one more than
-- the height is enough, and no outcome of the theorems is `out_of_fuel`.
--
-- The worker threads are also modelled (Prefetcher/Worker): they share a counter, and any of them takes
-- the next step. Their counter is bounded by 2 ^ 32, past which a height would wrap.
--
-- A cursor of events is the last id, and -1 and no cursor are one. Text is a list of character codes.
--
-- The `hex` crate, Postgres' reading of hexadecimal text, the text of an address, and the calls of the
-- node's client are parameters, with what is relied on as hypotheses (`IsHex`, `IsPlain`).
--
-- Not modelled: the text of the query of outputs, logging, connections, the parsing of the node's URL,
-- the command line, `wipe`, and the binaries that only print.
pub mod Base
pub mod BTreeMap
pub mod Types
pub mod Bitcoin
pub mod Hash
pub mod Db
pub mod Utxo
pub mod Format
pub mod Store
pub mod Indexer
pub mod EventSource
pub mod Mempool
pub mod Fetcher
pub mod BottleCheck
pub mod Prefetcher
