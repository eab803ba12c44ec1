-- ===== src/Lib.antt =====
-- Verification of the tierdb extension of DuckDB: the C++ code under src, and of the Rust crate under tierdb-core-ffi the
-- C ABI, the documents that cross it, the write transaction, the pinned reads and the writing of rows.
--
-- The program. A catalog owns one client (src/storage/tierdb_client.cpp), and the client one connection of
-- the crate tierdb-core-ffi, which it reaches through the C ABI of src/include/tierdb/ffi.hpp. Every
-- DuckDB transaction has a `TierDBTransaction` (src/storage/tierdb_transaction.cpp), which caches one frozen scan for
-- each table, keeps the read pins of those scans, and remembers whether it has opened the Postgres
-- write transaction. `TierDBTransactionManager` (src/storage/tierdb_transaction_manager.cpp) owns the transactions and
-- ends them. A table (src/storage/tierdb_table.cpp) turns its scan into SQL and its primary and tier key
-- into row-id columns. The sinks of INSERT, DELETE and UPDATE (src/storage/tierdb_insert.cpp, tierdb_delete.cpp
-- and tierdb_update.cpp) turn a chunk of rows into JSON (src/storage/tierdb_json.cpp), open the write
-- transaction, send the chunk and run the lake statements of the answer.
--
-- The files.
--   Prelude      booleans, bytes, integers and lists that the other files share
--   Outcome      how a C++ call ends: a result, an exception, or undefined behaviour
--   Platform     what the code calls and does not implement, as one record: the entry points
--                behind the C ABI, DuckDB's `Connection` and `StringUtil`, yyjson, two constants
--   Ffi          tierdb-core-ffi/src/abi.rs and lib.rs: C strings, their allocation and release, the
--                null checks of the entry points. `World` holds the state outside of the
--                extension, the allocated strings, and the history of calls, which no code reads
--   Client       `TierDBClient` and the structs of src/include/tierdb/client.hpp. Client/Decode reads the
--                JSON answers; Client/Served states each method as one call and the meaning of its
--                answer, without pointers, and the other files rest on that
--   Transaction  `GetPinnedScan`, `ReleasePins`, `EnsureWriteTxn`, `CommitWrite`, `RollbackWrite`
--   Manager      `StartTransaction`, `CommitTransaction`, `RollbackTransaction`; Manager/Interleaving runs
--                any number of transactions in any order
--   LakeDml      `RunOnFreshConnection` and `TierDBExecuteLakeDml`
--   Conn         `txn_begin`, `txn_commit` and `txn_rollback` of tierdb-core-ffi/src/catalog.rs, over the statements of the
--                `postgres` crate. Conn/Shared takes as a parameter that the entry points run these
--                methods, and compares the flag of the crate with the flag of the transaction.
--                Conn/Reads has `acquire_scan` of tierdb-core-ffi/src/scan.rs
--   Std          `std::string::find`, `substr` and `std::stoi`, with their exceptions
--   Types        `TierDBLogicalTypeFromString`
--   Table        `QuoteIdent`, `ProjectedScanSql`, `RoutingColumns`, `GetRowIdColumns`, `GetScanFunction`,
--                `GetVirtualColumns` and `TierDBScanInitGlobal`; Table/Fetch has `TierDBScanExecute` and the
--                executor's loop around it
--   Schema       `TierDBSchemaEntry` of src/storage/tierdb_schema.cpp: the table entries, made once and kept
--   Catalog      `LoadSchemas`, `ScanSchemas`, `LookupSchema` of src/storage/tierdb_catalog.cpp; Catalog/Attach has
--                `TierDBAttach` of src/storage/tierdb_storage.cpp, the constructor, and the operations that refuse
--   Planner      `PlanInsert`, `PlanDelete`, `PlanUpdate`; Planner/Fed carries their results to the sinks, and
--                Planner/Bind has `BindUpdateConstraints`
--   Value        `TierDBValueToJson` and `TierDBAddCell`
--   Sink         the `Sink` and `GetDataInternal` of the three operators. Sink/Payload builds the rows
--   Operators    the three operator objects, and Operators/Run a whole statement of any of them, over a list
--                of chunks
--   Protocol     the calls of a transaction with their answers, as an automaton over the C ABI and DuckDB's
--                `Connection`, and the statements of a transaction, which keep to it
--   Wire         the documents that tierdb-core-ffi/src/lib.rs, write.rs and scan.rs send, carried to the structs that
--                the client makes of them. The members of an object stand in the order of their keys, as
--                serde_json prints them without its feature `preserve_order`
--   Rust         Rust's `Result` beside a state
--   Chunks       tierdb-core-ffi/src/write.rs, over the crates as one record: Chunks/Row, Lake, Write, Delete and
--                Entry are its functions; Chunks/Steps, Planned, Removed and Does state what they do as lists
--                of steps. Chunks/Split joins it to the sink of an update, and Chunks/Answers to the row count of a
--                statement
--   Extension    `Load` of src/tierdb_extension.cpp
--   Safety       who reads and frees the C strings in the methods of the client
--   Tests        a concrete platform, and the theorems at concrete inputs
--
-- How it is modelled. Code with effects is a function from a state to an outcome and a state, and what
-- was written before an exception stays written. A mutex is held for the whole of the step that it
-- guards, so a method of the client or the transaction is one step. Manager/Interleaving takes the steps of
-- the transactions in any order; a commit or a rollback, whose calls could also be interleaved with
-- those of another transaction, counts as one step there, and its invariant speaks of nothing that
-- two transactions share but the map, which is locked. A `size_t` wraps around at 64 bits. Text is a
-- list of bytes, and `c_str` ends it at the first NUL.
--
-- Fuel. The retry loop of a lake statement has as much fuel as it has attempts, three; a loop that
-- ran out would count as undefined behaviour. `type_within` has one more unit of fuel than the name has
-- bytes, each call takes two bytes off, and running out counts as undefined behaviour as well.
--
-- The calls of a transaction in Protocol are the history that `World` keeps, and their answers are those of
-- the state outside in which each is made. Protocol orders the calls of one transaction alone; what
-- transactions do to each other over the shared connection is the matter of Conn/Shared and
-- Manager/Interleaving. The executor of Table/Fetch has fuel, and one call more than the result has chunks is
-- enough. The loops of Chunks run over the rows that they are given.
--
-- Not modelled: the names and flags that DuckDB asks of an operator, and statistics, storage info and database
-- size, which are DuckDB's defaults; of the Rust crate, the queries of catalog.rs, which Chunks and Conn/Reads
-- take as parameters, and the check that a C string is UTF-8; the crates `postgres`, serde_json and tierdb-core,
-- so that the answers of Platform are parameters too, which Chunks/Answers takes from Chunks for the row
-- count alone; and the values behind a real number, which the code hands on as they are.
pub mod Prelude
pub mod Outcome
pub mod Platform
pub mod Ffi
pub mod Chunks
pub mod Client
pub mod Transaction
pub mod Manager
pub mod LakeDml
pub mod Conn
pub mod Std
pub mod Types
pub mod Table
pub mod Rust
pub mod Schema
pub mod Operators
pub mod Planner
pub mod Catalog
pub mod Value
pub mod Sink
pub mod Wire
pub mod Protocol
pub mod Extension
pub mod Safety
pub mod Tests
