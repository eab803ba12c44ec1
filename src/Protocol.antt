-- ===== src/Protocol.antt =====
-- What a DuckDB transaction promises to the tierdb core, as an automaton over the calls of
-- src/include/tierdb/ffi.hpp and of DuckDB's `Connection`. The transaction itself is in
-- src/storage/tierdb_transaction.cpp, src/storage/tierdb_transaction_manager.cpp, the operators and the scan.
pub mod Steps
pub mod Lake
pub mod Boundary
pub mod Statements
pub mod Refines
use tierdb_duckdb.Prelude.{
  ℕ, ℤ, Text, Bool, true, false, Option, none, some, List, [], ◌∷◌, ◌++◌, if◌then◌else◌,
}
use tierdb_duckdb.Outcome.{Exec, ◌>>=◌, ◌>>◌, pure}
use tierdb_duckdb.Platform.{Platform, Json, Reply, done, failed}
use tierdb_duckdb.Ffi
use tierdb_duckdb.Ffi.{Call, World, into_c_string}
use tierdb_duckdb.Ffi.Entry.{on_conn}
use tierdb_duckdb.Client.{TierDbClient}
use tierdb_duckdb.Client.Data.{TierDbTableSchema, TierDbPinnedScan}
use tierdb_duckdb.Client.Decode.{decode_pinned_scan}
use tierdb_duckdb.Transaction.{TierDbTransaction, new_transaction, Session, on_world}
use tierdb_duckdb.Transaction.Writes.{Ending, commits, rolls_back}
use tierdb_duckdb.Manager.{commit_session, rollback_session}
use tierdb_duckdb.Table.Scan.{get_scan_function, scan_init_global}
use tierdb_duckdb.Sink.Payload.{DataChunk}
use tierdb_duckdb.Operators.Run.{Operator, run_operator}

-- A transaction that runs, with or without an open write transaction, or one that is being closed by a commit or a
-- rollback; with the read pins that it still has to give back, the oldest first.
pub data Stage : Type 0 where
  active : Bool → List ℤ → Stage
  closing : Ending → List ℤ → Stage

-- What the calls leave: the state outside of the extension, and the calls so far with the latest first.
pub record Trace (x : Platform) : Type 0 where
  pub outside : x.State
  pub history : List Call

abbrev pub view : {x : Platform} → World x → Trace x
view w = record { outside = w.outside; history = w.history }

abbrev pub granted : {A : Type 0} → Reply A → Bool
granted (done a) = true
granted (failed e) = false

-- After a release that is refused, the pins that are left are given up.
abbrev pub kept : Bool → List ℤ → List ℤ
kept true ps = ps
kept false ps = []

-- The pin that a scan comes with, if it has one.
abbrev pub pin_of : TierDbPinnedScan → List ℤ
pin_of p = if p.has_pin then p.pin_id ∷ [] else []

module _ (x : Platform) where
  abbrev pub pin_read : Option Json → List ℤ
  pin_read none = []
  pin_read (some root) = pin_of (decode_pinned_scan x.yyjson root)

  -- The pin in the answer of a scan.
  abbrev pub pin_in : Reply Text → List ℤ
  pin_in (done answer) = pin_read (x.yyjson.read (into_c_string answer))
  pin_in (failed e) = []

module _ {x : Platform} (c : TierDbClient x) where
  -- A call of the core, with what the core answers to it.
  abbrev pub made :
      {A : Type 0} → Call → (x.Conn → x.State → Reply A × x.State) → Trace x → Reply A × Trace x
  made k f p =
      let (r, st) = on_conn f c.conn p.outside in
      (r, record { outside = st; history = k ∷ p.history })

  -- One call with its answer. A scan brings the pin of its answer; a `BEGIN` opens the write transaction if it is
  -- granted; a chunk needs the write transaction; a commit or a rollback closes, with or without an
  -- error; only then do pins go back, the oldest first, and no more once one is refused.
  pub data Step : Stage → Trace x → Stage → Trace x → Type 0 where
    scanned :
        {b : Bool} {ps : List ℤ} {p : Trace x} (s t : Text)
        → Step
            (active b ps)
            p
            (active b (
              ps
              ++ pin_in x (made (Ffi.acquire_read_scan s t) (λ k. x.acquire_read_scan k s t) p).0))
            (made (Ffi.acquire_read_scan s t) (λ k. x.acquire_read_scan k s t) p).1
    begun :
        {ps : List ℤ} {p : Trace x}
        → Step
            (active false ps)
            p
            (active (granted (made Ffi.txn_begin x.txn_begin p).0) ps)
            (made Ffi.txn_begin x.txn_begin p).1
    inserted :
        {ps : List ℤ} {p : Trace x} (s t rows : Text)
        → Step
            (active true ps)
            p
            (active true ps)
            (made (Ffi.insert_chunk s t rows) (λ k. x.insert_chunk k s t rows) p).1
    deleted :
        {ps : List ℤ} {p : Trace x} (s t rows : Text)
        → Step
            (active true ps)
            p
            (active true ps)
            (made (Ffi.delete_chunk s t rows) (λ k. x.delete_chunk k s t rows) p).1
    updated :
        {ps : List ℤ} {p : Trace x} (s t rows : Text)
        → Step
            (active true ps)
            p
            (active true ps)
            (made (Ffi.update_chunk s t rows) (λ k. x.update_chunk k s t rows) p).1
    opened :
        {b : Bool} {ps : List ℤ} {p : Trace x}
        → Step (active b ps) p (active b ps) (record {
          outside = (x.open_connection p.outside).1;
          history = Ffi.open_connection ∷ p.history;
        })
    queried :
        {b : Bool} {ps : List ℤ} {p : Trace x} (con : x.Connection) (sql : Text)
        → Step (active b ps) p (active b ps) (record {
          outside = (x.query con sql p.outside).1;
          history = Ffi.query sql ∷ p.history;
        })
    committed :
        {ps : List ℤ} {p : Trace x}
        → Step (active true ps) p (closing commits ps) (made Ffi.txn_commit x.txn_commit p).1
    rolled_back :
        {ps : List ℤ} {p : Trace x}
        → Step (active true ps) p (closing rolls_back ps) (made Ffi.txn_rollback x.txn_rollback p).1
    released :
        {e : Ending} {pin : ℤ} {ps : List ℤ} {p : Trace x}
        → Step
            (closing e (pin ∷ ps))
            p
            (closing e (
              kept
                (granted (made (Ffi.release_read_pin pin) (λ k. x.release_read_pin k pin) p).0)
                ps))
            (made (Ffi.release_read_pin pin) (λ k. x.release_read_pin k pin) p).1

  -- The calls that took the trace `p` to `p'`. A transaction that has not written closes without a call.
  pub data Run : Stage → Trace x → Stage → Trace x → Type 0 where
    stop : {a : Stage} {p : Trace x} → Run a p a p
    call : {a b d : Stage} {p q r : Trace x} → Run a p b q → Step b q d r → Run a p d r
    close :
        {e : Ending} {a : Stage} {ps : List ℤ} {p q : Trace x}
        → Run a p (active false ps) q
        → Run a p (closing e ps) q

-- What a client does in a transaction: a read of columns of a table, or a DML statement over chunks.
pub data Action : Type 0 where
  reads : TierDbTableSchema → List ℕ → Action
  writes : Operator → List DataChunk → Action

module _ {x : Platform} where
  abbrev pub begin : World x → Session x
  begin w = record { txn = new_transaction; world = w }

  -- A statement that fails leaves what it did.
  unfoldable pub act : TierDbClient x → Action → Session x → Session x
  unfolding get_scan_function scan_init_global run_operator
  act c (reads schema column_ids) σ =
      ((do b ← get_scan_function c schema; on_world (scan_init_global b column_ids)) σ).1
  act c (writes op chunks) σ = (run_operator c op chunks σ).1

  unfoldable pub act_all : TierDbClient x → List Action → Session x → Session x
  unfolding act
  act_all c [] σ = σ
  act_all c (a ∷ rest) σ = act_all c rest (act c a σ)

  unfoldable pub finish : TierDbClient x → Ending → Session x → Session x
  unfolding commit_session rollback_session
  finish c commits σ = (commit_session c σ).1
  finish c rolls_back σ = (rollback_session c σ).1
