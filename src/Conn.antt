-- ===== src/Conn.antt =====
-- `Conn` of tierdb-core-ffi/src/catalog.rs: the Rust side of the write transaction, one flag beside the
-- Postgres session.
pub mod Shared
pub mod Reads
use tierdb_duckdb.Prelude.{Text, text, ◌≡◌, Bool, true, false, ◌++◌, if◌then◌else◌}
use tierdb_duckdb.Platform.{Platform, Reply, done, failed}
use tierdb_duckdb.Client
use tierdb_duckdb.Prelude.{ℤ}

-- The `postgres` crate: a session, and what `batch_execute` of a statement does to it.
pub record Postgres : Type 1 where
  pub Session : Type 0
  pub batch_execute : Text → Session → Reply (Unit {0}) × Session

pub record Conn (pg : Postgres) : Type 0 where
  pub client : pg.Session
  pub dsn : Text
  pub in_txn : Bool

module _ {pg : Postgres} where
  -- `self.client.batch_execute(sql).map_err(|e| …)?; self.in_txn = flag;`
  executed : Text → Bool → Reply (Unit {0}) × pg.Session → Conn pg → Reply (Unit {0}) × Conn pg
  executed what flag (done _, s) conn = (done tt, record conn { client = s; in_txn = flag })
  executed what flag (failed e, s) conn =
      (failed (what ++ text " failed: " ++ e), record conn { client = s })

  unfoldable pub txn_begin : Conn pg → Reply (Unit {0}) × Conn pg
  unfolding executed
  txn_begin conn =
      if conn.in_txn
      then (done tt, conn)
      else executed (text "BEGIN") true (pg.batch_execute (text "BEGIN") conn.client) conn

  unfoldable pub txn_commit : Conn pg → Reply (Unit {0}) × Conn pg
  unfolding executed
  txn_commit conn =
      if conn.in_txn
      then executed (text "COMMIT") false (pg.batch_execute (text "COMMIT") conn.client) conn
      else (done tt, conn)

  unfoldable pub txn_rollback : Conn pg → Reply (Unit {0}) × Conn pg
  unfolding executed
  txn_rollback conn =
      if conn.in_txn
      then executed (text "ROLLBACK") false (pg.batch_execute (text "ROLLBACK") conn.client) conn
      else (done tt, conn)

-- The entry points of tierdb-core-ffi/src/lib.rs run these methods on the connection behind the pointer, and a
-- release of a read pin (tierdb-core-ffi/src/scan.rs) leaves the flag alone.
pub record Runs (x : Platform) (pg : Postgres) : Type 0 where
  pub conn_of : x.Conn → x.State → Conn pg
  pub begins :
      (k : x.Conn) (st : x.State)
      → let (r, c) = txn_begin (conn_of k st) in
        ((x.txn_begin k st).0 ≡ r) × (conn_of k (x.txn_begin k st).1 ≡ c)
  pub commits :
      (k : x.Conn) (st : x.State)
      → let (r, c) = txn_commit (conn_of k st) in
        ((x.txn_commit k st).0 ≡ r) × (conn_of k (x.txn_commit k st).1 ≡ c)
  pub rolls_back :
      (k : x.Conn) (st : x.State)
      → let (r, c) = txn_rollback (conn_of k st) in
        ((x.txn_rollback k st).0 ≡ r) × (conn_of k (x.txn_rollback k st).1 ≡ c)
  pub releases :
      (k : x.Conn) (pin : ℤ) (st : x.State)
      → (conn_of k (x.release_read_pin k pin st).1).in_txn ≡ (conn_of k st).in_txn
