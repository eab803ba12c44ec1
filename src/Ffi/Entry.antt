-- ===== src/Ffi/Entry.antt =====
-- The entry points of tierdb-core-ffi/src/lib.rs, as src/include/tierdb/ffi.hpp declares them. Each answers an
-- error for a null connection, hands its arguments on, and turns the answer into C strings.
use tierdb_duckdb.Prelude.{ℕ, ℤ, Text, text, Option, none, some}
use tierdb_duckdb.Outcome.{Exec, ok}
use tierdb_duckdb.Platform.{Platform, Reply, done, failed}
use tierdb_duckdb.Ffi.Strings.{alloc}
use tierdb_duckdb.Ffi.{
  Call, connect, list_tables, table_schema, acquire_read_scan, release_read_pin, txn_begin,
  txn_commit, txn_rollback, insert_chunk, delete_chunk, update_chunk, World, TierDbStringResult,
  TierDbStatus, into_c_string, perform, string_result, status,
}

-- `let Some(conn) = conn.as_mut() else { return err("connection pointer was null") }`
unfoldable pub on_conn {ℓ} :
    {C S : Type 0} {A : Type ℓ} → (C → S → Reply A × S) → Option C → S → Reply A × S
on_conn f none st = (failed (text "connection pointer was null"), st)
on_conn f (some conn) st = f conn st

module _ {x : Platform} where
  -- An entry point that answers a string.
  string_call :
      Call
      → (x.Conn → x.State → Reply Text × x.State)
      → Option x.Conn
      → Exec (World x) TierDbStringResult
  unfolding perform string_result on_conn
  string_call k f conn w = let (r, w') = perform k (on_conn f conn) w in string_result r w'

  -- An entry point that answers a status.
  status_call :
      Call
      → (x.Conn → x.State → Reply (Unit {0}) × x.State)
      → Option x.Conn
      → Exec (World x) TierDbStatus
  unfolding perform status on_conn
  status_call k f conn w = let (r, w') = perform k (on_conn f conn) w in status r w'

  unfoldable pub tierdb_list_tables : Option x.Conn → Exec (World x) TierDbStringResult
  unfolding string_call
  tierdb_list_tables = string_call list_tables x.list_tables

  unfoldable pub tierdb_table_schema :
      Option x.Conn → Text → Text → Exec (World x) TierDbStringResult
  unfolding string_call
  tierdb_table_schema conn s t = string_call (table_schema s t) (λ c. x.table_schema c s t) conn

  unfoldable pub tierdb_acquire_read_scan :
      Option x.Conn → Text → Text → Exec (World x) TierDbStringResult
  unfolding string_call
  tierdb_acquire_read_scan conn s t =
      string_call (acquire_read_scan s t) (λ c. x.acquire_read_scan c s t) conn

  unfoldable pub tierdb_release_read_pin : Option x.Conn → ℤ → Exec (World x) TierDbStatus
  unfolding status_call
  tierdb_release_read_pin conn pin =
      status_call (release_read_pin pin) (λ c. x.release_read_pin c pin) conn

  unfoldable pub tierdb_txn_begin : Option x.Conn → Exec (World x) TierDbStatus
  unfolding status_call
  tierdb_txn_begin = status_call txn_begin x.txn_begin

  unfoldable pub tierdb_txn_commit : Option x.Conn → Exec (World x) TierDbStatus
  unfolding status_call
  tierdb_txn_commit = status_call txn_commit x.txn_commit

  unfoldable pub tierdb_txn_rollback : Option x.Conn → Exec (World x) TierDbStatus
  unfolding status_call
  tierdb_txn_rollback = status_call txn_rollback x.txn_rollback

  unfoldable pub tierdb_insert_chunk :
      Option x.Conn → Text → Text → Text → Exec (World x) TierDbStringResult
  unfolding string_call
  tierdb_insert_chunk conn s t rows =
      string_call (insert_chunk s t rows) (λ c. x.insert_chunk c s t rows) conn

  unfoldable pub tierdb_delete_chunk :
      Option x.Conn → Text → Text → Text → Exec (World x) TierDbStringResult
  unfolding string_call
  tierdb_delete_chunk conn s t rows =
      string_call (delete_chunk s t rows) (λ c. x.delete_chunk c s t rows) conn

  unfoldable pub tierdb_update_chunk :
      Option x.Conn → Text → Text → Text → Exec (World x) TierDbStringResult
  unfolding string_call
  tierdb_update_chunk conn s t rows =
      string_call (update_chunk s t rows) (λ c. x.update_chunk c s t rows) conn

  -- `TierDBConnResult`: the error pointer and the connection pointer.
  unfoldable pub conn_result : Reply x.Conn → Exec (World x) (Option ℕ × Option x.Conn)
  conn_result (done c) w = (ok (none, some c), w)
  conn_result (failed e) w =
      let (p, h) = alloc (into_c_string e) w.heap in (ok (some p, none), record w { heap = h })

  unfoldable pub tierdb_connect : Text → Exec (World x) (Option ℕ × Option x.Conn)
  unfolding perform conn_result
  tierdb_connect dsn w = let (r, w') = perform (connect dsn) (x.connect dsn) w in conn_result r w'

  unfoldable pub tierdb_conn_free : Option x.Conn → Exec (World x) (Unit {0})
  tierdb_conn_free none w = (ok tt, w)
  tierdb_conn_free (some c) w = (ok tt, record w { outside = x.conn_free c w.outside })
