-- ===== src/Sink.antt =====
-- The three sinks of the DML operators: src/storage/tierdb_insert.cpp, src/storage/tierdb_delete.cpp and
-- src/storage/tierdb_update.cpp. Each turns a chunk of rows into JSON, opens the write transaction, sends the
-- chunk, runs its lake statements and adds to its count. The mutex `lock` guards the addition.
pub mod Payload
pub mod Rows
pub mod Documents
pub mod Calls
pub mod Count
use tierdb_duckdb.Prelude.{
  ℕ, ◌+◌, ◌%◌, ◌^◌, ℤ, pos, negsuc, Text, text, Bool, true, false, Option, none, some, List, ltb,
  ◌==◌, if◌then◌else◌,
}
use tierdb_duckdb.Outcome.{
  Exec, Outcome, ok, internal_exception, pure, raise, crash, continue, ◌>>=◌, ◌>>◌,
}
use tierdb_duckdb.Platform.{Platform, Json}
use tierdb_duckdb.Ffi.{World}
use tierdb_duckdb.Client
use tierdb_duckdb.Client.{TierDbClient}
use tierdb_duckdb.Client.Data.{TierDbTableSchema, TierDbDmlResult}
use tierdb_duckdb.Transaction.{Session, ensure_write_txn, on_world}
use tierdb_duckdb.LakeDml.{execute_lake_dml}
use tierdb_duckdb.Std.{size_max}
use tierdb_duckdb.Sink.Payload.{DataChunk, insert_rows, delete_rows, update_rows, written}

-- A DML statement: its session, and the count of its global sink state.
pub record Statement (x : Platform) : Type 0 where
  pub session : Session x
  pub count : ℕ

module _ {x : Platform} where
  abbrev pub on_session : {A : Type 0} → Exec (Session x) A → Exec (Statement x) A
  on_session m s = let (r, σ) = m s.session in (r, record s { session = σ })

  -- `NumericCast<idx_t>(result.count)` and the addition to a 64-bit count.
  unfoldable pub add_count : ℤ → Exec (Statement x) (Unit {0})
  add_count (pos n) s = (ok tt, record s { count = (s.count + n) % size_max })
  add_count (negsuc n) s = raise internal_exception (text "NumericCast") s

  -- What follows the construction of the rows; `send` is the chunk call of the operator.
  unfoldable pub send_rows :
      TierDbClient x
      → (Text → Exec (World x) TierDbDmlResult)
      → Option Json
      → Exec (Statement x) (Unit {0})
  unfolding add_count written
  send_rows c send none s = crash s
  send_rows c send (some doc) s =
      (do
        on_session (ensure_write_txn c)
        result ← on_session (on_world (send (written (x.yyjson.write doc))))
        on_session (on_world (execute_lake_dml result))
        add_count result.count)
        s

  -- `if (chunk.size() == 0) { return …; }`
  unfoldable pub unless_empty : ℕ → Exec (Statement x) (Unit {0}) → Exec (Statement x) (Unit {0})
  unless_empty size body s = if size == 0 then (ok tt, s) else body s

  -- `PhysicalTierDBInsert::Sink`
  unfoldable pub insert_sink :
      TierDbClient x → TierDbTableSchema → List Text → DataChunk → Exec (Statement x) (Unit {0})
  unfolding unless_empty send_rows
  insert_sink c schema column_names chunk = unless_empty chunk.size (
      send_rows c (Client.insert_chunk c schema.schema_name schema.table_name)
        (insert_rows chunk column_names))

  -- `PhysicalTierDBDelete::Sink`
  unfoldable pub delete_sink :
      TierDbClient x
      → TierDbTableSchema
      → List ℕ
      → List Text
      → DataChunk
      → Exec (Statement x) (Unit {0})
  unfolding unless_empty send_rows
  delete_sink c schema key_indexes key_names chunk = unless_empty chunk.size (
      send_rows c (Client.delete_chunk c schema.schema_name schema.table_name)
        (delete_rows chunk key_indexes key_names))

  -- `PhysicalTierDBUpdate::Sink`
  unfoldable pub update_sink :
      TierDbClient x
      → TierDbTableSchema
      → List ℕ
      → List Text
      → List Text
      → DataChunk
      → Exec (Statement x) (Unit {0})
  unfolding unless_empty send_rows
  update_sink c schema new_value_indexes new_col_names old_key_names chunk =
      unless_empty chunk.size (
        send_rows c (Client.update_chunk c schema.schema_name schema.table_name)
          (update_rows chunk new_value_indexes new_col_names old_key_names))

  -- `GetDataInternal`: the one row of the result, `Value::BIGINT(NumericCast<int64_t>(count))`.
  unfoldable pub get_data : Exec (Statement x) ℤ
  get_data s =
      if ltb s.count (2 ^ 63)
      then (ok (pos s.count), s)
      else raise internal_exception (text "NumericCast") s
