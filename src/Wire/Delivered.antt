-- ===== src/Wire/Delivered.antt =====
-- The answers of tierdb-core-ffi/src/lib.rs, through the C ABI and the methods of src/storage/tierdb_client.cpp: every
-- field arrives, each text up to its first NUL byte.
use tierdb_duckdb.Prelude.{Text, ◌≡◌, some, List, map}
use tierdb_duckdb.Outcome.{Exec, ok}
use tierdb_duckdb.Platform.{Platform, Reply, done}
use tierdb_duckdb.Ffi.{into_c_string, World, c_str}
use tierdb_duckdb.Ffi.Entry.{on_conn}
use tierdb_duckdb.Client
use tierdb_duckdb.Client.{TierDbClient}
use tierdb_duckdb.Client.Data.{TierDbDmlResult}
use tierdb_duckdb.Client.Decode.{table_refs}
use tierdb_duckdb.Client.Served.{
  list_tables-answer, try_get_table_schema-answer, acquire_read_scan-answer, insert_chunk-answer,
  delete_chunk-answer, update_chunk-answer,
}
use tierdb_duckdb.Wire.{
  SerdeValue, ChunkOutcome, to_json, PinnedScan, pinned_scan_json, TableSchema, table_schema_json,
  table_values, tables_json, as_read, items_read,
}
use tierdb_duckdb.Wire.Laws.{IsI64, AllI64, Accessors}
use tierdb_duckdb.Wire.Decoded.{
  delivered_result, delivered_scan, delivered_schema, delivered_table, decode_dml_result-to_json,
  decode_pinned_scan-pinned_scan_json, decode_table_schema-table_schema_json,
  table_refs-tables_json,
}

-- The three kinds of chunk.
pub data Chunk : Type 0 where
  inserts deletes updates : Chunk

module _ (x : Platform) where
  abbrev pub chunk_function : Chunk → x.Conn → Text → Text → Text → x.State → Reply Text × x.State
  chunk_function inserts = x.insert_chunk
  chunk_function deletes = x.delete_chunk
  chunk_function updates = x.update_chunk

  -- The text of an answer, as yyjson reads it.
  abbrev pub Reads : Text → SerdeValue → Type 0
  Reads answer v = x.yyjson.read (into_c_string answer) ≡ some (as_read v)

module _ {x : Platform} where
  abbrev pub chunk_method :
      Chunk → TierDbClient x → Text → Text → Text → Exec (World x) TierDbDmlResult
  chunk_method inserts = Client.insert_chunk
  chunk_method deletes = Client.delete_chunk
  chunk_method updates = Client.update_chunk

  module _ (laws : Accessors x.yyjson) (c : TierDbClient x) (answer : Text) (w : World x) where
    -- The outcome of a chunk arrives: where the Rust side answers with it, the client returns its count,
    -- its lake statements and its attachment, which is the empty text where there is none.
    pub chunk_delivered :
        (k : Chunk) (s t rows : Text) (o : ChunkOutcome)
        → IsI64 o.count
        → (on_conn
            (λ conn. chunk_function x k conn (c_str s) (c_str t) (c_str rows))
            c.conn
            w.outside).0
          ≡ done answer
        → Reads x answer (to_json o)
        → (chunk_method k c s t rows w).0 ≡ ok (delivered_result o)
    chunk_delivered inserts s t rows o l e r =
        rw (insert_chunk-answer, e, r, decode_dml_result-to_json laws o l)
    chunk_delivered deletes s t rows o l e r =
        rw (delete_chunk-answer, e, r, decode_dml_result-to_json laws o l)
    chunk_delivered updates s t rows o l e r =
        rw (update_chunk-answer, e, r, decode_dml_result-to_json laws o l)

    -- A pinned scan arrives: where the Rust side answers with it, the client returns its SQL, its
    -- attachment, and its pin exactly if it has one.
    pub scan_delivered :
        (s t : Text) (p : PinnedScan)
        → AllI64 p.pin_id
        → (on_conn (λ conn. x.acquire_read_scan conn (c_str s) (c_str t)) c.conn w.outside).0
          ≡ done answer
        → Reads x answer (pinned_scan_json p)
        → (Client.acquire_read_scan c s t w).0 ≡ ok (delivered_scan p)
    scan_delivered s t p l e r =
        rw (acquire_read_scan-answer, e, r, decode_pinned_scan-pinned_scan_json laws p l)

    -- The schema of a table arrives: where the Rust side answers with it, the client finds the table, with
    -- its id, its names, its keys and every column in order.
    pub schema_delivered :
        (duckdb_type : Text → Text) (s t : Text) (schema : TableSchema)
        → IsI64 schema.table_id
        → (on_conn (λ conn. x.table_schema conn (c_str s) (c_str t)) c.conn w.outside).0
          ≡ done answer
        → Reads x answer (table_schema_json duckdb_type schema)
        → (Client.try_get_table_schema c s t w).0 ≡ ok (some (delivered_schema duckdb_type schema))
    schema_delivered f s t schema l e r =
        rw
          (try_get_table_schema-answer, e, r, decode_table_schema-table_schema_json laws f schema l)

    -- The list of tables arrives: where the Rust side answers with it, the client returns the name and the
    -- schema of each table, in order.
    pub tables_delivered :
        (tables : List (Text × Text))
        → (on_conn x.list_tables c.conn w.outside).0 ≡ done answer
        → Reads x answer (tables_json tables)
        → (Client.list_tables c w).0 ≡ ok (map delivered_table tables)
    unfolding tables_json as_read table_refs
    tables_delivered tables e r = rw (
      list_tables-answer,
      e,
      r,
      laws.each (items_read (table_values tables)),
      table_refs-tables_json laws tables,
    )
