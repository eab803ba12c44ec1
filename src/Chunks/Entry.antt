-- ===== src/Chunks/Entry.antt =====
-- `insert_chunk`, `delete_chunk` and `update_chunk` of tierdb-core-ffi/src/write.rs, and `TableSchema::mode` and `table`
-- of tierdb-core-ffi/src/catalog.rs.
use tierdb_duckdb.Prelude.{
  ℤ, pos, Text, text, Option, none, some, List, [], ◌∷◌, ◌++◌, length, if◌then◌else◌,
}
use tierdb_duckdb.Platform.{Reply, done, failed}
use tierdb_duckdb.Wire.{TableSchema, ChunkOutcome}
use tierdb_duckdb.Rust.{Fallible, return, lift, map_err, chain, ◌>>=◌}
use tierdb_duckdb.Chunks.{Crates, Cutline, Table}
use tierdb_duckdb.Chunks.Write.{write_rows}
use tierdb_duckdb.Chunks.Delete.{delete_rows}

module _ (k : Crates) where
  -- What a chunk function looks up before it touches a row.
  pub record Prepared : Type 0 where
    pub ts : TableSchema
    pub mode : k.Mode
    pub cutline : Option Cutline
    pub retention : Option ℤ
    pub catalog : Option k.LakeCatalog
    pub meta : Table k.LakeCatalog

  -- `TableSchema::mode`
  unfoldable pub mode_of : TableSchema → Reply k.Mode
  mode_of ts = k.mode_from_catalog ts.mode ts.keep_heap ts.heap_retention_lag

  -- `TableSchema::table`
  unfoldable pub table_of : TableSchema → Option k.LakeCatalog → Reply (Table k.LakeCatalog)
  unfolding mode_of
  table_of ts catalog = chain (mode_of ts) (λ mode. done (record {
    schema = ts.schema_name;
    name = ts.table_name;
    columns = ts.columns;
    pk_cols = ts.primary_key_cols;
    lake_table_ref = some ts.lake_table_ref;
    catalog = catalog;
  }))

  unfoldable pub endpoint_or : TableSchema → Option k.LakeCatalog → Reply (Option k.LakeCatalog)
  endpoint_or ts (some c) = done (some c)
  endpoint_or ts none = failed (
      text "direct table \""
      ++ ts.schema_name
      ++ text "\".\""
      ++ ts.table_name
      ++ text "\" needs a live catalog endpoint, but storage profile '"
      ++ ts.storage_profile
      ++ text "' does not configure one")

  unfoldable pub resolved : TableSchema → k.Mode → Fallible k.Client (Option k.LakeCatalog)
  unfolding endpoint_or
  resolved ts mode s =
      if k.is_direct mode
      then (k.lake_catalog ts >>= λ found. lift (endpoint_or ts found)) s
      else (done none, s)

  -- `resolve_catalog`
  unfoldable pub resolve_catalog : TableSchema → Fallible k.Client (Option k.LakeCatalog)
  unfolding mode_of resolved
  resolve_catalog ts s = (lift (mode_of ts) >>= resolved ts) s

  -- The lookups at the start of the three functions.
  unfoldable pub prepare : Text → Text → Fallible k.Client Prepared
  unfolding resolve_catalog table_of
  prepare schema table s =
      (do
        ts ← k.table_schema schema table
        mode ← lift (mode_of ts)
        cutline ← k.cutline ts.table_id
        retention ← k.retention_line ts.table_id
        catalog ← resolve_catalog ts
        meta ← lift (table_of ts catalog)
        return (record {
          ts = ts;
          mode = mode;
          cutline = cutline;
          retention = retention;
          catalog = catalog;
          meta = meta;
        }))
        s

  unfoldable pub attach_of : Option k.LakeCatalog → Option Text
  attach_of none = none
  attach_of (some c) = some (k.attach_sql c)

  abbrev pub writes : Text → Prepared → List k.Value → Fallible k.Client (List Text)
  writes dsn p rows = write_rows k dsn p.ts p.meta p.mode p.cutline p.retention rows

  abbrev pub deletes : Text → Prepared → List k.Value → Fallible k.Client (List Text)
  deletes dsn p rows = delete_rows k dsn p.ts p.meta p.mode p.cutline p.retention rows

  -- `ChunkOutcome { … }`; a `Vec` has fewer than 2 ^ 63 elements, so `len() as i64` keeps its value.
  abbrev pub outcome : Prepared → List k.Value → List Text → ChunkOutcome
  outcome p rows lake_sql = record {
    count = pos (length rows);
    attach_sql = attach_of p.catalog;
    lake_sql = lake_sql;
  }

  -- `insert_chunk`; `dsn` is `conn.dsn`.
  unfoldable pub insert_chunk : Text → Text → Text → Text → Fallible k.Client ChunkOutcome
  unfolding prepare attach_of write_rows
  insert_chunk dsn schema table rows_json s =
      (do
        p ← prepare schema table
        rows ← lift (
            map_err (text "insert payload is not a JSON array of rows: ")
              (k.rows_from_str rows_json))
        lake_sql ← writes dsn p rows
        return (outcome p rows lake_sql))
        s

  -- `delete_chunk`
  unfoldable pub delete_chunk : Text → Text → Text → Text → Fallible k.Client ChunkOutcome
  unfolding prepare attach_of delete_rows
  delete_chunk dsn schema table rows_json s =
      (do
        p ← prepare schema table
        rows ← lift (
            map_err (text "delete payload is not a JSON array of rows: ")
              (k.rows_from_str rows_json))
        lake_sql ← deletes dsn p rows
        return (outcome p rows lake_sql))
        s

  unfoldable pub or_missing : Text → Option k.Value → Reply k.Value
  or_missing e none = failed e
  or_missing e (some v) = done v

  abbrev pub Rows : Type 0
  Rows = List k.Value

  -- The loop over the pairs of an update.
  unfoldable pub split_loop : Rows → Rows → Rows → Reply (Rows × Rows)
  unfolding or_missing
  split_loop [] old_rows new_rows = done (old_rows, new_rows)
  split_loop (pair ∷ pairs) old_rows new_rows =
      chain (or_missing (text "update row is missing its 'old' key") (k.get pair (text "old")))
        (λ old.
          chain
            (or_missing (text "update row is missing its 'new' image") (k.get pair (text "new")))
            (λ new. split_loop pairs (old_rows ++ old ∷ []) (new_rows ++ new ∷ [])))

  -- `update_chunk`
  unfoldable pub update_chunk : Text → Text → Text → Text → Fallible k.Client ChunkOutcome
  unfolding prepare attach_of split_loop
  update_chunk dsn schema table rows_json s =
      (do
        p ← prepare schema table
        pairs ← lift (
            map_err (text "update payload is not a JSON array of rows: ")
              (k.rows_from_str rows_json))
        split ← lift (split_loop pairs [] [])
        removed ← deletes dsn p split.0
        written ← writes dsn p split.1
        return (outcome p split.0 (removed ++ written)))
        s
