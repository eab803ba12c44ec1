-- ===== src/Chunks/Lake.antt =====
-- What the inserts and the deletes of tierdb-core-ffi/src/write.rs share: the statements, the loop over the rows, the lock
-- and the target of the lake.
use tierdb_duckdb.Prelude.{ℤ, Text, text, Option, none, some, List, [], ◌∷◌, ◌++◌}
use tierdb_duckdb.Platform.{Reply, done, failed}
use tierdb_duckdb.Rust.{Fallible, lift, map_err, ◌>>=◌, ◌>>◌}
use tierdb_duckdb.Chunks.{Crates, Param, int_param, Cold, Table}

abbrev pub Tuples : Type 0
Tuples = List (List Text)

module _ (k : Crates) where
  -- `conn.client.execute(sql, params).map_err(|e| format!("{what}{e}"))?;`
  abbrev pub executed : Text → Text → List (Param k.Value) → Fallible k.Client (Unit {0})
  executed what sql params s = let (r, s') = k.execute sql params s in (map_err what r, s')

  -- `take_lake_lock`
  unfoldable pub take_lake_lock : ℤ → Fallible k.Client (Unit {0})
  take_lake_lock table_id =
      executed (text "lake commit lock failed: ") k.lake_commit_lock_sql (int_param table_id ∷ [])

  unfoldable pub table_ref_of : Table k.LakeCatalog → k.LakeCatalog → Option Text → Reply Cold
  table_ref_of meta catalog none = failed (
      text "direct table " ++ meta.schema ++ text "." ++ meta.name ++ text " has no lake_table_ref")
  table_ref_of meta catalog (some table_ref) =
      done (record { catalog = k.alias catalog; table_ref = table_ref })

  unfoldable pub cold_of : Table k.LakeCatalog → Option k.LakeCatalog → Reply Cold
  unfolding table_ref_of
  cold_of meta none = failed (text "cold rows routed to the lake without a catalog attachment")
  cold_of meta (some catalog) = table_ref_of meta catalog meta.lake_table_ref

  -- `live_cold`
  unfoldable pub live_cold : Table k.LakeCatalog → Reply Cold
  unfolding cold_of
  live_cold meta = cold_of meta meta.catalog

  -- `for row in rows { … }`, where the body appends to the tuples of the lake.
  unfoldable pub row_loop :
      (k.Value → Tuples → Fallible k.Client Tuples)
      → List k.Value
      → Tuples
      → Fallible k.Client Tuples
  row_loop body [] lake_rows s = (done lake_rows, s)
  row_loop body (row ∷ rows) lake_rows s = (body row lake_rows >>= row_loop body rows) s

  -- What follows the loop: nothing where no row went to the lake, otherwise the lock before the statements of
  -- the lake are built.
  unfoldable pub lake_statements :
      ℤ
      → Table k.LakeCatalog
      → (Cold → Tuples → Reply (List Text))
      → Tuples
      → Fallible k.Client (List Text)
  unfolding take_lake_lock live_cold
  lake_statements table_id meta build [] s = (done [], s)
  lake_statements table_id meta build (t ∷ ts) s =
      (do cold ← lift (live_cold meta); take_lake_lock table_id; lift (build cold (t ∷ ts))) s
