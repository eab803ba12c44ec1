-- ===== src/Chunks/Write.antt =====
-- `write_rows` of tierdb-core-ffi/src/write.rs.
use tierdb_duckdb.Prelude.{
  ℤ, Text, text, Bool, Option, none, some, List, [], ◌∷◌, ◌++◌, if◌then◌else◌,
}
use tierdb_duckdb.Platform.{done}
use tierdb_duckdb.Wire.{TableSchema}
use tierdb_duckdb.Rust.{Fallible, return, fail, lift, ◌>>=◌, ◌>>◌}
use tierdb_duckdb.Chunks.{
  Crates, Param, int_param, text_param, json_param, ColdSink, delta, lake, InsertPlan, Table,
  Cutline,
}
use tierdb_duckdb.Chunks.Row.{
  pk_vals, normalize_json_columns, retention_error, tier_key, target, rejected,
}
use tierdb_duckdb.Chunks.Lake.{Tuples, executed, row_loop, lake_statements}

module _ (k : Crates) (ts : TableSchema) where
  abbrev pub upsert_params : k.Value → ℤ → List Text → List (Param k.Value)
  upsert_params row key vals =
      int_param ts.table_id
      ∷ text_param (k.encode_pk vals)
      ∷ int_param k.delta_op_upsert
      ∷ int_param key
      ∷ json_param row
      ∷ []

module _ (k : Crates) (dsn : Text) (ts : TableSchema) (meta : Table k.LakeCatalog) (mode : k.Mode)
    (cutline : Option Cutline) (retention : Option ℤ) where
  -- `match plan.cold { … }`
  unfoldable pub cold_write : k.Value → ℤ → Option ColdSink → Tuples → Fallible k.Client Tuples
  cold_write row key none lake_rows s = (done lake_rows, s)
  cold_write row key (some lake) lake_rows s =
      (done (lake_rows ++ k.lake_row_tuple row meta.columns ∷ []), s)
  cold_write row key (some delta) lake_rows s =
      (do
        vals ← lift (pk_vals k row ts.primary_key_cols)
        executed k (text "delta write failed: ") k.delta_write_sql (upsert_params k ts row key vals)
        return lake_rows)
        s

  -- `if plan.to_heap { … }`
  unfoldable pub heap_write : k.Value → Bool → Fallible k.Client (Unit {0})
  heap_write row to_heap s =
      if to_heap
      then executed k (text "heap insert failed: ")
          (k.heap_insert_from_jsonb_sql ts.schema_name ts.table_name) (json_param row ∷ []) s
      else (done tt, s)

  -- The body of the loop once the row has its plan.
  unfoldable pub write_planned : k.Value → ℤ → InsertPlan → Tuples → Fallible k.Client Tuples
  unfolding cold_write heap_write
  write_planned row key plan lake_rows s =
      if rejected k plan.cold plan.check_retention key retention
      then fail (retention_error k ts key retention) s
      else (do
        pushed ← cold_write row key plan.cold lake_rows
        heap_write row plan.to_heap
        return pushed)
          s

  -- The body of the loop.
  unfoldable pub write_row : k.Value → Tuples → Fallible k.Client Tuples
  unfolding write_planned
  write_row given lake_rows s =
      let row = normalize_json_columns k given ts.columns in
      (do
        key ← lift (tier_key k ts row)
        write_planned row key (k.plan_insert mode (target k cutline key)) lake_rows)
        s

  -- `write_rows`
  unfoldable pub write_rows : List k.Value → Fallible k.Client (List Text)
  unfolding write_row
  write_rows rows s =
      (row_loop k write_row rows [] >>= lake_statements k ts.table_id meta (k.lake_upsert dsn meta))
        s
