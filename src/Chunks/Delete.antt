-- ===== src/Chunks/Delete.antt =====
-- `delete_rows` of tierdb-core-ffi/src/write.rs.
use tierdb_duckdb.Prelude.{
  ℤ, Text, text, text_eq, Bool, Option, none, some, List, [], ◌∷◌, ◌++◌, map, if◌then◌else◌,
}
use tierdb_duckdb.Platform.{Reply, done, failed}
use tierdb_duckdb.Wire.{TableSchema}
use tierdb_duckdb.Rust.{Fallible, return, fail, lift, chain, ◌>>=◌, ◌>>◌}
use tierdb_duckdb.Table.{quote_ident}
use tierdb_duckdb.Chunks.{
  Crates, Param, int_param, text_param, json_param, ColdSink, delta, lake, DeletePlan, Cold, Table,
  Cutline,
}
use tierdb_duckdb.Chunks.Row.{
  pk_vals, tombstone_payload, retention_error, tier_key, target, rejected,
}
use tierdb_duckdb.Chunks.Lake.{Tuples, executed, row_loop, lake_statements}

-- `meta.columns.iter().find(|c| &c.name == pk)`
unfoldable pub find_column : Text → List (Text × Text) → Option (Text × Text)
find_column pk [] = none
find_column pk ((name, ty) ∷ columns) =
    if text_eq name pk then some (name, ty) else find_column pk columns

unfoldable pub column_or : Text → Option (Text × Text) → Reply (Text × Text)
column_or pk none = failed (text "primary key column '" ++ pk ++ text "' is not a heap column")
column_or pk (some c) = done c

-- `pk_columns`
unfoldable pub pk_columns : List Text → List (Text × Text) → Reply (List (Text × Text))
unfolding find_column column_or
pk_columns [] columns = done []
pk_columns (pk ∷ pks) columns =
    chain (column_or pk (find_column pk columns))
      (λ c. chain (pk_columns pks columns) (λ cs. done (c ∷ cs)))

module _ (k : Crates) (ts : TableSchema) where
  abbrev pub tombstone_params : k.Value → ℤ → List Text → List (Param k.Value)
  tombstone_params row key vals =
      int_param ts.table_id
      ∷ text_param (k.encode_pk vals)
      ∷ int_param k.delta_op_tombstone
      ∷ int_param key
      ∷ json_param (tombstone_payload k row ts.primary_key_cols)
      ∷ []

  unfoldable pub floor_of : Option Cutline → Option Text
  unfolding quote_ident
  floor_of none = none
  floor_of (some c) =
      some
        (quote_ident ts.tier_key_col ++ text " >= " ++ k.pg_literal ts.tier_key_type c.tier_key_hi)

  abbrev pub heap_delete_sql : Option Cutline → Bool → Text
  heap_delete_sql cutline heap_floor =
      k.heap_delete_by_pk_sql ts.schema_name ts.table_name ts.primary_key_cols
        (if heap_floor then floor_of cutline else none)

module _ (k : Crates) (dsn : Text) (ts : TableSchema) (meta : Table k.LakeCatalog) (mode : k.Mode)
    (cutline : Option Cutline) (retention : Option ℤ) where
  -- `match plan.cold { … }`
  unfoldable pub cold_delete :
      List (Text × Text)
      → k.Value
      → ℤ
      → List Text
      → Option ColdSink
      → Tuples
      → Fallible k.Client Tuples
  cold_delete columns row key vals none lake_pk_rows s = (done lake_pk_rows, s)
  cold_delete columns row key vals (some lake) lake_pk_rows s =
      (done (lake_pk_rows ++ k.lake_row_tuple row columns ∷ []), s)
  cold_delete columns row key vals (some delta) lake_pk_rows s =
      (do
        executed k (text "delta tombstone failed: ") k.delta_write_sql
            (tombstone_params k ts row key vals)
        return lake_pk_rows)
        s

  -- `if plan.from_heap { … }`
  unfoldable pub heap_delete : List Text → DeletePlan → Fallible k.Client (Unit {0})
  unfolding floor_of
  heap_delete vals plan s =
      if plan.from_heap
      then executed k (text "heap delete failed: ") (heap_delete_sql k ts cutline plan.heap_floor)
          (map text_param vals) s
      else (done tt, s)

  -- The body of the loop once the row has its plan and its key.
  unfoldable pub delete_planned :
      List (Text × Text) → k.Value → ℤ → DeletePlan → List Text → Tuples → Fallible k.Client Tuples
  unfolding cold_delete heap_delete
  delete_planned columns row key plan vals lake_pk_rows s =
      if rejected k plan.cold plan.check_retention key retention
      then fail (retention_error k ts key retention) s
      else (do
        pushed ← cold_delete columns row key vals plan.cold lake_pk_rows
        heap_delete vals plan
        return pushed)
          s

  -- The body of the loop.
  unfoldable pub delete_row : List (Text × Text) → k.Value → Tuples → Fallible k.Client Tuples
  unfolding delete_planned
  delete_row columns row lake_pk_rows s =
      (do
        key ← lift (tier_key k ts row)
        vals ← lift (pk_vals k row ts.primary_key_cols)
        delete_planned columns row key (k.plan_delete mode (target k cutline key)) vals
            lake_pk_rows)
        s

  unfoldable pub tier_lt : Option Cutline → Option ℤ
  tier_lt none = none
  tier_lt (some c) = some c.tier_key_hi

  -- The one statement of the lake.
  unfoldable pub lake_delete_sql : Cold → Tuples → Reply (List Text)
  unfolding tier_lt
  lake_delete_sql cold tuples =
      chain (k.lake_delete dsn meta cold tuples (tier_lt cutline)) (λ sql. done (sql ∷ []))

  -- `delete_rows`
  unfoldable pub delete_rows : List k.Value → Fallible k.Client (List Text)
  unfolding delete_row pk_columns lake_delete_sql
  delete_rows rows s =
      (do
        columns ← lift (pk_columns meta.pk_cols meta.columns)
        lake_pk_rows ← row_loop k (delete_row columns) rows []
        lake_statements k ts.table_id meta lake_delete_sql lake_pk_rows)
        s
