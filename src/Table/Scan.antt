-- ===== src/Table/Scan.antt =====
-- The scan of a table in src/storage/tierdb_table.cpp: what is bound, and how the merged read is run.
use tierdb_duckdb.Prelude.{ℕ, Text, text, List, [], ◌∷◌, ◌++◌, map}
use tierdb_duckdb.Outcome.{Exec, Outcome, io_exception, pure, raise, ◌>>=◌, ◌>>◌}
use tierdb_duckdb.Platform.{Platform, Reply, done, failed}
use tierdb_duckdb.Ffi.{World}
use tierdb_duckdb.Client.{TierDbClient}
use tierdb_duckdb.Client.Data.{TierDbTableSchema, TierDbPinnedScan}
use tierdb_duckdb.Transaction.{Session, get_pinned_scan}
use tierdb_duckdb.LakeDml.{fresh_connection, run_query}
use tierdb_duckdb.Table.{
  TierDbScanBindData, TierDbRoutingColumn, set_name, routing_columns, projected_scan_sql,
}

-- `GetRowIdColumns`, over the result of `RoutingColumns`.
abbrev pub row_id_columns : List TierDbRoutingColumn → List ℕ
row_id_columns = map (λ rc. rc.virtual_id)

-- `data->virtual_to_name[rc.virtual_id] = rc.name` for each routing column.
unfoldable pub name_all : List TierDbRoutingColumn → List (ℕ × Text) → List (ℕ × Text)
unfolding set_name
name_all [] m = m
name_all (rc ∷ rcs) m = name_all rcs (set_name rc.virtual_id rc.name m)

-- The bind data of `GetScanFunction`.
unfoldable pub bind_data :
    TierDbPinnedScan → TierDbTableSchema → List TierDbRoutingColumn → TierDbScanBindData
unfolding name_all
bind_data pinned schema routing = record {
  sql = pinned.scan_sql;
  attach_sql = pinned.attach_sql;
  column_names = map (λ c. c.name) schema.columns;
  virtual_to_name = name_all routing [];
}

module _ {x : Platform} where
  unfoldable pub lift_outcome : {A : Type 0} → Outcome A → Exec (Session x) A
  lift_outcome r σ = (r, σ)

  -- `GetScanFunction`: the physical columns of the entry are the columns of the schema.
  unfoldable pub get_scan_function :
      TierDbClient x → TierDbTableSchema → Exec (Session x) TierDbScanBindData
  unfolding lift_outcome bind_data routing_columns
  get_scan_function c schema = do
    pinned ← get_pinned_scan c schema
    routing ← lift_outcome (routing_columns x schema)
    pure (bind_data pinned schema routing)

  unfoldable pub failed_as : Text → Reply x.QueryResult → Exec (World x) x.QueryResult
  failed_as what (done result) w = pure result w
  failed_as what (failed e) w = raise io_exception (what ++ e) w

  unfoldable pub attach : x.Connection → Text → Exec (World x) (Unit {0})
  unfolding failed_as
  attach con [] w = pure tt w
  attach con (c ∷ sql) w =
      (do
        attached ← run_query con (c ∷ sql)
        failed_as (text "tierdb: lake catalog attach failed: ") attached
        pure tt)
        w

  -- `TierDBScanInitGlobal`: attach, then the merged read, on one connection.
  unfoldable pub scan_init_global : TierDbScanBindData → List ℕ → Exec (World x) x.QueryResult
  unfolding attach
  scan_init_global b column_ids = do
    con ← fresh_connection
    attach con b.attach_sql
    result ← run_query con (projected_scan_sql b column_ids)
    failed_as (text "tierdb: merged read failed: ") result
