-- ===== src/Operators/Insert.antt =====
-- `PhysicalTierDBInsert` of src/storage/tierdb_insert.cpp.
use tierdb_duckdb.Prelude.{ℕ, Text, List, [], ◌∷◌, ◌++◌, ltb, ◌^◌, pos, text, if◌then◌else◌}
use tierdb_duckdb.Outcome.{Exec, ok, raise, internal_exception}
use tierdb_duckdb.Platform.{Platform}
use tierdb_duckdb.Client.{TierDbClient}
use tierdb_duckdb.Types.{LogicalType}
use tierdb_duckdb.Schema.{TableEntry}
use tierdb_duckdb.Value.{Value, bigint}
use tierdb_duckdb.Sink.{Statement, insert_sink}
use tierdb_duckdb.Sink.Payload.{DataChunk}

pub record PhysicalTierDbInsert : Type 0 where
  pub table : TableEntry
  pub column_names : List Text

-- The loop of the constructor over `table.GetColumns().Physical()`: all columns of a table entry are physical.
unfoldable pub name_loop : List (Text × LogicalType) → List Text → List Text
name_loop [] column_names = column_names
name_loop ((name, type) ∷ columns) column_names = name_loop columns (column_names ++ name ∷ [])

-- The constructor.
unfoldable pub physical_insert : TableEntry → PhysicalTierDbInsert
unfolding name_loop
physical_insert table = record { table = table; column_names = name_loop table.columns [] }

-- `GetGlobalSinkState`: `insert_count`.
abbrev pub get_global_sink_state : ℕ
get_global_sink_state = 0

module _ {x : Platform} where
  -- `Sink`
  unfoldable pub sink :
      TierDbClient x → PhysicalTierDbInsert → DataChunk → Exec (Statement x) (Unit {0})
  unfolding insert_sink
  sink c op chunk = insert_sink c op.table.tierdb_schema op.column_names chunk

  -- `GetDataInternal`: the one row of the result.
  unfoldable pub get_data_internal : Exec (Statement x) (List Value)
  get_data_internal s =
      if ltb s.count (2 ^ 63)
      then (ok (Value.signed bigint (pos s.count) ∷ []), s)
      else raise internal_exception (text "NumericCast") s
