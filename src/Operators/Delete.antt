-- ===== src/Operators/Delete.antt =====
-- `PhysicalTierDBDelete` of src/storage/tierdb_delete.cpp.
use tierdb_duckdb.Prelude.{ℕ, Text, List, [], ◌∷◌, ltb, ◌^◌, pos, text, if◌then◌else◌}
use tierdb_duckdb.Outcome.{Exec, ok, raise, internal_exception}
use tierdb_duckdb.Platform.{Platform}
use tierdb_duckdb.Client.{TierDbClient}
use tierdb_duckdb.Schema.{TableEntry}
use tierdb_duckdb.Planner.{PhysicalTierDbDelete}
use tierdb_duckdb.Value.{Value, bigint}
use tierdb_duckdb.Sink.{Statement, delete_sink}
use tierdb_duckdb.Sink.Payload.{DataChunk}

-- The constructor.
unfoldable pub physical_delete : List ℕ → List Text → PhysicalTierDbDelete
physical_delete key_indexes key_names = record { key_indexes = key_indexes; key_names = key_names }

-- `GetGlobalSinkState`: `delete_count`.
abbrev pub get_global_sink_state : ℕ
get_global_sink_state = 0

module _ {x : Platform} where
  -- `Sink`
  unfoldable pub sink :
      TierDbClient x → TableEntry → PhysicalTierDbDelete → DataChunk → Exec (Statement x) (Unit {0})
  unfolding delete_sink
  sink c table op chunk = delete_sink c table.tierdb_schema op.key_indexes op.key_names chunk

  -- `GetDataInternal`: the one row of the result.
  unfoldable pub get_data_internal : Exec (Statement x) (List Value)
  get_data_internal s =
      if ltb s.count (2 ^ 63)
      then (ok (Value.signed bigint (pos s.count) ∷ []), s)
      else raise internal_exception (text "NumericCast") s
