-- ===== src/Operators/Update.antt =====
-- `PhysicalTierDBUpdate` of src/storage/tierdb_update.cpp.
use tierdb_duckdb.Prelude.{ℕ, Text, List, [], ◌∷◌, ltb, ◌^◌, pos, text, if◌then◌else◌}
use tierdb_duckdb.Outcome.{Exec, ok, raise, internal_exception}
use tierdb_duckdb.Platform.{Platform}
use tierdb_duckdb.Client.{TierDbClient}
use tierdb_duckdb.Schema.{TableEntry}
use tierdb_duckdb.Planner.{PhysicalTierDbUpdate}
use tierdb_duckdb.Value.{Value, bigint}
use tierdb_duckdb.Sink.{Statement, update_sink}
use tierdb_duckdb.Sink.Payload.{DataChunk}

-- The constructor.
unfoldable pub physical_update : List ℕ → List Text → List Text → PhysicalTierDbUpdate
physical_update new_value_indexes new_col_names old_key_names = record {
  new_value_indexes = new_value_indexes;
  new_col_names = new_col_names;
  old_key_names = old_key_names;
}

-- `GetGlobalSinkState`: `update_count`.
abbrev pub get_global_sink_state : ℕ
get_global_sink_state = 0

module _ {x : Platform} where
  -- `Sink`
  unfoldable pub sink :
      TierDbClient x → TableEntry → PhysicalTierDbUpdate → DataChunk → Exec (Statement x) (Unit {0})
  unfolding update_sink
  sink c table op chunk =
      update_sink c table.tierdb_schema op.new_value_indexes op.new_col_names op.old_key_names chunk

  -- `GetDataInternal`: the one row of the result.
  unfoldable pub get_data_internal : Exec (Statement x) (List Value)
  get_data_internal s =
      if ltb s.count (2 ^ 63)
      then (ok (Value.signed bigint (pos s.count) ∷ []), s)
      else raise internal_exception (text "NumericCast") s
