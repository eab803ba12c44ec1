-- ===== src/Operators/Run.antt =====
-- A DML statement: one of the operators of src/storage/tierdb_insert.cpp, src/storage/tierdb_delete.cpp and
-- src/storage/tierdb_update.cpp, run over its chunks as DuckDB's executor does.
use tierdb_duckdb.Prelude.{ℕ, List, [], ◌∷◌}
use tierdb_duckdb.Outcome.{Exec, pure, ◌>>◌}
use tierdb_duckdb.Platform.{Platform}
use tierdb_duckdb.Client.{TierDbClient}
use tierdb_duckdb.Schema.{TableEntry}
use tierdb_duckdb.Planner.{PhysicalTierDbDelete, PhysicalTierDbUpdate}
use tierdb_duckdb.Transaction.{Session}
use tierdb_duckdb.Value.{Value}
use tierdb_duckdb.Sink.{Statement}
use tierdb_duckdb.Sink.Payload.{DataChunk}
use tierdb_duckdb.Operators.Insert
use tierdb_duckdb.Operators.Delete
use tierdb_duckdb.Operators.Update
use tierdb_duckdb.Operators.Insert.{PhysicalTierDbInsert}

pub data Operator : Type 0 where
  inserts : PhysicalTierDbInsert → Operator
  deletes : TableEntry → PhysicalTierDbDelete → Operator
  updates : TableEntry → PhysicalTierDbUpdate → Operator

unfoldable pub get_global_sink_state : Operator → ℕ
get_global_sink_state (inserts op) = Insert.get_global_sink_state
get_global_sink_state (deletes table op) = Delete.get_global_sink_state
get_global_sink_state (updates table op) = Update.get_global_sink_state

module _ {x : Platform} where
  unfoldable pub sink : TierDbClient x → Operator → DataChunk → Exec (Statement x) (Unit {0})
  unfolding Insert.sink Delete.sink Update.sink
  sink c (inserts op) = Insert.sink c op
  sink c (deletes table op) = Delete.sink c table op
  sink c (updates table op) = Update.sink c table op

  unfoldable pub get_data_internal : Operator → Exec (Statement x) (List Value)
  unfolding Insert.get_data_internal Delete.get_data_internal Update.get_data_internal
  get_data_internal (inserts op) = Insert.get_data_internal
  get_data_internal (deletes table op) = Delete.get_data_internal
  get_data_internal (updates table op) = Update.get_data_internal

  unfoldable pub sink_all :
      TierDbClient x → Operator → List DataChunk → Exec (Statement x) (Unit {0})
  unfolding sink
  sink_all c op [] s = pure tt s
  sink_all c op (chunk ∷ chunks) s = (sink c op chunk >> sink_all c op chunks) s

  abbrev pub started : Operator → Session x → Statement x
  unfolding get_global_sink_state
  started op σ = record { session = σ; count = get_global_sink_state op }

  -- The statement on the transaction that it belongs to: the row that it answers with.
  unfoldable pub run_operator :
      TierDbClient x → Operator → List DataChunk → Exec (Session x) (List Value)
  unfolding get_global_sink_state sink_all get_data_internal
  run_operator c op chunks σ =
      let (r, s) = (sink_all c op chunks >> get_data_internal op) (started op σ) in (r, s.session)
