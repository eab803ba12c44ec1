-- ===== src/Chunks/Removed.antt =====
-- The rows of `delete_rows` in tierdb-core-ffi/src/write.rs as steps.
use tierdb_duckdb.Prelude.{
  ℤ, Text, text, ◌≡◌, refl, Bool, true, false, Option, none, some, List, [], ◌∷◌, ◌++◌, map,
  append-nil,
}
use tierdb_duckdb.Platform.{Reply, done, failed}
use tierdb_duckdb.Wire.{TableSchema}
use tierdb_duckdb.Rust.{return, lift, ◌>>=◌}
use tierdb_duckdb.Chunks.{Crates, text_param, ColdSink, delta, lake, DeletePlan, Table, Cutline}
use tierdb_duckdb.Chunks.Row.{pk_vals, retention_error, tier_key, target, rejected}
use tierdb_duckdb.Chunks.Lake.{Tuples}
use tierdb_duckdb.Chunks.Delete.{
  tombstone_params, heap_delete_sql, cold_delete, heap_delete, delete_planned, delete_row,
}
use tierdb_duckdb.Chunks.Steps.{
  statement, stop, Steps, StepsOf, accepted_steps, perform, performed_one, statement_then,
}

module _ (k : Crates) (dsn : Text) (ts : TableSchema) (meta : Table k.LakeCatalog) (mode : k.Mode)
    (cutline : Option Cutline) (retention : Option ℤ) (columns : List (Text × Text)) where
  -- The steps of a deleted row.
  abbrev cold_steps : k.Value → ℤ → List Text → Option ColdSink → Steps k
  cold_steps row key vals none = []
  cold_steps row key vals (some lake) = []
  cold_steps row key vals (some delta) =
      statement (text "delta tombstone failed: ") k.delta_write_sql
        (tombstone_params k ts row key vals)
      ∷ []

  abbrev heap_steps : List Text → Bool → Bool → Steps k
  heap_steps vals heap_floor false = []
  heap_steps vals heap_floor true =
      statement (text "heap delete failed: ") (heap_delete_sql k ts cutline heap_floor)
        (map text_param vals)
      ∷ []

  abbrev keyed_steps : k.Value → Reply ℤ → Reply (List Text) → Steps k
  keyed_steps row (failed e) vals = stop e ∷ []
  keyed_steps row (done key) (failed e) = stop e ∷ []
  keyed_steps row (done key) (done vals) =
      let plan = k.plan_delete mode (target k cutline key) in
      accepted_steps k (rejected k plan.cold plan.check_retention key retention)
        (retention_error k ts key retention)
        (cold_steps row key vals plan.cold ++ heap_steps vals plan.heap_floor plan.from_heap)

  abbrev pub delete_steps : k.Value → Steps k
  delete_steps row = keyed_steps row (tier_key k ts row) (pk_vals k row ts.primary_key_cols)

  abbrev cold_tuples : k.Value → Option ColdSink → Tuples
  cold_tuples row none = []
  cold_tuples row (some delta) = []
  cold_tuples row (some lake) = k.lake_row_tuple row columns ∷ []

  abbrev keyed_tuples : k.Value → Reply ℤ → Tuples
  keyed_tuples row (failed e) = []
  keyed_tuples row (done key) = cold_tuples row (k.plan_delete mode (target k cutline key)).cold

  abbrev pub delete_tuples : k.Value → Tuples
  delete_tuples row = keyed_tuples row (tier_key k ts row)

  heap_delete-steps :
      (vals : List Text) (plan : DeletePlan) (from_heap : Bool) (s : k.Client)
      → plan.from_heap ≡ from_heap
      → heap_delete k dsn ts meta mode cutline retention vals plan s
        ≡ perform k (heap_steps vals plan.heap_floor from_heap) s
  unfolding heap_delete perform
  heap_delete-steps vals plan false s h = rw h refl
  heap_delete-steps vals plan true s h = rw h (
      performed_one k (text "heap delete failed: ") (heap_delete_sql k ts cutline plan.heap_floor)
        (map text_param vals) s)

  -- The removals of a row that its plan lets through.
  removed :
      (row : k.Value) (key : ℤ) (vals : List Text) (cold : Option ColdSink) (plan : DeletePlan)
      (lake_pk_rows : Tuples) (s : k.Client)
      → (cold_delete k dsn ts meta mode cutline retention columns row key vals cold lake_pk_rows
            >>= λ pushed.
                heap_delete k dsn ts meta mode cutline retention vals plan >>= λ _. return pushed)
          s
        ≡ (perform k
                (cold_steps row key vals cold ++ heap_steps vals plan.heap_floor plan.from_heap)
              >>= λ _. return (lake_pk_rows ++ cold_tuples row cold))
            s
  unfolding cold_delete
  removed row key vals none plan lake_pk_rows s =
      rw (heap_delete-steps vals plan plan.from_heap s refl, append-nil lake_pk_rows) refl
  removed row key vals (some lake) plan lake_pk_rows s =
      rw (heap_delete-steps vals plan plan.from_heap s refl) refl
  removed row key vals (some delta) plan lake_pk_rows s = rw (append-nil lake_pk_rows) (
      statement_then k (text "delta tombstone failed: ") k.delta_write_sql
        (tombstone_params k ts row key vals) lake_pk_rows
        (heap_delete k dsn ts meta mode cutline retention vals plan)
        (heap_steps vals plan.heap_floor plan.from_heap) s
        (λ u. heap_delete-steps vals plan plan.from_heap u refl))

  delete_planned-steps :
      (row : k.Value) (key : ℤ) (vals : List Text) (plan : DeletePlan) (lake_pk_rows : Tuples)
      (s : k.Client) (refused : Bool)
      → rejected k plan.cold plan.check_retention key retention ≡ refused
      → delete_planned k dsn ts meta mode cutline retention columns row key plan vals lake_pk_rows s
        ≡ (perform k (
                accepted_steps k refused (retention_error k ts key retention) (
                  cold_steps row key vals plan.cold
                  ++ heap_steps vals plan.heap_floor plan.from_heap))
              >>= λ _. return (lake_pk_rows ++ cold_tuples row plan.cold))
            s
  unfolding delete_planned perform
  delete_planned-steps row key vals plan lake_pk_rows s true h = rw h refl
  delete_planned-steps row key vals plan lake_pk_rows s false h =
      rw h (removed row key vals plan.cold plan lake_pk_rows s)

  keyed :
      (row : k.Value) (key : Reply ℤ) (vals : Reply (List Text)) (lake_pk_rows : Tuples)
      (s : k.Client)
      → (lift key >>= λ n. lift vals >>= λ vs.
            delete_planned k dsn ts meta mode cutline retention columns row n
              (k.plan_delete mode (target k cutline n))
              vs
              lake_pk_rows)
          s
        ≡ (perform k (keyed_steps row key vals) >>= λ _.
              return (lake_pk_rows ++ keyed_tuples row key))
            s
  unfolding perform
  keyed row (failed e) vals lake_pk_rows s = refl
  keyed row (done n) (failed e) lake_pk_rows s = refl
  keyed row (done n) (done vs) lake_pk_rows s =
      delete_planned-steps row n vs (k.plan_delete mode (target k cutline n)) lake_pk_rows s _ refl

  pub delete_row-StepsOf :
      StepsOf k (delete_row k dsn ts meta mode cutline retention columns) delete_steps delete_tuples
  unfolding delete_row
  delete_row-StepsOf row lake_pk_rows s =
      keyed row (tier_key k ts row) (pk_vals k row ts.primary_key_cols) lake_pk_rows s
