-- ===== src/Chunks/Planned.antt =====
-- The rows of `write_rows` in tierdb-core-ffi/src/write.rs as steps: where each row goes, what stops it, and in which order its
-- statements run.
use tierdb_duckdb.Prelude.{
  ℤ, Text, text, ◌≡◌, refl, Bool, true, false, Option, none, some, List, [], ◌∷◌, ◌++◌, append-nil,
}
use tierdb_duckdb.Platform.{Reply, done, failed}
use tierdb_duckdb.Wire.{TableSchema}
use tierdb_duckdb.Rust.{return, lift, ◌>>=◌}
use tierdb_duckdb.Chunks.{Crates, json_param, ColdSink, delta, lake, InsertPlan, Table, Cutline}
use tierdb_duckdb.Chunks.Row.{
  pk_vals, normalize_json_columns, retention_error, tier_key, target, rejected,
}
use tierdb_duckdb.Chunks.Lake.{Tuples, executed}
use tierdb_duckdb.Chunks.Write.{upsert_params, cold_write, heap_write, write_planned, write_row}
use tierdb_duckdb.Chunks.Steps.{
  statement, stop, Steps, StepsOf, accepted_steps, perform, performed_one, statement_then,
}

module _ (k : Crates) (dsn : Text) (ts : TableSchema) (meta : Table k.LakeCatalog) (mode : k.Mode)
    (cutline : Option Cutline) (retention : Option ℤ) where
  -- The steps of an inserted row.
  abbrev delta_steps : k.Value → ℤ → Reply (List Text) → Steps k
  delta_steps row key (failed e) = stop e ∷ []
  delta_steps row key (done vals) =
      statement (text "delta write failed: ") k.delta_write_sql (upsert_params k ts row key vals)
      ∷ []

  abbrev cold_steps : k.Value → ℤ → Option ColdSink → Steps k
  cold_steps row key none = []
  cold_steps row key (some lake) = []
  cold_steps row key (some delta) = delta_steps row key (pk_vals k row ts.primary_key_cols)

  abbrev heap_steps : k.Value → Bool → Steps k
  heap_steps row false = []
  heap_steps row true =
      statement (text "heap insert failed: ")
        (k.heap_insert_from_jsonb_sql ts.schema_name ts.table_name) (json_param row ∷ [])
      ∷ []

  abbrev keyed_steps : k.Value → Reply ℤ → Steps k
  keyed_steps row (failed e) = stop e ∷ []
  keyed_steps row (done key) =
      let plan = k.plan_insert mode (target k cutline key) in
      accepted_steps k (rejected k plan.cold plan.check_retention key retention)
        (retention_error k ts key retention)
        (cold_steps row key plan.cold ++ heap_steps row plan.to_heap)

  abbrev pub write_steps : k.Value → Steps k
  write_steps given =
      let row = normalize_json_columns k given ts.columns in keyed_steps row (tier_key k ts row)

  abbrev cold_tuples : k.Value → Option ColdSink → Tuples
  cold_tuples row none = []
  cold_tuples row (some delta) = []
  cold_tuples row (some lake) = k.lake_row_tuple row meta.columns ∷ []

  abbrev keyed_tuples : k.Value → Reply ℤ → Tuples
  keyed_tuples row (failed e) = []
  keyed_tuples row (done key) = cold_tuples row (k.plan_insert mode (target k cutline key)).cold

  abbrev pub write_tuples : k.Value → Tuples
  write_tuples given =
      let row = normalize_json_columns k given ts.columns in keyed_tuples row (tier_key k ts row)

  heap_write-steps :
      (row : k.Value) (b : Bool) (s : k.Client)
      → heap_write k dsn ts meta mode cutline retention row b s ≡ perform k (heap_steps row b) s
  unfolding heap_write perform
  heap_write-steps row false s = refl
  heap_write-steps row true s =
      performed_one k (text "heap insert failed: ")
        (k.heap_insert_from_jsonb_sql ts.schema_name ts.table_name) (json_param row ∷ []) s

  delta_placed :
      (row : k.Value) (key : ℤ) (vals : Reply (List Text)) (to_heap : Bool) (lake_rows : Tuples)
      (s : k.Client)
      → ((lift vals >>= λ vs.
              executed k
                (text "delta write failed: ")
                k.delta_write_sql
                (upsert_params k ts row key vs)
              >>= λ _. return lake_rows)
            >>= λ pushed.
                heap_write k dsn ts meta mode cutline retention row to_heap >>= λ _. return pushed)
          s
        ≡ (perform k (delta_steps row key vals ++ heap_steps row to_heap) >>= λ _. return lake_rows)
            s
  unfolding perform
  delta_placed row key (failed e) to_heap lake_rows s = refl
  delta_placed row key (done vs) to_heap lake_rows s =
      statement_then k (text "delta write failed: ") k.delta_write_sql
        (upsert_params k ts row key vs) lake_rows
        (heap_write k dsn ts meta mode cutline retention row to_heap) (heap_steps row to_heap) s
        (heap_write-steps row to_heap)

  -- The writes of a row that its plan lets through.
  placed :
      (row : k.Value) (key : ℤ) (cold : Option ColdSink) (to_heap : Bool) (lake_rows : Tuples)
      (s : k.Client)
      → (cold_write k dsn ts meta mode cutline retention row key cold lake_rows >>= λ pushed.
            heap_write k dsn ts meta mode cutline retention row to_heap >>= λ _. return pushed)
          s
        ≡ (perform k (cold_steps row key cold ++ heap_steps row to_heap) >>= λ _.
              return (lake_rows ++ cold_tuples row cold))
            s
  unfolding cold_write perform
  placed row key none to_heap lake_rows s =
      rw (heap_write-steps row to_heap s, append-nil lake_rows) refl
  placed row key (some lake) to_heap lake_rows s = rw (heap_write-steps row to_heap s) refl
  placed row key (some delta) to_heap lake_rows s =
      rw (append-nil lake_rows)
        (delta_placed row key (pk_vals k row ts.primary_key_cols) to_heap lake_rows s)

  write_planned-steps :
      (row : k.Value) (key : ℤ) (plan : InsertPlan) (lake_rows : Tuples) (s : k.Client)
      (refused : Bool)
      → rejected k plan.cold plan.check_retention key retention ≡ refused
      → write_planned k dsn ts meta mode cutline retention row key plan lake_rows s
        ≡ (perform k (
                accepted_steps k refused
                  (retention_error k ts key retention)
                  (cold_steps row key plan.cold ++ heap_steps row plan.to_heap))
              >>= λ _. return (lake_rows ++ cold_tuples row plan.cold))
            s
  unfolding write_planned perform
  write_planned-steps row key plan lake_rows s true h = rw h refl
  write_planned-steps row key plan lake_rows s false h =
      rw h (placed row key plan.cold plan.to_heap lake_rows s)

  keyed :
      (row : k.Value) (key : Reply ℤ) (lake_rows : Tuples) (s : k.Client)
      → (lift key >>= λ n.
            write_planned k dsn ts meta mode cutline retention row n
              (k.plan_insert mode (target k cutline n))
              lake_rows)
          s
        ≡ (perform k (keyed_steps row key) >>= λ _. return (lake_rows ++ keyed_tuples row key)) s
  unfolding perform
  keyed row (failed e) lake_rows s = refl
  keyed row (done n) lake_rows s =
      write_planned-steps row n (k.plan_insert mode (target k cutline n)) lake_rows s _ refl

  pub write_row-StepsOf :
      StepsOf k (write_row k dsn ts meta mode cutline retention) write_steps write_tuples
  unfolding write_row
  write_row-StepsOf row lake_rows s = keyed (normalize_json_columns k row ts.columns) _ lake_rows s
