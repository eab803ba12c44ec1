-- ===== src/Protocol/Lake.antt =====
-- The SQL that src/storage/tierdb_client.cpp and src/storage/tierdb_table.cpp run on DuckDB makes no call of the core.
use tierdb_duckdb.Prelude.{ℕ, zero, suc, ◌+◌, Text, text, ◌≡◌, refl, not, ◌||◌, List, [], ◌∷◌, leb}
use tierdb_duckdb.Outcome.{Exec, pure}
use tierdb_duckdb.Platform.{Platform, Reply, done, failed}
use tierdb_duckdb.Ffi
use tierdb_duckdb.Ffi.{World}
use tierdb_duckdb.Client.Data.{TierDbDmlResult}
use tierdb_duckdb.LakeDml.{
  max_attempts, is_conflict, fresh_connection, run_query, raise_if_failed, run_on_fresh_connection,
  after_query, attempts, run_statements, attach_first, execute, execute_lake_dml,
}
use tierdb_duckdb.Table.{TierDbScanBindData, projected_scan_sql}
use tierdb_duckdb.Table.Scan.{scan_init_global, attach, failed_as}
use tierdb_duckdb.Protocol.{Trace, view}
use tierdb_duckdb.Protocol.Steps.{Order, Moves, bind-Moves, choose-Moves}

-- Only SQL was run.
module _ {x : Platform} where
  pub data OnlySql : Trace x → Trace x → Type 0 where
    same : {p : Trace x} → OnlySql p p
    and_opened :
        {p q : Trace x}
        → OnlySql p q
        → OnlySql p (record {
          outside = (x.open_connection q.outside).1;
          history = Ffi.open_connection ∷ q.history;
        })
    and_queried :
        {p q : Trace x} (con : x.Connection) (sql : Text)
        → OnlySql p q
        → OnlySql p (record {
          outside = (x.query con sql q.outside).1;
          history = Ffi.query sql ∷ q.history;
        })

  pub OnlySql-trans : {p q r : Trace x} → OnlySql p q → OnlySql q r → OnlySql p r
  OnlySql-trans a same = a
  OnlySql-trans a (and_opened b) = and_opened (OnlySql-trans a b)
  OnlySql-trans a (and_queried con sql b) = and_queried con sql (OnlySql-trans a b)

module _ {x : Platform} where
  abbrev pub lake_order : Order (World x)
  lake_order = record {
    rel = λ w w'. OnlySql (view w) (view w');
    reflexive = λ w. same;
    transitive = OnlySql-trans;
  }

  still : {A : Type 0} (m : Exec (World x) A) → ((w : World x) → (m w).1 ≡ w) → Moves lake_order m
  still m h = record { moved = λ w. rw (h w) same }

  fresh_connection-Moves : Moves lake_order fresh_connection
  unfolding fresh_connection
  fresh_connection-Moves = record { moved = λ w. and_opened same }

  run_query-Moves : (con : x.Connection) (sql : Text) → Moves lake_order (run_query con sql)
  unfolding run_query
  run_query-Moves con sql = record { moved = λ w. and_queried con sql same }

  raise_if_failed-Moves :
      (what : Text) (r : Reply x.QueryResult) → Moves lake_order (raise_if_failed what r)
  unfolding raise_if_failed
  raise_if_failed-Moves what (done q) = still _ (λ w. refl)
  raise_if_failed-Moves what (failed e) = still _ (λ w. refl)

  run_on_fresh_connection-Moves :
      (sql what : Text) → Moves lake_order (run_on_fresh_connection sql what)
  unfolding run_on_fresh_connection
  run_on_fresh_connection-Moves sql what =
      bind-Moves lake_order _ _ fresh_connection-Moves
        (λ con. bind-Moves lake_order _ _ (run_query-Moves con sql) (raise_if_failed-Moves what))

  after_query-Moves :
      (attempt : ℕ) (again : Exec (World x) (Unit {0})) (r : Reply x.QueryResult)
      → Moves lake_order again
      → Moves lake_order (after_query attempt again r)
  unfolding after_query
  after_query-Moves attempt again (done q) h = still _ (λ w. refl)
  after_query-Moves attempt again (failed e) h =
      choose-Moves lake_order (not (is_conflict x.string_util e) || leb max_attempts attempt) _ _
        (still _ (λ w. refl)) h

  attempts-Moves :
      (left attempt : ℕ) (con : x.Connection) (sql : Text)
      → Moves lake_order (attempts left attempt con sql)
  unfolding attempts
  attempts-Moves zero attempt con sql = still _ (λ w. refl)
  attempts-Moves (suc left) attempt con sql =
      bind-Moves lake_order _ _ (run_query-Moves con sql) (λ r.
        after_query-Moves attempt (λ v. attempts left (attempt + 1) con sql v) r
          (record { moved = λ w. (attempts-Moves left (attempt + 1) con sql).moved w }))

  run_statements-Moves :
      (con : x.Connection) (sqls : List Text) → Moves lake_order (run_statements con sqls)
  unfolding run_statements
  run_statements-Moves con [] = still _ (λ w. refl)
  run_statements-Moves con (sql ∷ sqls) =
      bind-Moves lake_order _ _ (attempts-Moves max_attempts 1 con sql)
        (λ u. run_statements-Moves con sqls)

  attach_first-Moves : (sql : Text) → Moves lake_order (attach_first sql)
  unfolding attach_first
  attach_first-Moves [] = still _ (λ w. refl)
  attach_first-Moves (c ∷ sql) =
      run_on_fresh_connection-Moves (c ∷ sql) (text "lake catalog attach")

  execute-Moves : (attach : Text) (sqls : List Text) → Moves lake_order (execute attach sqls)
  unfolding execute
  execute-Moves attach [] = still _ (λ w. refl)
  execute-Moves attach (sql ∷ sqls) = bind-Moves lake_order _ _ (attach_first-Moves attach) (λ u.
      bind-Moves lake_order _ _ fresh_connection-Moves
        (λ con. run_statements-Moves con (sql ∷ sqls)))

  pub execute_lake_dml-Moves : (dml : TierDbDmlResult) → Moves lake_order (execute_lake_dml dml)
  unfolding execute_lake_dml
  execute_lake_dml-Moves dml = record { moved = (execute-Moves dml.attach_sql dml.lake_sql).moved }

  failed_as-Moves : (what : Text) (r : Reply x.QueryResult) → Moves lake_order (failed_as what r)
  unfolding failed_as
  failed_as-Moves what (done q) = still _ (λ w. refl)
  failed_as-Moves what (failed e) = still _ (λ w. refl)

  attach-Moves : (con : x.Connection) (sql : Text) → Moves lake_order (attach con sql)
  unfolding attach
  attach-Moves con [] = still _ (λ w. refl)
  attach-Moves con (c ∷ sql) = bind-Moves lake_order _ _ (run_query-Moves con (c ∷ sql)) (λ r.
      bind-Moves lake_order _ _ (failed_as-Moves (text "tierdb: lake catalog attach failed: ") r)
        (λ u. still (pure tt) (λ w. refl)))

  pub scan_init_global-Moves :
      (b : TierDbScanBindData) (ids : List ℕ) → Moves lake_order (scan_init_global b ids)
  unfolding scan_init_global
  scan_init_global-Moves b ids = bind-Moves lake_order _ _ fresh_connection-Moves (λ con.
      bind-Moves lake_order _ _ (attach-Moves con b.attach_sql) (λ u.
        bind-Moves lake_order _ _ (run_query-Moves con (projected_scan_sql b ids))
          (failed_as-Moves (text "tierdb: merged read failed: "))))
