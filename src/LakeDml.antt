-- ===== src/LakeDml.antt =====
-- `RunOnFreshConnection` and `TierDBExecuteLakeDml` of src/storage/tierdb_client.cpp: the lake statements of a
-- chunk, run on DuckDB with a bounded retry.
pub mod Retry
pub mod Order
pub mod Accepted
use tierdb_duckdb.Prelude.{
  ℕ, zero, suc, ◌+◌, Text, text, Bool, ◌||◌, not, List, [], ◌∷◌, ◌++◌, leb, if◌then◌else◌,
}
use tierdb_duckdb.Outcome.{Exec, ok, io_exception, pure, raise, crash, ◌>>=◌, ◌>>◌}
use tierdb_duckdb.Platform.{Platform, StringUtil, Reply, done, failed}
use tierdb_duckdb.Ffi
use tierdb_duckdb.Ffi.{World, perform}
use tierdb_duckdb.Client.Data.{TierDbDmlResult}

-- `StringUtil::Contains(error, "409") || …`
unfoldable pub is_conflict : StringUtil → Text → Bool
is_conflict u e =
    u.contains e (text "409")
    || u.contains e (text "Conflict")
    || u.contains e (text "CommitFailed")

abbrev pub max_attempts : ℕ
max_attempts = 3

module _ {x : Platform} where
  -- `Connection con(*context.db)`
  unfoldable pub fresh_connection : Exec (World x) x.Connection
  fresh_connection w =
      let (con, st) = x.open_connection w.outside in
      (ok con, record w { outside = st; history = Ffi.open_connection ∷ w.history })

  -- `con.Query(sql)`
  unfoldable pub run_query : x.Connection → Text → Exec (World x) (Reply x.QueryResult)
  unfolding perform
  run_query con sql w = let (r, w') = perform (Ffi.query sql) (x.query con sql) w in (ok r, w')

  -- `if (result->HasError()) { throw IOException(…); }`
  unfoldable pub raise_if_failed : Text → Reply x.QueryResult → Exec (World x) (Unit {0})
  raise_if_failed what (done _) w = pure tt w
  raise_if_failed what (failed e) w =
      raise io_exception (text "tierdb: " ++ what ++ text " failed: " ++ e) w

  unfoldable pub run_on_fresh_connection : Text → Text → Exec (World x) (Unit {0})
  unfolding fresh_connection run_query raise_if_failed
  run_on_fresh_connection sql what = do
    con ← fresh_connection
    result ← run_query con sql
    raise_if_failed what result

  -- The rest of a round, with the next round as `again`.
  unfoldable pub after_query :
      ℕ → Exec (World x) (Unit {0}) → Reply x.QueryResult → Exec (World x) (Unit {0})
  unfolding is_conflict
  after_query attempt again (done _) = pure tt
  after_query attempt again (failed e) =
      if not (is_conflict x.string_util e) || leb max_attempts attempt
      then raise io_exception (text "tierdb: lake write failed: " ++ e)
      else again

  -- `for (int attempt = 1;; attempt++)`, with `left` for fuel. A round without fuel is a `fault`.
  unfoldable pub attempts : ℕ → ℕ → x.Connection → Text → Exec (World x) (Unit {0})
  unfolding run_query after_query
  attempts zero attempt con sql w = crash w
  attempts (suc left) attempt con sql w =
      (do
        result ← run_query con sql
        after_query attempt (λ v. attempts left (attempt + 1) con sql v) result)
        w

  -- `for (auto &sql : dml.lake_sql)`
  unfoldable pub run_statements : x.Connection → List Text → Exec (World x) (Unit {0})
  unfolding attempts
  run_statements con [] w = pure tt w
  run_statements con (sql ∷ rest) w = (attempts max_attempts 1 con sql >> run_statements con rest) w

  -- `if (!dml.attach_sql.empty()) { RunOnFreshConnection(…); }`
  unfoldable pub attach_first : Text → Exec (World x) (Unit {0})
  unfolding run_on_fresh_connection
  attach_first [] w = pure tt w
  attach_first (c ∷ sql) w = run_on_fresh_connection (c ∷ sql) (text "lake catalog attach") w

  -- The two arguments are `dml.attach_sql` and `dml.lake_sql`.
  unfoldable pub execute : Text → List Text → Exec (World x) (Unit {0})
  unfolding attach_first fresh_connection run_statements
  execute attach_sql [] w = pure tt w
  execute attach_sql (sql ∷ rest) w =
      (do attach_first attach_sql; con ← fresh_connection; run_statements con (sql ∷ rest)) w

  unfoldable pub execute_lake_dml : TierDbDmlResult → Exec (World x) (Unit {0})
  unfolding execute
  execute_lake_dml dml = execute dml.attach_sql dml.lake_sql
