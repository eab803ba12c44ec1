-- ===== src/LakeDml/Order.antt =====
-- The order of the lake statements of a chunk: `TierDBExecuteLakeDml` of src/storage/tierdb_client.cpp.
use tierdb_duckdb.Prelude.{
  ℕ, ◌≤◌, Text, text, ◌≡◌, refl, ap, ◌∙◌, ◌≢◌, ◌⊎◌, inl, inr, List, [], ◌∷◌, ◌++◌, arith, subst,
  append-nil,
}
use tierdb_duckdb.Outcome.{Outcome, ok, throw, fault, continue, ◌>>=◌}
use tierdb_duckdb.Platform.{Platform, Reply, done, failed}
use tierdb_duckdb.Ffi
use tierdb_duckdb.Ffi.{Call, World}
use tierdb_duckdb.Client.Data.{TierDbDmlResult}
use tierdb_duckdb.LakeDml.{
  max_attempts, run_statements, execute_lake_dml, execute, attach_first, fresh_connection,
  run_on_fresh_connection, run_query, raise_if_failed,
}
use tierdb_duckdb.LakeDml.Retry.{repeated, lake_error, Tried, attempts-Tried}

-- The history grows by the statements in their order, each of them queried once or up to
-- `max_attempts` times in a row.
pub data Queried : List Text → List Call → List Call → Type 0 where
  stop : {h : List Call} → Queried [] h h
  next :
      {sql : Text} {rest : List Text} {h h' : List Call} (rounds : ℕ)
      → 1 ≤ rounds
      → rounds ≤ max_attempts
      → Queried rest (repeated rounds sql h) h'
      → Queried (sql ∷ rest) h h'

-- How a run over `sqls` ended.
pub record Executed {x : Platform} (sqls : List Text) (w : World x) (r : Outcome (Unit {0}))
    (w' : World x) : Type 0 where
  pub sent : List Text
  pub rest : List Text
  pub split : sqls ≡ sent ++ rest
  pub queried : Queried sent w.history w'.history
  pub heap : w'.heap ≡ w.heap
  pub ending : ((r ≡ ok tt) × (rest ≡ [])) ⊎ ((e : Text) × (r ≡ throw (lake_error e)) × (sent ≢ []))

Queried-from :
    {sql : Text} {rest : List Text} {h g h' : List Call} (rounds : ℕ)
    → 1 ≤ rounds
    → rounds ≤ max_attempts
    → g ≡ repeated rounds sql h
    → Queried rest g h'
    → Queried (sql ∷ rest) h h'
Queried-from {rest = rest} {h' = h'} n a b e q = next n a b (subst (λ g. Queried rest g h') e q)

module _ {x : Platform} (con : x.Connection) where
  -- The rest of the loop after the statement `sql`, which ended with `r` in the world `v`.
  continue-Executed :
      (sql : Text) (sqls : List Text) (w v : World x) (r : Outcome (Unit {0}))
      → Tried max_attempts sql w r v
      → Executed sqls v (run_statements con sqls v).0 (run_statements con sqls v).1
      → let s = continue r (λ _. run_statements con sqls) v in Executed (sql ∷ sqls) w s.0 s.1
  continue-Executed sql sqls w v (ok u) t ex = record {
    sent = sql ∷ ex.sent;
    rest = ex.rest;
    split = ap (λ l. sql ∷ l) ex.split;
    queried = Queried-from t.rounds t.at_least t.at_most t.history ex.queried;
    heap = ex.heap ∙ t.heap;
    ending = ground (arith, ex.ending);
  }
  continue-Executed sql sqls w v (throw e) t ex = record {
    sent = sql ∷ [];
    rest = sqls;
    split = refl;
    queried = Queried-from t.rounds t.at_least t.at_most t.history stop;
    heap = t.heap;
    ending = elim t.ending [ inl h ↦ cc | inr (m, h) ↦ inr (m, h, (λ n. cc)) ];
  }
  continue-Executed sql sqls w v fault t ex = elim t.ending [ inl h ↦ cc | inr (m, h) ↦ cc ]

  -- The loop over the lake statements always ends. It queries a prefix of them in their order, each at
  -- least once and at most `max_attempts` times in a row: all of them if it returns, and otherwise
  -- the error of DuckDB leaves as an exception, after at least one.
  pub run_statements-Executed :
      (sqls : List Text) (w : World x)
      → Executed sqls w (run_statements con sqls w).0 (run_statements con sqls w).1
  unfolding run_statements
  run_statements-Executed [] w = record {
    sent = [];
    rest = [];
    split = refl;
    queried = stop;
    heap = refl;
    ending = inl (refl, refl);
  }
  run_statements-Executed (sql ∷ sqls) w =
      continue-Executed sql sqls w _ _
        (attempts-Tried con max_attempts 1 sql w (omega arith) (omega arith))
        (run_statements-Executed sqls _)

-- The connections that are opened before the first statement, and the attachment.
abbrev pub opening : Text → List Call → List Call
opening [] h = Ffi.open_connection ∷ h
opening (c ∷ sql) h = Ffi.open_connection ∷ Ffi.query (c ∷ sql) ∷ Ffi.open_connection ∷ h

abbrev pub Ran : {x : Platform} → List Text → Text → World x → World x → Type 0
Ran [] attach w w' = w' ≡ w
Ran (sql ∷ rest) attach w w' = Queried (sql ∷ rest) (opening attach w.history) w'.history

module _ {x : Platform} where
  Executed-ok :
      {sqls : List Text} {w w' : World x} {r : Outcome (Unit {0})}
      → Executed sqls w r w'
      → r ≡ ok tt
      → Queried sqls w.history w'.history
  Executed-ok {sqls} {w} {w'} ex h =
      subst (λ l. Queried l w.history w'.history) {x = ex.sent} {y = sqls}
        (ground (arith, ex.ending, ex.split, append-nil ex.sent)) ex.queried

  after_attach :
      (sql : Text) (rest : List Text) (h : List Call) (v : World x) (r : Outcome (Unit {0}))
      → h ≡ Ffi.open_connection ∷ v.history
      → let s = continue r (λ _. fresh_connection >>= λ con. run_statements con (sql ∷ rest)) v in
        s.0 ≡ ok tt → Queried (sql ∷ rest) h s.1.history
  unfolding fresh_connection
  after_attach sql rest h v (ok u) e k =
      rw e (Executed-ok (run_statements-Executed _ (sql ∷ rest) _) k)
  after_attach sql rest h v (throw m) e k = cc
  after_attach sql rest h v fault e k = cc

  after_reply :
      (sql : Text) (rest : List Text) (h : List Call) (what : Text) (v : World x)
      (r : Reply x.QueryResult)
      → h ≡ Ffi.open_connection ∷ v.history
      → let a = raise_if_failed what r v in
        let s =
          continue a.0 (λ _. fresh_connection >>= λ con. run_statements con (sql ∷ rest)) a.1 in
        s.0 ≡ ok tt → Queried (sql ∷ rest) h s.1.history
  unfolding raise_if_failed
  after_reply sql rest h what v (done q) e k = after_attach sql rest h v (ok tt) e k
  after_reply sql rest h what v (failed m) e k = cc

  execute-Ran :
      (attach : Text) (sqls : List Text) (w : World x)
      → (execute attach sqls w).0 ≡ ok tt
      → Ran sqls attach w (execute attach sqls w).1
  unfolding execute attach_first run_on_fresh_connection fresh_connection run_query
  execute-Ran attach [] w h = refl
  execute-Ran [] (sql ∷ rest) w h = after_attach sql rest _ w (ok tt) refl h
  execute-Ran (c ∷ attach) (sql ∷ rest) w h =
      let (con, st) = x.open_connection w.outside in
      let (r, st') = x.query con (c ∷ attach) st in
      after_reply sql rest _ (text "lake catalog attach")
        (record w {
          outside = st';
          history = Ffi.query (c ∷ attach) ∷ Ffi.open_connection ∷ w.history;
        })
        r refl h

  -- If the lake part of a chunk returns, then either the chunk has no lake statement and nothing was
  -- called, whatever its `attach_sql`; or `attach_sql` ran first, on a connection of its own and
  -- only if there is one, and then every lake statement, in order and on one connection.
  pub execute_lake_dml_returns :
      (dml : TierDbDmlResult) (w : World x)
      → (execute_lake_dml dml w).0 ≡ ok tt
      → Ran dml.lake_sql dml.attach_sql w (execute_lake_dml dml w).1
  unfolding execute_lake_dml
  execute_lake_dml_returns dml w h = execute-Ran dml.attach_sql dml.lake_sql w h
