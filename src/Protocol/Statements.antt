-- ===== src/Protocol/Statements.antt =====
-- A statement of src/storage/tierdb_insert.cpp, src/storage/tierdb_delete.cpp or src/storage/tierdb_update.cpp as a run of
-- the automaton.
use tierdb_duckdb.Prelude.{
  ℕ, ℤ, pos, negsuc, Text, ◌≡◌, refl, Bool, true, false, Option, none, some, List, [], ◌∷◌, ◌==◌,
}
use tierdb_duckdb.Outcome.{Exec, ok, ◌>>=◌, ◌>>◌}
use tierdb_duckdb.Platform.{Platform, Json, Reply, done, failed}
use tierdb_duckdb.Ffi.{World}
use tierdb_duckdb.Client.{TierDbClient}
use tierdb_duckdb.Client.Served.{
  dml_answer, insert_chunk-answer, delete_chunk-answer, update_chunk-answer,
}
use tierdb_duckdb.Transaction.{on_world, ensure_write_txn}
use tierdb_duckdb.Sink.{Statement, on_session, add_count, send_rows, unless_empty}
use tierdb_duckdb.Sink.Payload.{written, DataChunk}
use tierdb_duckdb.LakeDml.{execute_lake_dml}
use tierdb_duckdb.Sink.Calls.{opened_txn}
use tierdb_duckdb.Operators.Run.{
  Operator, sink, sink_all, get_data_internal, inserts, deletes, updates,
}
use tierdb_duckdb.Operators.Shape.{document, send_call, sink_lem}
use tierdb_duckdb.Protocol.{active, view, Run, stop, call, inserted, deleted, updated}
use tierdb_duckdb.Protocol.Steps.{Order, bind-moved, choose-moved}
use tierdb_duckdb.Protocol.Lake.{execute_lake_dml-Moves}
use tierdb_duckdb.Protocol.Boundary.{session_order, Run-trans, Run-sql, ensure_write_txn-moved}

module _ {x : Platform} where
  dml_view : (r : Reply Text) (w : World x) → view (dml_answer r w).1 ≡ view w
  dml_view (done answer) w = refl
  dml_view (failed e) w = refl

module _ {x : Platform} (c : TierDbClient x) where
  -- A chunk call is a step while the write transaction is open.
  send_call-run :
      (op : Operator) (json : Text) (ps : List ℤ) (w : World x)
      → Run c (active true ps) (view w) (active true ps) (view (send_call c op json w).1)
  send_call-run (inserts op) json ps w =
      rw (insert_chunk-answer, dml_view) (call stop (inserted _ _ _))
  send_call-run (deletes table op) json ps w =
      rw (delete_chunk-answer, dml_view) (call stop (deleted _ _ _))
  send_call-run (updates table op) json ps w =
      rw (update_chunk-answer, dml_view) (call stop (updated _ _ _))

  sent_choice :
      (op : Operator) (json : Text) (b : Bool) (ps : List ℤ) (w : World x)
      → b ≡ true
      → Run c (active b ps) (view w) (active b ps) (view (send_call c op json w).1)
  sent_choice op json true ps w e = send_call-run op json ps w
  sent_choice op json false ps w e = cc

  abbrev pub statement_order : Order (Statement x)
  statement_order = record {
    rel = λ s t. (session_order c).rel s.session t.session;
    reflexive = λ s. stop;
    transitive = Run-trans;
  }

  add_count-moved : (n : ℤ) (s : Statement x) → statement_order.rel s (add_count n s).1
  unfolding add_count
  add_count-moved (pos n) s = stop
  add_count-moved (negsuc n) s = stop

  -- Once the write transaction is open.
  sent_chunk :
      (op : Operator) (json : Text) (s : Statement x)
      → s.session.txn.write_active ≡ true
      → statement_order.rel s
          ((do
            result ← on_session (on_world (send_call c op json))
            on_session (on_world (execute_lake_dml result))
            add_count result.count)
            s).1
  sent_chunk op json s a =
      bind-moved statement_order (on_session (on_world (send_call c op json))) _ s
        (sent_choice op json s.session.txn.write_active s.session.txn.pins s.session.world a)
        (λ result _.
          bind-moved statement_order (on_session (on_world (execute_lake_dml result)))
            (λ _. add_count result.count) _ (Run-sql ((execute_lake_dml-Moves result).moved _))
            (λ v _. add_count-moved result.count _))

  send_rows-moved :
      (op : Operator) (rows : Option Json) (s : Statement x)
      → statement_order.rel s (send_rows c (send_call c op) rows s).1
  unfolding send_rows
  send_rows-moved op none s = stop
  send_rows-moved op (some doc) s =
      bind-moved statement_order (on_session (ensure_write_txn c)) _ s
        (ensure_write_txn-moved c s.session)
        (λ u h. sent_chunk op (written (x.yyjson.write doc)) _ (opened_txn c s.session h).0)

  unless_empty-moved :
      (size : ℕ) (m : Exec (Statement x) (Unit {0})) (s : Statement x)
      → statement_order.rel s (m s).1
      → statement_order.rel s (unless_empty size m s).1
  unfolding unless_empty
  unless_empty-moved size m s h = choose-moved statement_order (size == 0) (ok tt, s) (m s) s stop h

  sink-moved :
      (op : Operator) (rows : DataChunk) (s : Statement x)
      → statement_order.rel s (sink c op rows s).1
  sink-moved op rows s = rw (sink_lem c op rows) (
      unless_empty-moved rows.size (send_rows c (send_call c op) (document op rows)) s
        (send_rows-moved op (document op rows) s))

  pub sink_all-moved :
      (op : Operator) (chunks : List DataChunk) (s : Statement x)
      → statement_order.rel s (sink_all c op chunks s).1
  unfolding sink_all
  sink_all-moved op [] s = stop
  sink_all-moved op (rows ∷ chunks) s =
      bind-moved statement_order (sink c op rows) (λ _. sink_all c op chunks) s
        (sink-moved op rows s) (λ u h. sink_all-moved op chunks _)

  pub get_data_internal-moved :
      (op : Operator) (s : Statement x) → statement_order.rel s (get_data_internal op s).1
  unfolding get_data_internal
  get_data_internal-moved (inserts op) s = choose-moved statement_order _ _ _ s stop stop
  get_data_internal-moved (deletes table op) s = choose-moved statement_order _ _ _ s stop stop
  get_data_internal-moved (updates table op) s = choose-moved statement_order _ _ _ s stop stop
