-- ===== src/Protocol/Refines.antt =====
-- The transaction of src/storage/tierdb_transaction.cpp and src/storage/tierdb_transaction_manager.cpp, with its statements,
-- keeps to the automaton.
use tierdb_duckdb.Prelude.{ℤ, ◌≡◌, refl, Bool, true, false, List, [], ◌∷◌, sym, subst, arith}
use tierdb_duckdb.Outcome.{ok, pure, continue}
use tierdb_duckdb.Platform.{Platform, Reply, done, failed}
use tierdb_duckdb.Ffi
use tierdb_duckdb.Ffi.{World}
use tierdb_duckdb.Ffi.Entry.{on_conn}
use tierdb_duckdb.Client.{TierDbClient}
use tierdb_duckdb.Client.Data.{TierDbTableSchema}
use tierdb_duckdb.Client.Served.{called, answer_status, release_read_pin-answer}
use tierdb_duckdb.Transaction.{
  Session, on_world, get_pinned_scan, release_all, release_pins, commit_write, rollback_write,
}
use tierdb_duckdb.Transaction.Writes
use tierdb_duckdb.Transaction.Writes.{Ending, commits, rolls_back, end_answer, finish_open}
use tierdb_duckdb.Operators.Run.{sink_all, get_data_internal, run_operator, started}
use tierdb_duckdb.Table.{routing_columns}
use tierdb_duckdb.Table.Scan.{get_scan_function, lift_outcome, bind_data, scan_init_global}
use tierdb_duckdb.Manager.Commit.{commit_session_lem}
use tierdb_duckdb.Manager.Rollback.{rollback_session_lem}
use tierdb_duckdb.Protocol.{
  Action, reads, writes, act, act_all, finish, begin, active, closing, view, granted, kept,
  committed, rolled_back, released, Run, stop, call, close, Stage, Trace,
}
use tierdb_duckdb.Protocol.Steps.{bind-moved}
use tierdb_duckdb.Protocol.Lake.{scan_init_global-Moves}
use tierdb_duckdb.Protocol.Boundary.{
  stage, session_order, status_view, Run-trans, Run-sql, get_pinned_scan-Moves,
}
use tierdb_duckdb.Protocol.Statements.{statement_order, sink_all-moved, get_data_internal-moved}

module _ {x : Platform} (c : TierDbClient x) where
  get_scan_function-moved :
      (schema : TierDbTableSchema) (σ : Session x)
      → (session_order c).rel σ (get_scan_function c schema σ).1
  unfolding get_scan_function lift_outcome
  get_scan_function-moved schema σ =
      bind-moved (session_order c) (get_pinned_scan c schema) _ σ
        ((get_pinned_scan-Moves c schema).moved σ)
        (λ p h.
          bind-moved (session_order c) (lift_outcome (routing_columns x schema))
            (λ r. pure (bind_data p schema r)) _ stop (λ r k. stop))

  act-moved : (a : Action) (σ : Session x) → (session_order c).rel σ (act c a σ)
  unfolding act run_operator
  act-moved (reads schema ids) σ =
      bind-moved (session_order c) (get_scan_function c schema)
        (λ b. on_world (scan_init_global b ids)) σ (get_scan_function-moved schema σ)
        (λ b h. Run-sql ((scan_init_global-Moves b ids).moved _))
  act-moved (writes op chunks) σ =
      bind-moved (statement_order c) (sink_all c op chunks) (λ _. get_data_internal op)
        (started op σ) (sink_all-moved c op chunks (started op σ))
        (λ u h. get_data_internal-moved c op _)

  act_all-moved :
      (actions : List Action) (σ : Session x) → (session_order c).rel σ (act_all c actions σ)
  unfolding act_all
  act_all-moved [] σ = stop
  act_all-moved (a ∷ actions) σ = Run-trans (act-moved a σ) (act_all-moved actions _)

  -- After one release, which the rest follows only if it was granted.
  released_first :
      (e : Ending) (a : Stage) (p : Trace x) (ps : List ℤ) (r : Reply (Unit {0})) (w : World x)
      → ((v : World x)
          → Run c a p (closing e ps) (view v)
          → Run c a p (closing e []) (view (release_all c ps v).1))
      → Run c a p (closing e (kept (granted r) ps)) (view w)
      → let (o, v) = answer_status r w in
        Run c a p (closing e []) (view (continue o (λ _. release_all c ps) v).1)
  released_first e a p ps (done u) w ih h = ih w h
  released_first e a p ps (failed m) w ih h = h

  release_all-run :
      (e : Ending) (a : Stage) (p : Trace x) (ps : List ℤ) (w : World x)
      → Run c a p (closing e ps) (view w)
      → Run c a p (closing e []) (view (release_all c ps w).1)
  unfolding release_all
  release_all-run e a p [] w h = h
  release_all-run e a p (pin ∷ ps) w h =
      let (r, st) = on_conn (λ k. x.release_read_pin k pin) c.conn w.outside in
      rw (release_read_pin-answer c pin w) (
        released_first e a p ps r (called (Ffi.release_read_pin pin) st w)
          (release_all-run e a p ps) (call h released))

  release_pins-run :
      (e : Ending) (a : Stage) (p : Trace x) (σ : Session x)
      → Run c a p (closing e σ.txn.pins) (view σ.world)
      → Run c a p (closing e []) (view (release_pins c σ).1.world)
  unfolding release_pins
  release_pins-run e a p σ h = release_all-run e a p σ.txn.pins σ.world h

  end_answer-run :
      (e : Ending) (ps : List ℤ) (w : World x)
      → Run c (active true ps) (view w) (closing e ps) (view (end_answer c e w).1)
  end_answer-run commits ps w =
      let (r, st) = on_conn x.txn_commit c.conn w.outside in
      rw (status_view c r (called Ffi.txn_commit st w)) (call stop committed)
  end_answer-run rolls_back ps w =
      let (r, st) = on_conn x.txn_rollback c.conn w.outside in
      rw (status_view c r (called Ffi.txn_rollback st w)) (call stop rolled_back)

  finish_closed :
      (e : Ending) (σ : Session x) → σ.txn.write_active ≡ false → Writes.finish c e σ ≡ (ok tt, σ)
  unfolding Writes.finish commit_write rollback_write
  finish_closed commits σ h = ground arith
  finish_closed rolls_back σ h = ground arith

  ended_choice :
      (e : Ending) (b : Bool) (σ : Session x)
      → σ.txn.write_active ≡ b
      → let σ' = (Writes.finish c e σ).1 in
        Run c (active b σ.txn.pins) (view σ.world) (closing e σ'.txn.pins) (view σ'.world)
  ended_choice e true σ h = rw (finish_open c e σ h) (end_answer-run e σ.txn.pins σ.world)
  ended_choice e false σ h = rw (finish_closed e σ h) (close stop)

  ended-run :
      (e : Ending) (σ : Session x)
      → Run c
          (stage σ.txn)
          (view σ.world)
          (closing e [])
          (view (release_pins c (Writes.finish c e σ).1).1.world)
  ended-run e σ = release_pins-run e _ _ _ (ended_choice e σ.txn.write_active σ refl)

  committed-run :
      (σ : Session x)
      → Run c
          (stage σ.txn)
          (view σ.world)
          (closing commits [])
          (view (release_pins c (commit_write c σ).1).1.world)
  unfolding Writes.finish
  committed-run σ = ended-run commits σ

  rolled_back-run :
      (σ : Session x)
      → Run c
          (stage σ.txn)
          (view σ.world)
          (closing rolls_back [])
          (view (release_pins c (rollback_write c σ).1).1.world)
  unfolding Writes.finish
  rolled_back-run σ = ended-run rolls_back σ

  finish-run :
      (e : Ending) (σ : Session x)
      → Run c (stage σ.txn) (view σ.world) (closing e []) (view (finish c e σ).world)
  unfolding finish
  finish-run commits σ =
      subst (λ r. Run c (stage σ.txn) (view σ.world) (closing commits []) (view r.1.world))
        (sym (commit_session_lem c σ)) (committed-run σ)
  finish-run rolls_back σ =
      subst (λ r. Run c (stage σ.txn) (view σ.world) (closing rolls_back []) (view r.1.world))
        (sym (rollback_session_lem c σ)) (rolled_back-run σ)

  -- Whatever a new transaction reads and writes, however it ends and whatever its calls answer, its calls with
  -- their answers are a run of the automaton from the start to the closing stage of its end, with no
  -- pin left: no chunk is sent unless a `BEGIN` was granted, and no `BEGIN` follows one that was; if
  -- one was granted, exactly one `COMMIT` or `ROLLBACK`, as the transaction ends, comes after the
  -- statements, and none otherwise; then come only releases, of the pins in the answers of its
  -- scans, once each and the oldest first, and of all of them unless a release is refused, after
  -- which no other is made.
  pub transaction_refines :
      (actions : List Action) (e : Ending) (w : World x)
      → let σ = act_all c actions (begin w) in
        Run c (active false []) (view w) (closing e []) (view (finish c e σ).world)
  transaction_refines actions e w =
      Run-trans (act_all-moved actions (begin w)) (finish-run e (act_all c actions (begin w)))
