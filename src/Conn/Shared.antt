-- ===== src/Conn/Shared.antt =====
-- The flag `write_active` of src/storage/tierdb_transaction.cpp against the flag `in_txn` of
-- tierdb-core-ffi/src/catalog.rs: all transactions of a catalog share one client, and so one connection.
use tierdb_duckdb.Prelude.{ℤ, Text, text, ◌≡◌, refl, ◌∙◌, true, false, some, List, [], ◌∷◌, arith}
use tierdb_duckdb.Outcome.{ok, continue}
use tierdb_duckdb.Platform.{Platform, Reply, done, failed}
use tierdb_duckdb.Ffi
use tierdb_duckdb.Ffi.{World}
use tierdb_duckdb.Ffi.Entry.{on_conn}
use tierdb_duckdb.Client.{TierDbClient}
use tierdb_duckdb.Client.Served.{
  called, answer_status, txn_begin-answer, txn_commit-answer, txn_rollback-answer,
  release_read_pin-answer,
}
use tierdb_duckdb.Transaction.{
  TierDbTransaction, Session, ensure_write_txn, commit_write, rollback_write, release_all,
  release_pins,
}
use tierdb_duckdb.Transaction.Writes.{Ending, commits, rolls_back, finish}
use tierdb_duckdb.Manager.{commit_session}
use tierdb_duckdb.Manager.Commit.{commit_session_lem}
use tierdb_duckdb.Conn.{Postgres, Conn, Runs, txn_begin, txn_commit, txn_rollback}

module _ {x : Platform} {pg : Postgres} (runs : Runs x pg) (k : x.Conn) where
  abbrev client_of : TierDbClient x
  client_of = record { conn = some k }

  -- The Rust connection in a session.
  abbrev pub conn_in : Session x → Conn pg
  conn_in σ = runs.conn_of k σ.world.outside

  -- The two flags agree.
  abbrev pub IsSynced : Session x → Type 0
  IsSynced σ = (conn_in σ).in_txn ≡ σ.txn.write_active

  -- If the flag of the transaction and the flag of the connection agree, they agree after `EnsureWriteTxn`, also
  -- where `BEGIN` fails.
  pub ensure_write_txn-IsSynced :
      (σ : Session x) → IsSynced σ → IsSynced (ensure_write_txn client_of σ).1
  unfolding ensure_write_txn txn_begin on_conn
  ensure_write_txn-IsSynced σ h =
      ground (arith, txn_begin-answer client_of σ.world, runs.begins k σ.world.outside)

  -- If the two flags agree, they agree after a `CommitWrite` or a `RollbackWrite` that returns.
  pub finish-IsSynced :
      (e : Ending) (σ : Session x)
      → IsSynced σ
      → (finish client_of e σ).0 ≡ ok tt
      → IsSynced (finish client_of e σ).1
  unfolding finish commit_write rollback_write txn_commit txn_rollback on_conn
  finish-IsSynced commits σ h r =
      ground (arith, txn_commit-answer client_of σ.world, runs.commits k σ.world.outside)
  finish-IsSynced rolls_back σ h r =
      ground (arith, txn_rollback-answer client_of σ.world, runs.rolls_back k σ.world.outside)

  release_step-in_txn :
      (p : ℤ) (ps : List ℤ) (w : World x) (st : x.State) (r : Reply (Unit {0}))
      → ((v : World x)
          → (runs.conn_of k (release_all client_of ps v).1.outside).in_txn
            ≡ (runs.conn_of k v.outside).in_txn)
      → let s = answer_status r (called (Ffi.release_read_pin p) st w) in
        (runs.conn_of k (continue s.0 (λ _. release_all client_of ps) s.1).1.outside).in_txn
        ≡ (runs.conn_of k st).in_txn
  release_step-in_txn p ps w st (done _) ih = ih _
  release_step-in_txn p ps w st (failed e) ih = refl

  release_all-in_txn :
      (ps : List ℤ) (w : World x)
      → (runs.conn_of k (release_all client_of ps w).1.outside).in_txn
        ≡ (runs.conn_of k w.outside).in_txn
  unfolding release_all on_conn
  release_all-in_txn [] w = refl
  release_all-in_txn (p ∷ ps) w =
      rw (release_read_pin-answer client_of p w)
        (release_step-in_txn p ps w _ _ (release_all-in_txn ps) ∙ runs.releases k p w.outside)

  refused :
      (σ : Session x) (e : Text)
      → σ.txn.write_active ≡ true
      → (conn_in σ).in_txn ≡ true
      → (pg.batch_execute (text "COMMIT") (conn_in σ).client).0 ≡ failed e
      → (conn_in (commit_write client_of σ).1).in_txn ≡ true
  unfolding commit_write txn_commit on_conn
  refused σ e a i f =
      ground (arith, txn_commit-answer client_of σ.world, runs.commits k σ.world.outside)

  -- A commit that Postgres refuses leaves `in_txn` set: `CommitTransaction` sends no rollback for it.
  commit_session-in_txn :
      (σ : Session x) (e : Text)
      → σ.txn.write_active ≡ true
      → (conn_in σ).in_txn ≡ true
      → (pg.batch_execute (text "COMMIT") (conn_in σ).client).0 ≡ failed e
      → (conn_in (commit_session client_of σ).1).in_txn ≡ true
  unfolding release_pins
  commit_session-in_txn σ e a i f =
      rw (commit_session_lem client_of σ, release_all-in_txn) (refused σ e a i f)

  -- If Postgres refuses the commit of a transaction that has written, then the next transaction of the
  -- catalog that writes opens no Postgres transaction: its `EnsureWriteTxn` returns, and the
  -- connection is the one that the refused commit left.
  pub refused_commit_hides_begin :
      (σ : Session x) (e : Text) (t : TierDbTransaction)
      → σ.txn.write_active ≡ true
      → (conn_in σ).in_txn ≡ true
      → (pg.batch_execute (text "COMMIT") (conn_in σ).client).0 ≡ failed e
      → t.write_active ≡ false
      → let after = (commit_session client_of σ).1 in
        let (r, next) = ensure_write_txn client_of (record after { txn = t }) in
        (r ≡ ok tt) × (conn_in next ≡ conn_in after)
  unfolding ensure_write_txn txn_begin on_conn
  refused_commit_hides_begin σ e t a i f n =
      let after = (commit_session client_of σ).1 in
      ground (
        arith,
        commit_session-in_txn σ e a i f,
        txn_begin-answer client_of after.world,
        runs.begins k after.world.outside,
      )

  -- Two transactions of one catalog that both write share one Postgres transaction: after the first
  -- has rolled it back without an error, the commit of the second returns and leaves the connection
  -- as it was.
  pub rollback_takes_both :
      (σ : Session x) (t : TierDbTransaction)
      → σ.txn.write_active ≡ true
      → t.write_active ≡ true
      → (rollback_write client_of σ).0 ≡ ok tt
      → let after = (rollback_write client_of σ).1 in
        let (r, next) = commit_write client_of (record after { txn = t }) in
        (r ≡ ok tt) × (conn_in next ≡ conn_in after)
  unfolding rollback_write commit_write txn_rollback txn_commit on_conn
  rollback_takes_both σ t a b h =
      let after = (rollback_write client_of σ).1 in
      ground (
        arith,
        txn_rollback-answer client_of σ.world,
        runs.rolls_back k σ.world.outside,
        txn_commit-answer client_of after.world,
        runs.commits k after.world.outside,
      )
