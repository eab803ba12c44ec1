-- ===== src/Transaction/Writes.antt =====
-- The Postgres write transaction of src/storage/tierdb_transaction.cpp: `EnsureWriteTxn`, `CommitWrite` and
-- `RollbackWrite`.
use tierdb_duckdb.Prelude.{◌≡◌, Bool, true, false, arith}
use tierdb_duckdb.Outcome.{Outcome, ok, throw, fault}
use tierdb_duckdb.Platform.{Platform}
use tierdb_duckdb.Ffi
use tierdb_duckdb.Ffi.{Call, World, into_c_string}
use tierdb_duckdb.Ffi.Entry.{on_conn}
use tierdb_duckdb.Client.{TierDbClient}
use tierdb_duckdb.Client.Served.{
  called, answer_status, txn_begin-answer, txn_commit-answer, txn_rollback-answer,
}
use tierdb_duckdb.Transaction.{Session, ensure_write_txn, commit_write, rollback_write}

abbrev pub is_ok {ℓ} : {A : Type ℓ} → Outcome A → Bool
is_ok (ok _) = true
is_ok (throw _) = false
is_ok fault = false

-- The two ways to end the write transaction at the boundary of the DuckDB transaction.
pub data Ending : Type 0 where
  commits rolls_back : Ending

module _ {x : Platform} (c : TierDbClient x) where
  unfoldable pub finish : Ending → Session x → Outcome (Unit {0}) × Session x
  finish commits = commit_write c
  finish rolls_back = rollback_write c

  -- The one call that `finish` makes when a write transaction is open, and what its answer means.
  abbrev pub end_answer : Ending → World x → Outcome (Unit {0}) × World x
  end_answer commits w =
      let r = on_conn x.txn_commit c.conn w.outside in
      answer_status r.0 (called Ffi.txn_commit r.1 w)
  end_answer rolls_back w =
      let r = on_conn x.txn_rollback c.conn w.outside in
      answer_status r.0 (called Ffi.txn_rollback r.1 w)

  -- With no write transaction open, `EnsureWriteTxn` makes the one call `tierdb_txn_begin`, its
  -- error leaves as an exception, and the transaction counts as open exactly if there was no error.
  pub ensure_write_txn_opens :
      (σ : Session x)
      → σ.txn.write_active ≡ false
      → let r = on_conn x.txn_begin c.conn σ.world.outside in
        let (o, w) = answer_status r.0 (called Ffi.txn_begin r.1 σ.world) in
        ensure_write_txn c σ
        ≡ (o, record { txn = record σ.txn { write_active = is_ok o }; world = w })
  unfolding ensure_write_txn
  ensure_write_txn_opens σ h = ground (arith, txn_begin-answer c σ.world)

  -- A second write of a transaction opens nothing.
  pub ensure_write_txn_idem :
      (σ : Session x)
      → (ensure_write_txn c σ).0 ≡ ok tt
      → let σ' = (ensure_write_txn c σ).1 in ensure_write_txn c σ' ≡ (ok tt, σ')
  unfolding ensure_write_txn
  ensure_write_txn_idem σ h = ground arith

  -- With a write transaction open, its end is one call, whose error leaves as an exception; the
  -- transaction counts as closed in both cases, and its pins and scans stay.
  pub finish_open :
      (e : Ending) (σ : Session x)
      → σ.txn.write_active ≡ true
      → let (o, w) = end_answer e σ.world in
        finish e σ ≡ (o, record { txn = record σ.txn { write_active = false }; world = w })
  unfolding finish commit_write rollback_write
  finish_open commits σ h = ground (arith, txn_commit-answer c σ.world)
  finish_open rolls_back σ h = ground (arith, txn_rollback-answer c σ.world)

  -- Once a write transaction has been ended, with or without an error, another commit or rollback
  -- makes no call and changes nothing.
  pub finish-finish :
      (e f : Ending) (σ : Session x) → let σ' = (finish e σ).1 in finish f σ' ≡ (ok tt, σ')
  unfolding finish commit_write rollback_write
  finish-finish commits commits σ = ground arith
  finish-finish commits rolls_back σ = ground arith
  finish-finish rolls_back commits σ = ground arith
  finish-finish rolls_back rolls_back σ = ground arith
