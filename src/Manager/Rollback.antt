-- ===== src/Manager/Rollback.antt =====
-- `RollbackTransaction` of src/storage/tierdb_transaction_manager.cpp, up to the erasure of the transaction.
use tierdb_duckdb.Prelude.{◌≡◌, arith}
use tierdb_duckdb.Outcome.{ok, pure, try_catch}
use tierdb_duckdb.Platform.{Platform}
use tierdb_duckdb.Ffi
use tierdb_duckdb.Ffi.{World}
use tierdb_duckdb.Client.{TierDbClient}
use tierdb_duckdb.Client.Served.{txn_rollback-answer}
use tierdb_duckdb.Transaction.{Session, release_pins, rollback_write}
use tierdb_duckdb.Transaction.Pins.{release_pins-Releases}
use tierdb_duckdb.Manager.{rollback_session}

module _ {x : Platform} (c : TierDbClient x) (σ : Session x) where
  rollback_write-ending :
      (try_catch (rollback_write c) (λ _. pure tt)) σ ≡ (ok tt, (rollback_write c σ).1)
  unfolding rollback_write
  rollback_write-ending = ground (arith, txn_rollback-answer c σ.world)

  release_pins-ending :
      (τ : Session x)
      → (try_catch (release_pins c) (λ _. pure tt)) τ ≡ (ok tt, (release_pins c τ).1)
  release_pins-ending τ = ground (arith, (release_pins-Releases c τ).0.ending)

  -- `RollbackTransaction` raises nothing: it is `RollbackWrite`, then `ReleasePins`, whether or not either
  -- fails.
  pub rollback_session_lem :
      rollback_session c σ ≡ (ok tt, (release_pins c (rollback_write c σ).1).1)
  unfolding rollback_session
  rollback_session_lem = rw rollback_write-ending (release_pins-ending _)
