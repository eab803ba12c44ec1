-- ===== src/Manager.antt =====
-- `TierDBTransactionManager` of src/storage/tierdb_transaction_manager.cpp. Transactions are objects with an
-- identity: the map that owns them has the address as its key, and a `Transaction &` is such an
-- address. The mutex `transaction_lock` guards single accesses to the map.
pub mod Commit
pub mod Rollback
pub mod Registry
pub mod Interleaving
use tierdb_duckdb.Prelude.{ℕ, suc, Option, none, some, List, [], ◌∷◌, ◌==◌, if◌then◌else◌}
use tierdb_duckdb.Outcome.{Exception, Exec, ok, pure, crash, try_catch, ◌>>=◌, ◌>>◌}
use tierdb_duckdb.Platform.{Platform}
use tierdb_duckdb.Ffi.{World}
use tierdb_duckdb.Client.{TierDbClient}
use tierdb_duckdb.Transaction.{
  TierDbTransaction, new_transaction, Session, release_pins, commit_write, rollback_write,
}

abbrev pub Transactions : Type 0
Transactions = List (ℕ × TierDbTransaction)

-- `fresh` is an address that the allocator has not given out.
pub record Manager (x : Platform) : Type 0 where
  pub transactions : Transactions
  pub fresh : ℕ
  pub world : World x

-- `ErrorData`: `none` has `HasError() == false`.
abbrev pub ErrorData : Type 0
ErrorData = Option Exception

unfoldable pub find_transaction : ℕ → Transactions → Option TierDbTransaction
find_transaction a [] = none
find_transaction a ((b, t) ∷ m) = if b == a then some t else find_transaction a m

-- `transactions.erase(transaction)`
unfoldable pub erase : ℕ → Transactions → Transactions
erase a [] = []
erase a ((b, t) ∷ m) = if b == a then m else (b, t) ∷ erase a m

-- `if (!error.HasError()) { error = ErrorData(ex); }`
first_error : ErrorData → Exception → ErrorData
first_error none ex = some ex
first_error (some e) ex = some e

module _ {x : Platform} where
  unfoldable pub start_transaction : Exec (Manager x) ℕ
  start_transaction m = (
    ok m.fresh,
    record m { transactions = (m.fresh, new_transaction) ∷ m.transactions; fresh = suc m.fresh },
  )

  -- `error = ErrorData(ex)`, then the rollback whose own failure is dropped.
  rollback_after : TierDbClient x → Exception → Exec (Session x) ErrorData
  rollback_after c ex = do try_catch (rollback_write c) (λ _. pure tt); pure (some ex)

  unfoldable pub commit_phase : TierDbClient x → Exec (Session x) ErrorData
  unfolding rollback_after
  commit_phase c = try_catch (do commit_write c; pure none) (rollback_after c)

  unfoldable pub release_phase : TierDbClient x → ErrorData → Exec (Session x) ErrorData
  unfolding first_error
  release_phase c e = try_catch (do release_pins c; pure e) (λ ex. pure (first_error e ex))

  -- `CommitTransaction` up to the erasure.
  unfoldable pub commit_session : TierDbClient x → Exec (Session x) ErrorData
  unfolding commit_phase release_phase
  commit_session c = do error ← commit_phase c; release_phase c error

  -- `RollbackTransaction` up to the erasure.
  unfoldable pub rollback_session : TierDbClient x → Exec (Session x) (Unit {0})
  rollback_session c = do
    try_catch (rollback_write c) (λ _. pure tt)
    try_catch (release_pins c) (λ _. pure tt)

  -- The transaction `a` is worked on by `body` and then destroyed; a `Transaction &` to no
  -- object is undefined behaviour.
  close : {A : Type 0} → Exec (Session x) A → ℕ → Option TierDbTransaction → Exec (Manager x) A
  close body a none m = crash m
  close body a (some t) m =
      let (r, σ) = body (record { txn = t; world = m.world }) in
      (r, record m { transactions = erase a m.transactions; world = σ.world })

  unfoldable pub commit_transaction : TierDbClient x → ℕ → Exec (Manager x) ErrorData
  unfolding close commit_session find_transaction
  commit_transaction c a m = close (commit_session c) a (find_transaction a m.transactions) m

  unfoldable pub rollback_transaction : TierDbClient x → ℕ → Exec (Manager x) (Unit {0})
  unfolding close rollback_session find_transaction
  rollback_transaction c a m = close (rollback_session c) a (find_transaction a m.transactions) m
