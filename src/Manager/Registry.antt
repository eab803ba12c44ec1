-- ===== src/Manager/Registry.antt =====
-- The map of transactions of src/storage/tierdb_transaction_manager.cpp, and what a commit or a rollback takes out of it.
use tierdb_duckdb.Prelude.{ℕ, ◌<◌, ◌≤◌, ◌≡◌, refl, ◌≢◌, none, some, [], ◌∷◌, arith}
use tierdb_duckdb.Outcome.{ok}
use tierdb_duckdb.Platform.{Platform}
use tierdb_duckdb.Client.{TierDbClient}
use tierdb_duckdb.Transaction.{TierDbTransaction}
use tierdb_duckdb.Manager.{
  Manager, Transactions, ErrorData, find_transaction, erase, commit_transaction,
  rollback_transaction,
}
use tierdb_duckdb.Manager.Commit.{commit_session_lem}
use tierdb_duckdb.Manager.Rollback.{rollback_session_lem}

-- The addresses are distinct and were given out: they fall along the map and stay below `n`.
abbrev pub Below : ℕ → Transactions → Type 0
Below n [] = Unit
Below n ((a, t) ∷ m) = (a < n) × Below a m

Below-mono : (a b : ℕ) (m : Transactions) → a ≤ b → Below a m → Below b m
Below-mono a b [] h v = tt
Below-mono a b ((k, t) ∷ m) h v = (omega arith, v.1)

find_transaction_above :
    (a n : ℕ) (m : Transactions) → Below n m → n ≤ a → find_transaction a m ≡ none
unfolding find_transaction
find_transaction_above a n [] v h = refl
find_transaction_above a n ((b, t) ∷ m) v h = ground (arith, find_transaction_above a b m v.1)

pub erase-Below : (a n : ℕ) (m : Transactions) → Below n m → Below n (erase a m)
unfolding erase
erase-Below a n [] v = tt
erase-Below a n ((b, t) ∷ m) v = ground (arith, erase-Below a b m v.1, Below-mono b n m)

find_transaction-erase_self :
    (a n : ℕ) (m : Transactions) → Below n m → find_transaction a (erase a m) ≡ none
unfolding find_transaction erase
find_transaction-erase_self a n [] v = refl
find_transaction-erase_self a n ((b, t) ∷ m) v =
    ground (arith, find_transaction-erase_self a b m v.1, find_transaction_above a b m v.1)

find_transaction-erase_ne :
    (a b : ℕ) (m : Transactions) → a ≢ b → find_transaction b (erase a m) ≡ find_transaction b m
unfolding find_transaction erase
find_transaction-erase_ne a b [] h = refl
find_transaction-erase_ne a b ((k, t) ∷ m) h = ground (arith, find_transaction-erase_ne a b m h)

-- How a commit or a rollback leaves the map: without the transaction, and with every other one as it was.
pub record Closes (a : ℕ) (m m' : Transactions) : Type 0 where
  pub gone : find_transaction a m' ≡ none
  pub others : (b : ℕ) → a ≢ b → find_transaction b m' ≡ find_transaction b m

module _ {x : Platform} (c : TierDbClient x) (m : Manager x) (a : ℕ) (t : TierDbTransaction) where
  -- `CommitTransaction` of a live transaction, where addresses are distinct and below the next one, raises
  -- nothing, and the transaction is destroyed, whatever fails; every other one stays.
  pub commit_transaction-Closes :
      Below m.fresh m.transactions
      → find_transaction a m.transactions ≡ some t
      → (error : ErrorData) × ((commit_transaction c a m).0 ≡ ok error)
        × Closes a m.transactions (commit_transaction c a m).1.transactions
  unfolding commit_transaction
  commit_transaction-Closes v h = rw h (
      rw (commit_session_lem c (record { txn = t; world = m.world })) (
        _,
        refl,
        record {
          gone = find_transaction-erase_self a m.fresh m.transactions v;
          others = λ b. find_transaction-erase_ne a b m.transactions;
        },
      ))

  -- `RollbackTransaction` of a live transaction, where addresses are distinct and below the next one, returns
  -- without an error, and the transaction is destroyed, whatever fails; every other one stays.
  pub rollback_transaction-Closes :
      Below m.fresh m.transactions
      → find_transaction a m.transactions ≡ some t
      → ((rollback_transaction c a m).0 ≡ ok tt)
        × Closes a m.transactions (rollback_transaction c a m).1.transactions
  unfolding rollback_transaction
  rollback_transaction-Closes v h = rw h (
      rw (rollback_session_lem c (record { txn = t; world = m.world })) (
        refl,
        record {
          gone = find_transaction-erase_self a m.fresh m.transactions v;
          others = λ b. find_transaction-erase_ne a b m.transactions;
        },
      ))
