-- ===== src/Manager/Interleaving.antt =====
-- The transactions of one catalog in any interleaving: src/storage/tierdb_transaction_manager.cpp and
-- src/storage/tierdb_transaction.cpp together.
use tierdb_duckdb.Prelude.{
  ℕ, ◌≡◌, refl, ap, Option, none, some, List, [], ◌∷◌, ◌==◌, arith, if◌then◌else◌,
}
use tierdb_duckdb.Outcome.{Exec}
use tierdb_duckdb.Platform.{Platform}
use tierdb_duckdb.Client.{TierDbClient}
use tierdb_duckdb.Transaction.{TierDbTransaction, Session}
use tierdb_duckdb.Transaction.Scans.{Statement, perform_statement}
use tierdb_duckdb.Transaction.Pins.{IsPinned, perform_statement-IsPinned}
use tierdb_duckdb.Manager.{
  Manager, Transactions, find_transaction, erase, start_transaction, commit_transaction,
  rollback_transaction, commit_session, rollback_session, close,
}
use tierdb_duckdb.Manager.Registry.{Below, erase-Below}

-- A statement works on the object that the map owns.
store : ℕ → TierDbTransaction → Transactions → Transactions
store a t [] = []
store a t ((b, u) ∷ m) = if b == a then (b, t) ∷ m else (b, u) ∷ store a t m

-- What the sessions of a DuckDB instance do with the transactions of one catalog, in any order.
pub data Event : Type 0 where
  starts : Event
  commits rolls_back : ℕ → Event
  executes : ℕ → Statement → Event

Below-store :
    (a n : ℕ) (t : TierDbTransaction) (m : Transactions) → Below n m → Below n (store a t m)
unfolding store
Below-store a n t [] v = tt
Below-store a n t ((b, u) ∷ m) v = ground (arith, Below-store a b t m v.1)

-- Every transaction satisfies `P`.
abbrev pub Each : (TierDbTransaction → Type 0) → Transactions → Type 0
Each P [] = Unit
Each P ((a, t) ∷ m) = P t × Each P m

module _ (P : TierDbTransaction → Type 0) where
  Each-erase : (a : ℕ) (m : Transactions) → Each P m → Each P (erase a m)
  unfolding erase
  Each-erase a [] e = tt
  Each-erase a ((b, t) ∷ m) e = ground (arith, Each-erase a m e.1)

  Each-store :
      (a : ℕ) (t : TierDbTransaction) (m : Transactions) → P t → Each P m → Each P (store a t m)
  unfolding store
  Each-store a t [] p e = tt
  Each-store a t ((b, u) ∷ m) p e = ground (arith, Each-store a t m p e.1)

  Each-find :
      (a : ℕ) (t : TierDbTransaction) (m : Transactions)
      → Each P m
      → find_transaction a m ≡ some t
      → P t
  unfolding find_transaction
  Each-find a t [] e h = cc
  Each-find a t ((b, u) ∷ m) e h = ground (arith, Each-find a t m e.1, ap P)

module _ {x : Platform} (c : TierDbClient x) where
  execute_in : ℕ → Statement → Manager x → Option TierDbTransaction → Manager x
  execute_in a s m none = m
  execute_in a s m (some t) =
      let σ = perform_statement c s (record { txn = t; world = m.world }) in
      record m { transactions = store a σ.txn m.transactions; world = σ.world }

  -- An event of a transaction that is not there does not happen.
  pub step : Event → Manager x → Manager x
  unfolding execute_in
  step starts m = (start_transaction m).1
  step (commits a) m = (commit_transaction c a m).1
  step (rolls_back a) m = (rollback_transaction c a m).1
  step (executes a s) m = execute_in a s m (find_transaction a m.transactions)

  pub run : List Event → Manager x → Manager x
  run [] m = m
  run (e ∷ es) m = run es (step e m)

  -- The addresses are distinct and below the next one, and each transaction holds exactly the pins of its
  -- cached scans, one scan to a table.
  pub record IsRegistry (m : Manager x) : Type 0 where
    pub below : Below m.fresh m.transactions
    pub pinned : Each IsPinned m.transactions

  close-IsRegistry :
      {A : Type 0} (body : Exec (Session x) A) (a : ℕ) (o : Option TierDbTransaction)
      (m : Manager x)
      → IsRegistry m
      → IsRegistry (close body a o m).1
  unfolding close
  close-IsRegistry body a none m v = v
  close-IsRegistry body a (some t) m v = record {
    below = erase-Below a m.fresh m.transactions v.below;
    pinned = Each-erase IsPinned a m.transactions v.pinned;
  }

  execute_in-IsRegistry :
      (a : ℕ) (s : Statement) (m : Manager x) (o : Option TierDbTransaction)
      → find_transaction a m.transactions ≡ o
      → IsRegistry m
      → IsRegistry (execute_in a s m o)
  unfolding execute_in
  execute_in-IsRegistry a s m none h v = v
  execute_in-IsRegistry a s m (some t) h v =
      let σ : Session x = record { txn = t; world = m.world } in
      record {
        below = Below-store a m.fresh _ m.transactions v.below;
        pinned =
            Each-store IsPinned a _ m.transactions
              (perform_statement-IsPinned c s σ (Each-find IsPinned a t m.transactions v.pinned h))
              v.pinned;
      }

  step-IsRegistry : (e : Event) (m : Manager x) → IsRegistry m → IsRegistry (step e m)
  unfolding step start_transaction commit_transaction rollback_transaction
  step-IsRegistry starts m v = record {
    below = (omega arith, v.below);
    pinned = (record { held = refl; distinct = tt }, v.pinned);
  }
  step-IsRegistry (commits a) m v =
      close-IsRegistry (commit_session c) a (find_transaction a m.transactions) m v
  step-IsRegistry (rolls_back a) m v =
      close-IsRegistry (rollback_session c) a (find_transaction a m.transactions) m v
  step-IsRegistry (executes a s) m v = execute_in-IsRegistry a s m _ refl v

  -- If the invariant holds, it holds after any interleaving of starts, statements, commits and rollbacks
  -- of any number of transactions, whatever the calls answer: distinct addresses, one scan to a
  -- table in each transaction, and the pins of each exactly those of its scans.
  pub run-IsRegistry : (es : List Event) (m : Manager x) → IsRegistry m → IsRegistry (run es m)
  unfolding run
  run-IsRegistry [] m v = v
  run-IsRegistry (e ∷ es) m v = run-IsRegistry es (step e m) (step-IsRegistry e m v)
