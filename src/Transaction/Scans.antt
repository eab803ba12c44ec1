-- ===== src/Transaction/Scans.antt =====
-- `GetPinnedScan` of src/storage/tierdb_transaction.cpp: one frozen scan for each table of a transaction.
use tierdb_duckdb.Prelude.{ℤ, int_eq_refl, ◌≡◌, none, some, List, [], ◌∷◌, arith}
use tierdb_duckdb.Outcome.{ok}
use tierdb_duckdb.Platform.{Platform}
use tierdb_duckdb.Client.{TierDbClient}
use tierdb_duckdb.Client.Data.{TierDbTableSchema, TierDbPinnedScan}
use tierdb_duckdb.Transaction.{
  Session, find_scan, emplace, remember, get_pinned_scan, ensure_write_txn,
}

abbrev pub Scans : Type 0
Scans = List (ℤ × TierDbPinnedScan)

find_scan-emplace_self :
    (id : ℤ) (p : TierDbPinnedScan) (m : Scans)
    → find_scan id m ≡ none
    → find_scan id (emplace id p m) ≡ some p
unfolding find_scan emplace
find_scan-emplace_self id p [] h = ground (arith, int_eq_refl id)
find_scan-emplace_self id p ((j, q) ∷ m) h =
    ground (arith, find_scan-emplace_self id p m, int_eq_refl id)

find_scan-emplace_old :
    (id k : ℤ) (p q : TierDbPinnedScan) (m : Scans)
    → find_scan k m ≡ some q
    → find_scan k (emplace id p m) ≡ some q
unfolding find_scan emplace
find_scan-emplace_old id k p q [] h = cc
find_scan-emplace_old id k p q ((j, r) ∷ m) h = ground (arith, find_scan-emplace_old id k p q m)

-- A statement of the transaction: a read of a table, or a write, which opens the write transaction.
pub data Statement : Type 0 where
  reads : TierDbTableSchema → Statement
  writes : Statement

module _ {x : Platform} where
  -- A statement that fails leaves what it did.
  unfoldable pub perform_statement : TierDbClient x → Statement → Session x → Session x
  perform_statement c (reads schema) σ = (get_pinned_scan c schema σ).1
  perform_statement c writes σ = (ensure_write_txn c σ).1

  unfoldable pub perform_all : TierDbClient x → List Statement → Session x → Session x
  perform_all c [] σ = σ
  perform_all c (s ∷ ss) σ = perform_all c ss (perform_statement c s σ)

  get_pinned_scan_cached :
      (c : TierDbClient x) (schema : TierDbTableSchema) (σ : Session x) (p : TierDbPinnedScan)
      → find_scan schema.table_id σ.txn.scan_by_table ≡ some p
      → get_pinned_scan c schema σ ≡ (ok p, σ)
  unfolding get_pinned_scan
  get_pinned_scan_cached c schema σ p h = ground arith

  find_scan-get_pinned_scan :
      (c : TierDbClient x) (schema : TierDbTableSchema) (σ : Session x) (p : TierDbPinnedScan)
      → (get_pinned_scan c schema σ).0 ≡ ok p
      → find_scan schema.table_id (get_pinned_scan c schema σ).1.txn.scan_by_table ≡ some p
  unfolding get_pinned_scan remember
  find_scan-get_pinned_scan c schema σ p h =
      ground (arith, find_scan-emplace_self schema.table_id p σ.txn.scan_by_table)

  perform_statement-keeps :
      (c : TierDbClient x) (s : Statement) (k : ℤ) (p : TierDbPinnedScan) (σ : Session x)
      → find_scan k σ.txn.scan_by_table ≡ some p
      → find_scan k (perform_statement c s σ).txn.scan_by_table ≡ some p
  unfolding perform_statement get_pinned_scan ensure_write_txn remember
  perform_statement-keeps c (reads schema) k p σ h = grind (arith, find_scan-emplace_old)
  perform_statement-keeps c writes k p σ h = ground arith

  perform_all-keeps :
      (c : TierDbClient x) (ss : List Statement) (k : ℤ) (p : TierDbPinnedScan) (σ : Session x)
      → find_scan k σ.txn.scan_by_table ≡ some p
      → find_scan k (perform_all c ss σ).txn.scan_by_table ≡ some p
  unfolding perform_all
  perform_all-keeps c [] k p σ h = h
  perform_all-keeps c (s ∷ ss) k p σ h =
      perform_all-keeps c ss k p _ (perform_statement-keeps c s k p σ h)

  -- Once a read of a table has succeeded, every later read of it in the transaction, whatever
  -- other reads and writes came between and whether or not they failed, returns the same scan and
  -- changes nothing.
  pub get_pinned_scan_repeatable :
      (c : TierDbClient x) (schema : TierDbTableSchema) (σ : Session x) (p : TierDbPinnedScan)
      (ss : List Statement)
      → (get_pinned_scan c schema σ).0 ≡ ok p
      → let later = perform_all c ss (get_pinned_scan c schema σ).1 in
        get_pinned_scan c schema later ≡ (ok p, later)
  get_pinned_scan_repeatable c schema σ p ss h =
      get_pinned_scan_cached c schema _ p
        (perform_all-keeps c ss schema.table_id p _ (find_scan-get_pinned_scan c schema σ p h))
