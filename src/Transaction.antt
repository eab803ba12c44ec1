-- ===== src/Transaction.antt =====
-- `TierDBTransaction` of src/storage/tierdb_transaction.cpp: the scans and read pins of one DuckDB transaction,
-- and whether it has opened the Postgres write transaction. The mutex `pin_lock` is held for the
-- whole of `GetPinnedScan`, so a call is one step.
pub mod Scans
pub mod Writes
pub mod Pins
use tierdb_duckdb.Prelude.{
  ℤ, int_eq, Bool, true, false, Option, none, some, List, [], ◌∷◌, ◌++◌, if◌then◌else◌,
}
use tierdb_duckdb.Outcome.{Exec, ok, pure, ◌>>=◌, ◌>>◌}
use tierdb_duckdb.Platform.{Platform}
use tierdb_duckdb.Ffi.{World}
use tierdb_duckdb.Client
use tierdb_duckdb.Client.{TierDbClient}
use tierdb_duckdb.Client.Data.{TierDbTableSchema, TierDbPinnedScan}

-- `scan_by_table` is an `unordered_map`: an association list whose order no code reads.
pub record TierDbTransaction : Type 0 where
  pub scan_by_table : List (ℤ × TierDbPinnedScan)
  pub pins : List ℤ
  pub write_active : Bool

abbrev pub new_transaction : TierDbTransaction
new_transaction = record { scan_by_table = []; pins = []; write_active = false }

-- A transaction, and the world that its methods act on.
pub record Session (x : Platform) : Type 0 where
  pub txn : TierDbTransaction
  pub world : World x

-- `scan_by_table.find`
unfoldable pub find_scan : ℤ → List (ℤ × TierDbPinnedScan) → Option TierDbPinnedScan
find_scan id [] = none
find_scan id ((j, p) ∷ m) = if int_eq j id then some p else find_scan id m

-- `scan_by_table.emplace`, which leaves an entry that is there.
unfoldable pub emplace :
    ℤ → TierDbPinnedScan → List (ℤ × TierDbPinnedScan) → List (ℤ × TierDbPinnedScan)
emplace id pinned [] = (id, pinned) ∷ []
emplace id pinned ((j, p) ∷ m) = if int_eq j id then (j, p) ∷ m else (j, p) ∷ emplace id pinned m

-- The two writes after a scan has been acquired.
unfoldable pub remember : ℤ → TierDbPinnedScan → TierDbTransaction → TierDbTransaction
unfolding emplace
remember id pinned t = record t {
  pins = if pinned.has_pin then t.pins ++ pinned.pin_id ∷ [] else t.pins;
  scan_by_table = emplace id pinned t.scan_by_table;
}

module _ {x : Platform} where
  -- A client method, called from a method of the transaction.
  abbrev pub on_world : {A : Type 0} → Exec (World x) A → Exec (Session x) A
  on_world m σ = let (r, w) = m σ.world in (r, record σ { world = w })

  abbrev pub update_txn : (TierDbTransaction → TierDbTransaction) → Exec (Session x) (Unit {0})
  update_txn f σ = (ok tt, record σ { txn = f σ.txn })

  unfoldable pub acquire :
      Option TierDbPinnedScan
      → TierDbClient x
      → TierDbTableSchema
      → Exec (Session x) TierDbPinnedScan
  unfolding remember
  acquire (some p) c schema σ = pure p σ
  acquire none c schema σ =
      (do
        pinned ← on_world (Client.acquire_read_scan c schema.schema_name schema.table_name)
        update_txn (remember schema.table_id pinned)
        pure pinned)
        σ

  unfoldable pub get_pinned_scan :
      TierDbClient x → TierDbTableSchema → Exec (Session x) TierDbPinnedScan
  unfolding acquire find_scan
  get_pinned_scan c schema σ = acquire (find_scan schema.table_id σ.txn.scan_by_table) c schema σ

  -- The loop over `to_release`.
  unfoldable pub release_all : TierDbClient x → List ℤ → Exec (World x) (Unit {0})
  release_all c [] w = pure tt w
  release_all c (pin_id ∷ rest) w = (Client.release_read_pin c pin_id >> release_all c rest) w

  unfoldable pub release_pins : TierDbClient x → Exec (Session x) (Unit {0})
  unfolding release_all
  release_pins c σ =
      (do
        update_txn (λ t. record t { pins = []; scan_by_table = [] })
        on_world (release_all c σ.txn.pins))
        σ

  unfoldable pub ensure_write_txn : TierDbClient x → Exec (Session x) (Unit {0})
  ensure_write_txn c σ =
      if σ.txn.write_active
      then (ok tt, σ)
      else (do on_world (Client.txn_begin c); update_txn (λ t. record t { write_active = true })) σ

  unfoldable pub commit_write : TierDbClient x → Exec (Session x) (Unit {0})
  commit_write c σ =
      if σ.txn.write_active
      then (do update_txn (λ t. record t { write_active = false }); on_world (Client.txn_commit c))
          σ
      else (ok tt, σ)

  unfoldable pub rollback_write : TierDbClient x → Exec (Session x) (Unit {0})
  rollback_write c σ =
      if σ.txn.write_active
      then (do
        update_txn (λ t. record t { write_active = false })
        on_world (Client.txn_rollback c))
          σ
      else (ok tt, σ)
