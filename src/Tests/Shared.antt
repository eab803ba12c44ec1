-- ===== src/Tests/Shared.antt =====
-- Runs on the shared connection of src/storage/tierdb_client.cpp and tierdb-core-ffi/src/catalog.rs, and the strings that
-- cross the C ABI.
use tierdb_duckdb.Prelude.{
  ℕ, suc, ◌+◌, ◌-◌, ◌≤◌, ◌<◌, ℤ, pos, Text, text, ◌≡◌, refl, ◌≢◌, Bool, true, false, Option, none,
  some, List, [], ◌∷◌, ◌++◌, arith, if◌then◌else◌,
}
use tierdb_duckdb.Outcome.{ok}
use tierdb_duckdb.Platform.{failed}
use tierdb_duckdb.Ffi
use tierdb_duckdb.Ffi.{World}
use tierdb_duckdb.Client
use tierdb_duckdb.Client.{TierDbClient}
use tierdb_duckdb.Transaction.{new_transaction, ensure_write_txn, commit_write, rollback_write}
use tierdb_duckdb.Transaction.Writes.{commits, finish}
use tierdb_duckdb.Manager.{commit_session}
use tierdb_duckdb.Conn.Shared.{
  conn_in, IsSynced, ensure_write_txn-IsSynced, finish-IsSynced, refused_commit_hides_begin,
  rollback_takes_both,
}
use tierdb_duckdb.Safety.Methods.{ClientSafe, client_safe}
use tierdb_duckdb.Tests.Fixture.{platform, postgres, runs}
use tierdb_duckdb.Tests.Sessions.{client, idle, busy, settled}

client_safe_example : ClientSafe client
client_safe_example = client_safe client

idle-IsSynced : IsSynced runs tt idle
unfolding runs
idle-IsSynced = refl

busy-IsSynced : IsSynced runs tt (busy false)
unfolding runs
busy-IsSynced = refl

ensure_write_txn-IsSynced_example : IsSynced runs tt (ensure_write_txn client idle).1
ensure_write_txn-IsSynced_example = ensure_write_txn-IsSynced runs tt idle idle-IsSynced

committed : (finish client commits (busy false)).0 ≡ ok tt
unfolding finish commit_write Client.txn_commit tierdb_duckdb.Ffi.Entry.tierdb_txn_commit
    tierdb_duckdb.Conn.txn_commit tierdb_duckdb.Tests.Fixture.batch_execute
committed = refl

finish-IsSynced_example : IsSynced runs tt (finish client commits (busy false)).1
finish-IsSynced_example = finish-IsSynced runs tt commits (busy false) busy-IsSynced committed

rolled_back : (rollback_write client (busy false)).0 ≡ ok tt
unfolding rollback_write Client.txn_rollback tierdb_duckdb.Ffi.Entry.tierdb_txn_rollback
    tierdb_duckdb.Conn.txn_rollback tierdb_duckdb.Tests.Fixture.batch_execute
rolled_back = refl

busy_in_txn : (conn_in runs tt (busy true)).in_txn ≡ true
unfolding runs
busy_in_txn = refl

refused_by_postgres :
    (postgres.batch_execute (text "COMMIT") (conn_in runs tt (busy true)).client).0
    ≡ failed (text "could not serialize access")
unfolding tierdb_duckdb.Tests.Fixture.batch_execute tierdb_duckdb.Prelude.text_eq runs
refused_by_postgres = refl

refused_commit_hides_begin_example :
    let after = (commit_session client (busy true)).1 in
    let (r, next) = ensure_write_txn client (record after { txn = new_transaction }) in
    (r ≡ ok tt) × (conn_in runs tt next ≡ conn_in runs tt after)
refused_commit_hides_begin_example =
    refused_commit_hides_begin runs tt (busy true) (text "could not serialize access")
      new_transaction refl busy_in_txn refused_by_postgres refl

rollback_takes_both_example :
    let after = (rollback_write client (busy false)).1 in
    let (r, next) = commit_write client (record after { txn = (settled false).txn }) in
    (r ≡ ok tt) × (conn_in runs tt next ≡ conn_in runs tt after)
rollback_takes_both_example =
    rollback_takes_both runs tt (busy false) (settled false).txn refl refl rolled_back
