-- ===== src/Tests/Sessions.antt =====
-- Runs of the transaction and the manager: src/storage/tierdb_transaction.cpp and
-- src/storage/tierdb_transaction_manager.cpp.
use tierdb_duckdb.Prelude.{
  ℕ, suc, ◌+◌, ◌≤◌, ℤ, pos, Text, text, ◌≡◌, refl, ◌≢◌, Bool, true, false, Option, none, some, List,
  [], ◌∷◌, ◌++◌, arith, if◌then◌else◌,
}
use tierdb_duckdb.Outcome.{ok, io_exception}
use tierdb_duckdb.Platform.{done, failed}
use tierdb_duckdb.Ffi
use tierdb_duckdb.Ffi.{World, into_c_string}
use tierdb_duckdb.Ffi.Entry.{on_conn}
use tierdb_duckdb.Ffi.Entry.{tierdb_acquire_read_scan}
use tierdb_duckdb.Ffi.{string_at, tierdb_free_string, string_result}
use tierdb_duckdb.Client.Decode.{decode_pinned_scan}
use tierdb_duckdb.Client.{TierDbClient, tierdb_error, acquire_read_scan, check, read_value, decoded}
use tierdb_duckdb.Client.Served.{io_error}
use tierdb_duckdb.Client.Data.{TierDbTableSchema, TierDbPinnedScan}
use tierdb_duckdb.Conn.{Conn}
use tierdb_duckdb.Transaction.{
  new_transaction, Session, get_pinned_scan, release_pins, commit_write,
}
use tierdb_duckdb.Transaction.Scans.{reads, writes, perform_all, get_pinned_scan_repeatable}
use tierdb_duckdb.Transaction.Pins.{
  Releases, released, release_pins-Releases, release_pins_abandons,
}
use tierdb_duckdb.Manager.{ErrorData, Manager, find_transaction, commit_session, commit_transaction}
use tierdb_duckdb.Manager.Commit.{commit_session_succeeds, commit_session_fails}
use tierdb_duckdb.Manager.Registry.{Closes, commit_transaction-Closes}
use tierdb_duckdb.Manager.Interleaving
use tierdb_duckdb.Manager.Interleaving.{Event, starts, executes, IsRegistry, run, run-IsRegistry}
use tierdb_duckdb.Tests.Fixture.{
  batch_execute, platform, release, obj_get, get_str, get_sint, is_null, read,
}

abbrev pub client : TierDbClient platform
client = record { conn = some tt }

-- A world whose connection refuses each `COMMIT`, or not, inside or outside a Postgres transaction.
abbrev pub world : Bool → Bool → World platform
world refuses in_txn = record {
  outside = record {
    client = record { log = []; refuses = refuses };
    dsn = text "host=db";
    in_txn = in_txn;
  };
  heap = record { live = []; next = 0 };
  history = [];
}

abbrev pub idle : Session platform
idle = record { txn = new_transaction; world = world false false }

-- A transaction that has written and holds the pins 7 and 13, of which 13 cannot be released.
abbrev pub busy : Bool → Session platform
busy refuses = record {
  txn = record { scan_by_table = []; pins = pos 13 ∷ pos 7 ∷ []; write_active = true };
  world = world refuses true;
}

-- The same with a pin that can be released.
abbrev pub settled : Bool → Session platform
settled refuses = record {
  txn = record { scan_by_table = []; pins = pos 7 ∷ []; write_active = true };
  world = world refuses true;
}

abbrev pub orders : TierDbTableSchema
orders = record {
  table_id = pos 4;
  schema_name = text "public";
  table_name = text "orders";
  lake_format = text "iceberg";
  lake_table_ref = text "lake.orders";
  tier_key_col = text "ts";
  tier_key_type = text "TIMESTAMP";
  primary_key_cols = text "id" ∷ [];
  columns = [];
}

abbrev pub pinned : TierDbPinnedScan
pinned = record { has_pin = true; pin_id = pos 7; scan_sql = text "SELECT 1"; attach_sql = [] }

pinned_first : (get_pinned_scan client orders idle).0 ≡ ok pinned
unfolding get_pinned_scan acquire_read_scan tierdb_acquire_read_scan obj_get get_str get_sint
    is_null read check read_value decoded string_at tierdb_free_string string_result
    decode_pinned_scan into_c_string tierdb_duckdb.Ffi.Strings.load tierdb_duckdb.Ffi.Strings.alloc
    tierdb_duckdb.Prelude.text_eq tierdb_duckdb.Ffi.Strings.release
pinned_first = refl

get_pinned_scan_repeatable_example :
    let later =
      perform_all client (writes ∷ reads orders ∷ []) (get_pinned_scan client orders idle).1 in
    get_pinned_scan client orders later ≡ (ok pinned, later)
get_pinned_scan_repeatable_example =
    get_pinned_scan_repeatable client orders idle pinned (writes ∷ reads orders ∷ []) pinned_first

release_pins-Releases_example :
    let (r, σ') = release_pins client (busy false) in
    Releases (pos 13 ∷ pos 7 ∷ []) (busy false).world r σ'.world
    × (σ'.txn ≡ record (busy false).txn { pins = []; scan_by_table = [] })
release_pins-Releases_example = release_pins-Releases client (busy false)

refused_pin :
    (on_conn (λ k. platform.release_read_pin k (pos 13)) client.conn (busy false).world.outside).0
    ≡ failed (text "no such pin")
unfolding on_conn release tierdb_duckdb.Prelude.int_eq
refused_pin = refl

release_pins_abandons_example :
    let (r, σ') = release_pins client (busy false) in
    (r ≡ io_error (tierdb_error (into_c_string (text "no such pin"))))
    × (σ'.world.history ≡ Ffi.release_read_pin (pos 13) ∷ [])
    × (σ'.txn.pins ≡ [])
release_pins_abandons_example =
    release_pins_abandons client (busy false) (pos 13) (pos 7 ∷ []) (text "no such pin") refl
      refused_pin

settled_commits : (commit_session client (settled false)).0 ≡ ok none
unfolding commit_session commit_write tierdb_duckdb.Client.txn_commit
    tierdb_duckdb.Ffi.Entry.tierdb_txn_commit tierdb_duckdb.Conn.txn_commit batch_execute
    release_pins tierdb_duckdb.Client.release_read_pin
    tierdb_duckdb.Ffi.Entry.tierdb_release_read_pin release tierdb_duckdb.Prelude.int_eq
settled_commits = refl

commit_session_succeeds_example :
    ((commit_session client (settled false)).1.world.history
      ≡ released (pos 7 ∷ []) (Ffi.txn_commit ∷ []))
    × ((on_conn platform.txn_commit client.conn (settled false).world.outside).0 ≡ done tt)
commit_session_succeeds_example = commit_session_succeeds client (settled false) settled_commits

abbrev pub refusal : Text
refusal = text "COMMIT" ++ text " failed: " ++ text "could not serialize access"

refused_commit :
    (on_conn platform.txn_commit client.conn (busy true).world.outside).0 ≡ failed refusal
unfolding on_conn tierdb_duckdb.Conn.txn_commit batch_execute tierdb_duckdb.Prelude.text_eq
refused_commit = refl

commit_session_fails_example :
    (sent rest : List ℤ) × ((commit_session client (busy true)).0
      ≡ ok (some (record { kind = io_exception; message = tierdb_error (into_c_string refusal) })))
    × (pos 13 ∷ pos 7 ∷ [] ≡ sent ++ rest)
    × ((commit_session client (busy true)).1.world.history ≡ released sent (Ffi.txn_commit ∷ []))
commit_session_fails_example = commit_session_fails client (busy true) refusal refl refused_commit

-- A catalog with two transactions.
abbrev pub catalog : Manager platform
catalog = record {
  transactions = (1, (busy true).txn) ∷ (0, new_transaction) ∷ [];
  fresh = 2;
  world = world true true;
}

catalog_found : (find_transaction 1 catalog.transactions) ≡ some (busy true).txn
unfolding find_transaction
catalog_found = refl

commit_transaction-Closes_example :
    (error : ErrorData) × ((commit_transaction client 1 catalog).0 ≡ ok error)
    × Closes 1 catalog.transactions (commit_transaction client 1 catalog).1.transactions
commit_transaction-Closes_example =
    commit_transaction-Closes client catalog 1 (busy true).txn (omega arith, (omega arith, tt))
      catalog_found

abbrev pub empty_catalog : Manager platform
empty_catalog = record { transactions = []; fresh = 0; world = world false false }

abbrev pub interleaved : List Event
interleaved =
    starts ∷ starts ∷ executes 0 writes ∷ executes 1 (reads orders) ∷ Interleaving.commits 0 ∷ []

run-IsRegistry_example : IsRegistry client (run client interleaved empty_catalog)
run-IsRegistry_example =
    run-IsRegistry client interleaved empty_catalog (record { below = tt; pinned = tt })
