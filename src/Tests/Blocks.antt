-- ===== src/Tests/Blocks.antt =====
-- A read on a connection whose session is its transaction block alone: tierdb-core-ffi/src/scan.rs.
use tierdb_duckdb.Prelude.{pos, Text, text, text_eq, ◌≡◌, refl, Bool, true, false, ◌||◌, none, some}
use tierdb_duckdb.Platform.{done}
use tierdb_duckdb.Conn.{Postgres, Conn}
use tierdb_duckdb.Conn.Reads.{Planner, acquire_scan}
use tierdb_duckdb.Conn.Reads.Blocks.{Blocks, acquire_scan-in_block}
use tierdb_duckdb.Tests.Chunked.{sales}

-- Whether the block is open after a statement.
opened : Text → Bool
opened sql = elim (text_eq sql (text "COMMIT") || text_eq sql (text "ROLLBACK")) [
  | true ↦ false
  | false ↦ true
]

abbrev postgres : Postgres
postgres = record { Session = Bool; batch_execute = λ sql s. (done tt, opened sql) }

abbrev planner : Planner postgres
planner = record {
  LakeCatalog = Text;
  Cutline = Text;
  table_schema = λ a b s. (done sales, s);
  lake_catalog = λ ts s. (done none, s);
  cutline = λ id s. (done (some (text "7")), s);
  read_pin_acquire = λ id c s. (done (pos 3), s);
  mode_is_direct = λ ts. done false;
  attach_sql = λ c. c;
  render = λ ts lake c dsn. done (text "SELECT 1");
}

blocks : Blocks planner
unfolding opened text_eq
blocks = record {
  in_block = λ s. s;
  refused = λ s e h. cc;
  commit = λ s. refl;
  rollback = λ s. refl;
  schema_query = λ a b s. refl;
  catalog_query = λ ts s. refl;
  cutline_query = λ id s. refl;
  pin_query = λ id c s. refl;
}

abbrev idle : Conn postgres
idle = record { client = false; dsn = text "host=h"; in_txn = false }

acquire_scan-in_block_example :
    (acquire_scan planner (text "public") (text "sales") idle).1.client ≡ false
unfolding blocks acquire_scan
acquire_scan-in_block_example =
    acquire_scan-in_block blocks (text "public") (text "sales") idle refl
