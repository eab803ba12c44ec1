-- ===== src/Tests/Wires.antt =====
-- Documents that arrive, with yyjson's accessors made concrete: tierdb-core-ffi/src/lib.rs and src/storage/tierdb_client.cpp.
use tierdb_duckdb.Prelude.{pos, Text, text, ◌≡◌, refl, true, false, none, some, [], ◌∷◌, arith}
use tierdb_duckdb.Outcome.{ok}
use tierdb_duckdb.Platform.{Platform, done}
use tierdb_duckdb.Ffi.{World, c_str, into_c_string}
use tierdb_duckdb.Client
use tierdb_duckdb.Client.{TierDbClient}
use tierdb_duckdb.Wire.{
  SerdeValue, ChunkOutcome, to_json, PinnedScan, pinned_scan_json, TableSchema, table_schema_json,
  as_read,
}
use tierdb_duckdb.Wire.Laws.{Accessors}
use tierdb_duckdb.Wire.Decoded.{delivered_schema}
use tierdb_duckdb.Wire.Delivered.{inserts, chunk_delivered, scan_delivered, schema_delivered}
use tierdb_duckdb.Tests.Fixture.{platform, yyjson, obj_get, get_str, get_sint, is_null, elements}

accessors : Accessors yyjson
unfolding obj_get get_str get_sint is_null elements
accessors = record {
  get = λ fs key. refl;
  string = λ s. refl;
  no_string = refl;
  unsigned = λ n l. refl;
  signed = λ n. refl;
  null = refl;
  unsigned_value = λ n. refl;
  signed_value = λ n. refl;
  each = λ js. refl;
}

-- A platform on which every string is read as one document, and answered with the text `a`.
abbrev answering : SerdeValue → Platform
answering v = record platform {
  yyjson = record yyjson { read = λ s. some (as_read v) };
  table_schema = λ k s t st. (done (text "a"), st);
  acquire_read_scan = λ k s t st. (done (text "a"), st);
  insert_chunk = λ k s t rows st. (done (text "a"), st);
}

answering-Accessors : (v : SerdeValue) → Accessors (answering v).yyjson
unfolding obj_get get_str get_sint is_null elements
answering-Accessors v = record {
  get = λ fs key. refl;
  string = λ s. refl;
  no_string = refl;
  unsigned = λ n l. refl;
  signed = λ n. refl;
  null = refl;
  unsigned_value = λ n. refl;
  signed_value = λ n. refl;
  each = λ js. refl;
}

abbrev client_of : (v : SerdeValue) → TierDbClient (answering v)
client_of v = record { conn = some tt }

abbrev world_of : (v : SerdeValue) → World (answering v)
world_of v = record {
  outside = record {
    client = record { log = []; refuses = false };
    dsn = text "host=db";
    in_txn = false;
  };
  heap = record { live = []; next = 0 };
  history = [];
}

abbrev outcome : ChunkOutcome
outcome = record { count = pos 3; attach_sql = none; lake_sql = text "DELETE" ∷ text "INSERT" ∷ [] }

chunk_delivered_example :
    (Client.insert_chunk
      (client_of (to_json outcome))
      (text "public")
      (text "orders")
      (text "[]")
      (world_of (to_json outcome))).0
    ≡ ok (record { count = pos 3; attach_sql = []; lake_sql = text "DELETE" ∷ text "INSERT" ∷ [] })
unfolding tierdb_duckdb.Ffi.Entry.on_conn c_str tierdb_duckdb.Client.Decode.or_empty
chunk_delivered_example =
    chunk_delivered (answering-Accessors (to_json outcome)) (client_of (to_json outcome)) (text "a")
      (world_of (to_json outcome)) inserts (text "public") (text "orders") (text "[]") outcome
      (omega arith) refl refl

abbrev scan : PinnedScan
scan = record { pin_id = some (pos 7); scan_sql = text "SELECT 1"; attach_sql = none }

scan_delivered_example :
    (Client.acquire_read_scan
      (client_of (pinned_scan_json scan))
      (text "public")
      (text "orders")
      (world_of (pinned_scan_json scan))).0
    ≡ ok (record { has_pin = true; pin_id = pos 7; scan_sql = text "SELECT 1"; attach_sql = [] })
unfolding tierdb_duckdb.Ffi.Entry.on_conn c_str tierdb_duckdb.Client.Decode.or_empty
scan_delivered_example =
    scan_delivered (answering-Accessors (pinned_scan_json scan)) (client_of (pinned_scan_json scan))
      (text "a") (world_of (pinned_scan_json scan)) (text "public") (text "orders") scan
      (omega arith) refl refl

abbrev schema : TableSchema
schema = record {
  table_id = pos 4;
  schema_name = text "public";
  table_name = text "orders";
  lake_format = text "iceberg";
  lake_table_ref = text "lake.orders";
  tier_key_col = text "ts";
  tier_key_type = text "timestamp";
  primary_key_cols = text "id" ∷ [];
  columns = (text "id", text "int8") ∷ (text "ts", text "timestamp") ∷ [];
  mode = text "tiered";
  keep_heap = false;
  heap_retention_lag = none;
  lake_retention_lag = some (pos 30);
  storage_profile = text "default";
}

abbrev upper : Text → Text
upper pg_type = text "BIGINT"

schema_delivered_example :
    (Client.try_get_table_schema
      (client_of (table_schema_json upper schema))
      (text "public")
      (text "orders")
      (world_of (table_schema_json upper schema))).0
    ≡ ok (some (delivered_schema upper schema))
unfolding tierdb_duckdb.Ffi.Entry.on_conn
schema_delivered_example =
    schema_delivered (answering-Accessors (table_schema_json upper schema))
      (client_of (table_schema_json upper schema)) (text "a")
      (world_of (table_schema_json upper schema)) upper (text "public") (text "orders") schema
      (omega arith) refl refl
