-- ===== src/Client.antt =====
-- `TierDBClient` of src/storage/tierdb_client.cpp: each method makes one call of the C ABI, turns an error
-- string into an exception, reads the JSON answer and frees what Rust allocated.
-- The mutex `conn_lock` is taken and left around the one call.
pub mod Data
pub mod Decode
pub mod Served
use tierdb_duckdb.Prelude.{
  ℕ, ℤ, Text, text, Bool, true, false, Option, none, some, List, [], ◌++◌, if◌then◌else◌,
}
use tierdb_duckdb.Outcome.{
  Exec, Outcome, ok, throw, io_exception, pure, raise, continue, ◌>>=◌, ◌>>◌,
}
use tierdb_duckdb.Platform.{Platform, Json, StringUtil}
use tierdb_duckdb.Ffi.{
  World, TierDbStringResult, TierDbStatus, c_str, string_at, tierdb_free_string,
}
use tierdb_duckdb.Ffi.Entry.{
  tierdb_connect, tierdb_conn_free, tierdb_list_tables, tierdb_table_schema,
  tierdb_acquire_read_scan, tierdb_release_read_pin, tierdb_txn_begin, tierdb_txn_commit,
  tierdb_txn_rollback, tierdb_insert_chunk, tierdb_delete_chunk, tierdb_update_chunk,
}
use tierdb_duckdb.Client.Data.{TierDbTableSchema, TierDbTableRef, TierDbPinnedScan, TierDbDmlResult}
use tierdb_duckdb.Client.Decode.{
  table_refs, decode_table_schema, decode_pinned_scan, decode_dml_result,
}

-- A null `conn` is what the destructor leaves.
pub record TierDbClient (x : Platform) : Type 0 where
  pub conn : Option x.Conn

-- `IOException("tierdb: %s", message)`
abbrev pub tierdb_error : Text → Text
tierdb_error message = text "tierdb: " ++ message

-- `could not parse … for "schema"."table"`
abbrev pub parse_error : Text → Text → Text → Text
parse_error what s t =
    text "tierdb: could not parse " ++ what ++ text " for \"" ++ s ++ text "\".\"" ++ t ++ text "\""

not_registered : StringUtil → Text → Bool
not_registered u message = u.contains message (text "not registered")

module _ {x : Platform} where
  -- `string message = err; tierdb_free_string(err);`
  unfoldable pub take_error : Option ℕ → Exec (World x) Text
  take_error err = do message ← string_at err; tierdb_free_string err; pure message

  -- `if (res.err) { … throw IOException("tierdb: %s", message); }`
  unfoldable pub check : Option ℕ → Exec (World x) (Unit {0})
  unfolding take_error
  check none w = pure tt w
  check (some p) w = (do message ← take_error (some p); raise io_exception (tierdb_error message)) w

  -- `yyjson_read(res.value, strlen(res.value), 0)`
  unfoldable pub read_value : Option ℕ → Exec (World x) (Option Json)
  read_value value = do s ← string_at value; pure (x.yyjson.read s)

  -- A document that could not be read is an error; the string is freed in both cases.
  unfoldable pub decoded :
      {A : Type 0} → Option ℕ → Text → (Json → A) → Option Json → Exec (World x) A
  decoded value message decode none = do tierdb_free_string value; raise io_exception message
  decoded value message decode (some root) = do tierdb_free_string value; pure (decode root)

  unfoldable pub connect_client : Text → Exec (World x) (TierDbClient x)
  unfolding check
  connect_client dsn = do
    res ← tierdb_connect (c_str dsn)
    check res.0
    pure (record { conn = res.1 })

  -- `~TierDBClient`
  unfoldable pub free_client : TierDbClient x → Exec (World x) (TierDbClient x)
  free_client c = do tierdb_conn_free c.conn; pure (record { conn = none })

  unfoldable pub list_tables : TierDbClient x → Exec (World x) (List TierDbTableRef)
  unfolding check read_value
  list_tables c = do
    res ← tierdb_list_tables c.conn
    check res.err
    doc ← read_value res.value
    tierdb_free_string res.value
    pure (table_refs x.yyjson doc)

  -- The error branch: `none` is the result `false`, which leaves the out parameter as it was.
  missing_or_error : Text → Exec (World x) (Option TierDbTableSchema)
  unfolding not_registered
  missing_or_error message =
      if not_registered x.string_util message
      then pure none
      else raise io_exception (tierdb_error message)

  schema_reply :
      Text → Text → TierDbStringResult → Option ℕ → Exec (World x) (Option TierDbTableSchema)
  unfolding take_error missing_or_error read_value decoded
  schema_reply s t res (some p) w = (do message ← take_error (some p); missing_or_error message) w
  schema_reply s t res none w =
      (do
        doc ← read_value res.value
        result ←
            decoded res.value (parse_error (text "table schema") s t) (decode_table_schema x.yyjson)
              doc
        pure (some result))
        w

  unfoldable pub try_get_table_schema :
      TierDbClient x → Text → Text → Exec (World x) (Option TierDbTableSchema)
  unfolding schema_reply
  try_get_table_schema c s t = do
    res ← tierdb_table_schema c.conn (c_str s) (c_str t)
    schema_reply s t res res.err

  unfoldable pub acquire_read_scan : TierDbClient x → Text → Text → Exec (World x) TierDbPinnedScan
  unfolding check read_value decoded
  acquire_read_scan c s t = do
    res ← tierdb_acquire_read_scan c.conn (c_str s) (c_str t)
    check res.err
    doc ← read_value res.value
    decoded res.value (parse_error (text "pinned scan") s t) (decode_pinned_scan x.yyjson) doc

  unfoldable pub release_read_pin : TierDbClient x → ℤ → Exec (World x) (Unit {0})
  unfolding check
  release_read_pin c pin_id = do res ← tierdb_release_read_pin c.conn pin_id; check res.err

  unfoldable pub txn_begin : TierDbClient x → Exec (World x) (Unit {0})
  unfolding check
  txn_begin c = do res ← tierdb_txn_begin c.conn; check res.err

  unfoldable pub txn_commit : TierDbClient x → Exec (World x) (Unit {0})
  unfolding check
  txn_commit c = do res ← tierdb_txn_commit c.conn; check res.err

  unfoldable pub txn_rollback : TierDbClient x → Exec (World x) (Unit {0})
  unfolding check
  txn_rollback c = do res ← tierdb_txn_rollback c.conn; check res.err

  parse_dml_result : TierDbStringResult → Exec (World x) TierDbDmlResult
  unfolding check read_value decoded
  parse_dml_result res = do
    check res.err
    doc ← read_value res.value
    decoded res.value (text "tierdb: could not parse DML result") (decode_dml_result x.yyjson) doc

  unfoldable pub insert_chunk : TierDbClient x → Text → Text → Text → Exec (World x) TierDbDmlResult
  unfolding parse_dml_result
  insert_chunk c s t rows_json = do
    res ← tierdb_insert_chunk c.conn (c_str s) (c_str t) (c_str rows_json)
    parse_dml_result res

  unfoldable pub delete_chunk : TierDbClient x → Text → Text → Text → Exec (World x) TierDbDmlResult
  unfolding parse_dml_result
  delete_chunk c s t rows_json = do
    res ← tierdb_delete_chunk c.conn (c_str s) (c_str t) (c_str rows_json)
    parse_dml_result res

  unfoldable pub update_chunk : TierDbClient x → Text → Text → Text → Exec (World x) TierDbDmlResult
  unfolding parse_dml_result
  update_chunk c s t rows_json = do
    res ← tierdb_update_chunk c.conn (c_str s) (c_str t) (c_str rows_json)
    parse_dml_result res
