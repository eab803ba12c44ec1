-- ===== src/Wire.antt =====
-- The documents that cross the C ABI, as tierdb-core-ffi/src/lib.rs and tierdb-core-ffi/src/write.rs build them with
-- `serde_json::json!`, and the two libraries that carry them: serde_json, which writes, and yyjson, which reads.
pub mod Laws
pub mod Members
pub mod Decoded
pub mod Delivered
use tierdb_duckdb.Prelude.{ℕ, ℤ, pos, negsuc, Text, text, Bool, Option, none, some, List, [], ◌∷◌}
use tierdb_duckdb.Platform.{Json, Items, Fields, nil, item, end, field}

-- `serde_json::Value`, without the kinds that these documents have not. The crate is built without `preserve_order`, so an
-- object has its entries in the order of their keys, and is printed in it.
mutual
  pub data SerdeValue : Type 0 where
    null : SerdeValue
    number : ℤ → SerdeValue
    string : Text → SerdeValue
    array : SerdeValues → SerdeValue
    object : SerdeEntries → SerdeValue

  pub data SerdeValues : Type 0 where
    no_values : SerdeValues
    and_value : SerdeValue → SerdeValues → SerdeValues

  pub data SerdeEntries : Type 0 where
    no_entries : SerdeEntries
    entry : Text → SerdeValue → SerdeEntries → SerdeEntries

-- `json!` of an `Option`, a `Vec<String>`.
unfoldable pub optional : {A : Type 0} → (A → SerdeValue) → Option A → SerdeValue
optional f none = null
optional f (some a) = f a

unfoldable pub string_values : List Text → SerdeValues
string_values [] = no_values
string_values (s ∷ ss) = and_value (string s) (string_values ss)

-- `ChunkOutcome` of write.rs.
pub record ChunkOutcome : Type 0 where
  pub count : ℤ
  pub attach_sql : Option Text
  pub lake_sql : List Text

-- `ChunkOutcome::to_json`
unfoldable pub to_json : ChunkOutcome → SerdeValue
unfolding optional string_values
to_json o = object (
    entry (text "attach_sql") (optional string o.attach_sql) (
      entry (text "count") (number o.count)
        (entry (text "lake_sql") (array (string_values o.lake_sql)) no_entries)))

-- `PinnedScan` of scan.rs.
pub record PinnedScan : Type 0 where
  pub pin_id : Option ℤ
  pub scan_sql : Text
  pub attach_sql : Option Text

-- The document of `tierdb_acquire_read_scan`.
unfoldable pub pinned_scan_json : PinnedScan → SerdeValue
unfolding optional
pinned_scan_json p = object (
    entry (text "attach_sql") (optional string p.attach_sql) (
      entry (text "pin_id") (optional number p.pin_id)
        (entry (text "scan_sql") (string p.scan_sql) no_entries)))

-- `TableSchema` of catalog.rs; `tier_key_type` by its name.
pub record TableSchema : Type 0 where
  pub table_id : ℤ
  pub schema_name : Text
  pub table_name : Text
  pub lake_format : Text
  pub lake_table_ref : Text
  pub tier_key_col : Text
  pub tier_key_type : Text
  pub primary_key_cols : List Text
  pub columns : List (Text × Text)
  pub mode : Text
  pub keep_heap : Bool
  pub heap_retention_lag : Option ℤ
  pub lake_retention_lag : Option ℤ
  pub storage_profile : Text

module _ (duckdb_type : Text → Text) where
  -- The closure of `table_schema_json`; `duckdb_type` is of the tierdb core.
  unfoldable pub column_values : List (Text × Text) → SerdeValues
  column_values [] = no_values
  column_values ((name, pg_type) ∷ columns) =
      and_value
        (object (
          entry (text "duckdb_type") (string (duckdb_type pg_type)) (
            entry (text "name") (string name)
              (entry (text "pg_type") (string pg_type) no_entries))))
        (column_values columns)

  unfoldable pub table_schema_json : TableSchema → SerdeValue
  unfolding optional string_values column_values
  table_schema_json s = object (
      entry (text "columns") (array (column_values s.columns)) (
        entry (text "heap_retention_lag") (optional number s.heap_retention_lag) (
          entry (text "lake_format") (string s.lake_format) (
            entry (text "lake_retention_lag") (optional number s.lake_retention_lag) (
              entry (text "lake_table_ref") (string s.lake_table_ref) (
                entry (text "mode") (string s.mode) (
                  entry (text "primary_key_cols") (array (string_values s.primary_key_cols)) (
                    entry (text "schema_name") (string s.schema_name) (
                      entry (text "table_id") (number s.table_id) (
                        entry (text "table_name") (string s.table_name) (
                          entry (text "tier_key_col") (string s.tier_key_col) (
                            entry (text "tier_key_type") (string s.tier_key_type)
                              (no_entries)))))))))))))

-- The document of `tierdb_list_tables`.
unfoldable pub table_values : List (Text × Text) → SerdeValues
table_values [] = no_values
table_values ((schema, table) ∷ tables) =
    and_value
      (object (
        entry (text "schema_name") (string schema)
          (entry (text "table_name") (string table) no_entries)))
      (table_values tables)

unfoldable pub tables_json : List (Text × Text) → SerdeValue
unfolding table_values
tables_json tables = array (table_values tables)

-- The document that yyjson reads from the text of a value: digits without a sign are a `uint`.
unfoldable mutual
  pub as_read : SerdeValue → Json
  as_read null = Json.null
  as_read (number (pos n)) = Json.uint n
  as_read (number (negsuc n)) = Json.sint (negsuc n)
  as_read (string s) = Json.str s
  as_read (array vs) = Json.arr (items_read vs)
  as_read (object es) = Json.obj (fields_read es)

  pub items_read : SerdeValues → Items
  items_read no_values = nil
  items_read (and_value v vs) = item (as_read v) (items_read vs)

  pub fields_read : SerdeEntries → Fields
  fields_read no_entries = end
  fields_read (entry k v es) = field k (as_read v) (fields_read es)
