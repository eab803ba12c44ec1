-- ===== src/Wire/Decoded.antt =====
-- The documents of tierdb-core-ffi/src/lib.rs and tierdb-core-ffi/src/write.rs, read by src/storage/tierdb_client.cpp, each
-- text up to its first NUL byte.
use tierdb_duckdb.Prelude.{Text, text, text_eq, ◌≡◌, refl, ap₂, some, List, [], ◌∷◌, map}
use tierdb_duckdb.Platform.{Yyjson, Json, Fields, find_field, items}
use tierdb_duckdb.Ffi.{c_str}
use tierdb_duckdb.Client.Data.{
  TierDbColumn, TierDbTableSchema, TierDbTableRef, TierDbPinnedScan, TierDbDmlResult,
}
use tierdb_duckdb.Client.Decode.{
  or_empty, table_ref, column, columns_of, decode_table_schema, decode_pinned_scan,
  decode_dml_result,
}
use tierdb_duckdb.Wire.{
  ChunkOutcome, to_json, PinnedScan, pinned_scan_json, TableSchema, column_values,
  table_schema_json, table_values, as_read, items_read, fields_read,
}
use tierdb_duckdb.Wire.Laws.{IsI64, AllI64, Accessors}
use tierdb_duckdb.Wire.Members.{
  has_number, number_or_zero, obj_str-string, obj_str-optional, obj_sint-number, obj_strings-array,
  pin_present-optional, pin_value-optional,
}

-- What arrives of a chunk's outcome.
abbrev pub delivered_result : ChunkOutcome → TierDbDmlResult
delivered_result o = record {
  count = o.count;
  attach_sql = c_str (or_empty o.attach_sql);
  lake_sql = map c_str o.lake_sql;
}

abbrev pub delivered_scan : PinnedScan → TierDbPinnedScan
delivered_scan p = record {
  has_pin = has_number p.pin_id;
  pin_id = number_or_zero p.pin_id;
  scan_sql = c_str p.scan_sql;
  attach_sql = c_str (or_empty p.attach_sql);
}

abbrev pub delivered_column : (Text → Text) → Text × Text → TierDbColumn
delivered_column duckdb_type (name, pg_type) = record {
  name = c_str name;
  pg_type = c_str pg_type;
  duckdb_type = c_str (duckdb_type pg_type);
}

abbrev pub delivered_schema : (Text → Text) → TableSchema → TierDbTableSchema
delivered_schema duckdb_type s = record {
  table_id = s.table_id;
  schema_name = c_str s.schema_name;
  table_name = c_str s.table_name;
  lake_format = c_str s.lake_format;
  lake_table_ref = c_str s.lake_table_ref;
  tier_key_col = c_str s.tier_key_col;
  tier_key_type = c_str s.tier_key_type;
  primary_key_cols = map c_str s.primary_key_cols;
  columns = map (delivered_column duckdb_type) s.columns;
}

abbrev pub delivered_table : Text × Text → TierDbTableRef
delivered_table (schema, table) = record { schema_name = c_str schema; table_name = c_str table }

module _ {y : Yyjson} (laws : Accessors y) where
  pub decode_dml_result-to_json :
      (o : ChunkOutcome)
      → IsI64 o.count
      → decode_dml_result y (as_read (to_json o)) ≡ delivered_result o
  unfolding decode_dml_result to_json as_read fields_read find_field text_eq
  decode_dml_result-to_json o l = rw (
    obj_sint-number laws _ (text "count") o.count l refl,
    obj_str-optional laws _ (text "attach_sql") o.attach_sql refl,
    obj_strings-array laws _ (text "lake_sql") o.lake_sql refl,
  )

  pub decode_pinned_scan-pinned_scan_json :
      (p : PinnedScan)
      → AllI64 p.pin_id
      → decode_pinned_scan y (as_read (pinned_scan_json p)) ≡ delivered_scan p
  unfolding decode_pinned_scan pinned_scan_json as_read fields_read find_field text_eq
  decode_pinned_scan-pinned_scan_json p l = rw (
    pin_present-optional laws _ (text "pin_id") p.pin_id refl,
    pin_value-optional laws _ (text "pin_id") p.pin_id l refl,
    obj_str-string laws _ (text "scan_sql") p.scan_sql refl,
    obj_str-optional laws _ (text "attach_sql") p.attach_sql refl,
  )

  columns-column_values :
      (duckdb_type : Text → Text) (columns : List (Text × Text))
      → map (column y) (items (items_read (column_values duckdb_type columns)))
        ≡ map (delivered_column duckdb_type) columns
  unfolding column column_values as_read items_read fields_read items find_field text_eq
  columns-column_values f [] = refl
  columns-column_values f ((name, pg_type) ∷ columns) =
      ap₂ (λ c l. c ∷ l)
        (rw (
          obj_str-string laws _ (text "name") name refl,
          obj_str-string laws _ (text "pg_type") pg_type refl,
          obj_str-string laws _ (text "duckdb_type") (f pg_type) refl,
        ))
        (columns-column_values f columns)

  pub table_refs-tables_json :
      (tables : List (Text × Text))
      → map (table_ref y) (items (items_read (table_values tables))) ≡ map delivered_table tables
  unfolding table_ref table_values as_read items_read fields_read items find_field text_eq
  table_refs-tables_json [] = refl
  table_refs-tables_json ((schema, table) ∷ tables) =
      ap₂ (λ c l. c ∷ l)
        (rw (
          obj_str-string laws _ (text "schema_name") schema refl,
          obj_str-string laws _ (text "table_name") table refl,
        ))
        (table_refs-tables_json tables)

  columns_of-column_values :
      (duckdb_type : Text → Text) (fs : Fields) (key : Text) (columns : List (Text × Text))
      → find_field key fs ≡ some (Json.arr (items_read (column_values duckdb_type columns)))
      → columns_of y (y.obj_get (Json.obj fs) key) ≡ map (delivered_column duckdb_type) columns
  unfolding columns_of
  columns_of-column_values f fs key columns e =
      rw (laws.get fs key, e, laws.each (items_read (column_values f columns)))
        (columns-column_values f columns)

  pub decode_table_schema-table_schema_json :
      (duckdb_type : Text → Text) (s : TableSchema)
      → IsI64 s.table_id
      → decode_table_schema y (as_read (table_schema_json duckdb_type s))
        ≡ delivered_schema duckdb_type s
  unfolding decode_table_schema table_schema_json as_read fields_read find_field text_eq
  decode_table_schema-table_schema_json f s l = rw (
    obj_sint-number laws _ (text "table_id") s.table_id l refl,
    obj_str-string laws _ (text "schema_name") s.schema_name refl,
    obj_str-string laws _ (text "table_name") s.table_name refl,
    obj_str-string laws _ (text "lake_format") s.lake_format refl,
    obj_str-string laws _ (text "lake_table_ref") s.lake_table_ref refl,
    obj_str-string laws _ (text "tier_key_col") s.tier_key_col refl,
    obj_str-string laws _ (text "tier_key_type") s.tier_key_type refl,
    obj_strings-array laws _ (text "primary_key_cols") s.primary_key_cols refl,
    columns_of-column_values f _ (text "columns") s.columns refl,
  )
