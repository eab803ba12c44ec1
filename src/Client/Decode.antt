-- ===== src/Client/Decode.antt =====
-- How src/storage/tierdb_client.cpp reads the JSON answers: the statements between `yyjson_doc_get_root` and
-- `yyjson_doc_free` of each method.
use tierdb_duckdb.Prelude.{
  ℤ, pos, Text, text, Bool, not, false, true, Option, none, some, List, [], ◌∷◌, map,
}
use tierdb_duckdb.Platform.{Yyjson, Json}
use tierdb_duckdb.Client.Data.{
  TierDbColumn, TierDbTableSchema, TierDbTableRef, TierDbPinnedScan, TierDbDmlResult,
}

unfoldable pub or_empty : Option Text → Text
or_empty none = []
or_empty (some s) = s

unfoldable pub keep : Option Text → List Text → List Text
keep none rest = rest
keep (some s) rest = s ∷ rest

module _ (y : Yyjson) where
  unfoldable pub str_of : Option Json → Text
  unfolding or_empty
  str_of none = []
  str_of (some val) = or_empty (y.get_str val)

  -- `ObjStr`
  unfoldable pub obj_str : Json → Text → Text
  unfolding str_of
  obj_str val key = str_of (y.obj_get val key)

  -- `val ? yyjson_get_sint(val) : 0`
  unfoldable pub sint_of : Option Json → ℤ
  sint_of none = pos 0
  sint_of (some val) = y.get_sint val

  unfoldable pub obj_sint : Json → Text → ℤ
  unfolding sint_of
  obj_sint val key = sint_of (y.obj_get val key)

  -- The loop that pushes each element that is a string.
  unfoldable pub strings : List Json → List Text
  unfolding keep
  strings [] = []
  strings (v ∷ vs) = keep (y.get_str v) (strings vs)

  unfoldable pub strings_of : Option Json → List Text
  unfolding strings
  strings_of none = []
  strings_of (some val) = strings (y.elements val)

  unfoldable pub obj_strings : Json → Text → List Text
  unfolding strings_of
  obj_strings val key = strings_of (y.obj_get val key)

  unfoldable pub table_ref : Json → TierDbTableRef
  unfolding obj_str
  table_ref entry = record {
    schema_name = obj_str entry (text "schema_name");
    table_name = obj_str entry (text "table_name");
  }

  unfoldable pub table_refs : Option Json → List TierDbTableRef
  unfolding table_ref
  table_refs none = []
  table_refs (some root) = map table_ref (y.elements root)

  unfoldable pub column : Json → TierDbColumn
  unfolding obj_str
  column v = record {
    name = obj_str v (text "name");
    pg_type = obj_str v (text "pg_type");
    duckdb_type = obj_str v (text "duckdb_type");
  }

  unfoldable pub columns_of : Option Json → List TierDbColumn
  unfolding column
  columns_of none = []
  columns_of (some cols) = map column (y.elements cols)

  unfoldable pub decode_table_schema : Json → TierDbTableSchema
  unfolding obj_str obj_sint obj_strings columns_of
  decode_table_schema root = record {
    table_id = obj_sint root (text "table_id");
    schema_name = obj_str root (text "schema_name");
    table_name = obj_str root (text "table_name");
    lake_format = obj_str root (text "lake_format");
    lake_table_ref = obj_str root (text "lake_table_ref");
    tier_key_col = obj_str root (text "tier_key_col");
    tier_key_type = obj_str root (text "tier_key_type");
    primary_key_cols = obj_strings root (text "primary_key_cols");
    columns = columns_of (y.obj_get root (text "columns"));
  }

  -- `pin_val && !yyjson_is_null(pin_val)`
  unfoldable pub pin_present : Option Json → Bool
  pin_present none = false
  pin_present (some v) = not (y.is_null v)

  unfoldable pub pin_value : Option Json → ℤ
  unfolding pin_present sint_of
  pin_value pin = elim (pin_present pin) [ true ↦ sint_of pin | false ↦ pos 0 ]

  unfoldable pub decode_pinned_scan : Json → TierDbPinnedScan
  unfolding obj_str pin_value
  decode_pinned_scan root =
      let pin_val = y.obj_get root (text "pin_id") in
      record {
        has_pin = pin_present pin_val;
        pin_id = pin_value pin_val;
        scan_sql = obj_str root (text "scan_sql");
        attach_sql = obj_str root (text "attach_sql");
      }

  unfoldable pub decode_dml_result : Json → TierDbDmlResult
  unfolding obj_str obj_sint obj_strings
  decode_dml_result root = record {
    count = obj_sint root (text "count");
    attach_sql = obj_str root (text "attach_sql");
    lake_sql = obj_strings root (text "lake_sql");
  }
