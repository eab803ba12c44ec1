-- ===== src/Client/Data.antt =====
-- The structs of src/include/tierdb/client.hpp.
use tierdb_duckdb.Prelude.{ℤ, Text, Bool, List}

pub record TierDbColumn : Type 0 where
  pub name : Text
  pub pg_type : Text
  pub duckdb_type : Text

pub record TierDbTableSchema : Type 0 where
  pub table_id : ℤ
  pub schema_name : Text
  pub table_name : Text
  pub lake_format : Text
  pub lake_table_ref : Text
  pub tier_key_col : Text
  pub tier_key_type : Text
  pub primary_key_cols : List Text
  pub columns : List TierDbColumn

pub record TierDbTableRef : Type 0 where
  pub schema_name : Text
  pub table_name : Text

pub record TierDbPinnedScan : Type 0 where
  pub has_pin : Bool
  pub pin_id : ℤ
  pub scan_sql : Text
  pub attach_sql : Text

pub record TierDbDmlResult : Type 0 where
  pub count : ℤ
  pub attach_sql : Text
  pub lake_sql : List Text
