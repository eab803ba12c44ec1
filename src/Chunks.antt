-- ===== src/Chunks.antt =====
-- The rows of a chunk on the Rust side: tierdb-core-ffi/src/write.rs, over the crates `postgres`, serde_json and
-- tierdb-core.
pub mod Row
pub mod Lake
pub mod Write
pub mod Delete
pub mod Entry
pub mod Steps
pub mod Planned
pub mod Removed
pub mod Does
pub mod Order
pub mod Counted
pub mod Answers
pub mod Split
use tierdb_duckdb.Prelude.{ℤ, Text, Bool, Option, List}
use tierdb_duckdb.Platform.{Reply}
use tierdb_duckdb.Wire.{TableSchema}

-- What `row.get(field)` finds, as far as `field_text` tells the values apart; a number by its text.
pub data Scalar : Type 0 where
  null : Scalar
  boolean : Bool → Scalar
  number : Text → Scalar
  string : Text → Scalar
  other : Text → Scalar

-- A parameter of a prepared statement.
pub data Param (Value : Type 0) : Type 0 where
  int_param : ℤ → Param Value
  text_param : Text → Param Value
  json_param : Value → Param Value

-- `ColdSink` of tierdb-core, and the plans that its `Mode` makes for a row.
pub data ColdSink : Type 0 where
  delta lake : ColdSink

pub record InsertPlan : Type 0 where
  pub cold : Option ColdSink
  pub check_retention : Bool
  pub to_heap : Bool

pub record DeletePlan : Type 0 where
  pub cold : Option ColdSink
  pub check_retention : Bool
  pub from_heap : Bool
  pub heap_floor : Bool

-- `Cold::Live` of tierdb-core.
pub record Cold : Type 0 where
  pub catalog : Text
  pub table_ref : Text

-- `tierdb_core::table::Table`, with the fields that this code reads.
pub record Table (LakeCatalog : Type 0) : Type 0 where
  pub schema : Text
  pub name : Text
  pub columns : List (Text × Text)
  pub pk_cols : List Text
  pub lake_table_ref : Option Text
  pub catalog : Option LakeCatalog

-- `Cutline` of tierdb-core-ffi/src/catalog.rs, as far as a write reads it.
pub record Cutline : Type 0 where
  pub tier_key_hi : ℤ
  pub lake_snapshot_id : ℤ

-- The crates, and the lookups of tierdb-core-ffi/src/catalog.rs.
pub record Crates : Type 1 where
  -- serde_json and `postgres`
  pub Value : Type 0
  pub Client : Type 0
  pub execute : Text → List (Param Value) → Client → Reply (Unit {0}) × Client
  pub null_value : Value
  pub empty_object : Value
  pub is_object : Value → Bool
  pub insert : Text → Value → Value → Value
  pub get : Value → Text → Option Value
  pub scalar : Value → Scalar
  pub from_str : Text → Reply Value
  pub rows_from_str : Text → Reply (List Value)
  -- tierdb-core
  pub Mode : Type 0
  pub RouteTarget : Type 0
  pub LakeCatalog : Type 0
  pub mode_from_catalog : Text → Bool → Option ℤ → Reply Mode
  pub is_direct : Mode → Bool
  pub plan_insert : Mode → RouteTarget → InsertPlan
  pub plan_delete : Mode → RouteTarget → DeletePlan
  pub hot : RouteTarget
  pub route : ℤ → Cutline → RouteTarget
  pub retention_rejects : ℤ → Option ℤ → Bool
  pub encode_text : Text → Text → Reply ℤ
  pub pg_literal : Text → ℤ → Text
  pub encode_pk : List Text → Text
  pub lake_row_tuple : Value → List (Text × Text) → List Text
  pub delta_write_sql : Text
  pub delta_op_upsert : ℤ
  pub delta_op_tombstone : ℤ
  pub heap_insert_from_jsonb_sql : Text → Text → Text
  pub heap_delete_by_pk_sql : Text → Text → List Text → Option Text → Text
  pub lake_commit_lock_sql : Text
  pub attach_sql : LakeCatalog → Text
  pub alias : LakeCatalog → Text
  pub lake_upsert : Text → Table LakeCatalog → Cold → List (List Text) → Reply (List Text)
  pub lake_delete : Text → Table LakeCatalog → Cold → List (List Text) → Option ℤ → Reply Text
  -- `str::trim`
  pub trim : Text → Text
  -- `Conn::table_schema`, `cutline`, `retention_line` and `lake_catalog`
  pub table_schema : Text → Text → Client → Reply TableSchema × Client
  pub cutline : ℤ → Client → Reply (Option Cutline) × Client
  pub retention_line : ℤ → Client → Reply (Option ℤ) × Client
  pub lake_catalog : TableSchema → Client → Reply (Option LakeCatalog) × Client
