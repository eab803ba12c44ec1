-- ===== src/Platform.antt =====
-- What the extension calls and does not implement, as one record that the other modules take
-- as a parameter: the tierdb C ABI (src/include/tierdb/ffi.hpp) with the database behind it, DuckDB's
-- connections, yyjson and DuckDB's string utilities.
use tierdb_duckdb.Prelude.{
  ℕ, ℤ, Text, text_eq, Bool, Option, none, some, List, [], ◌∷◌, if◌then◌else◌,
}

-- A JSON document, as yyjson holds it. The sign and the width of an integer are kept as yyjson keeps
-- them; a real stands for the value that DuckDB hands over.
mutual
  pub data Json : Type 0 where
    null : Json
    bool : Bool → Json
    sint : ℤ → Json
    uint : ℕ → Json
    real : ℕ → Json
    str : Text → Json
    arr : Items → Json
    obj : Fields → Json

  pub data Items : Type 0 where
    nil : Items
    item : Json → Items → Items

  pub data Fields : Type 0 where
    end : Fields
    field : Text → Json → Fields → Fields

-- The first member of a name, and the elements in order.
unfoldable pub find_field : Text → Fields → Option Json
find_field key end = none
find_field key (field k j fs) = if text_eq k key then some j else find_field key fs

unfoldable pub items : Items → List Json
items nil = []
items (item j js) = j ∷ items js

-- `yyjson_read`, `yyjson_mut_write` and the accessors. `elements` is what `yyjson_arr_foreach` visits.
pub record Yyjson : Type 0 where
  pub read : Text → Option Json
  pub write : Json → Option Text
  pub obj_get : Json → Text → Option Json
  pub get_str : Json → Option Text
  pub get_sint : Json → ℤ
  pub is_null : Json → Bool
  pub elements : Json → List Json

-- DuckDB's `StringUtil`.
pub record StringUtil : Type 0 where
  pub upper : Text → Text
  pub lower : Text → Text
  pub starts_with : Text → Text → Bool
  pub ends_with : Text → Text → Bool
  pub contains : Text → Text → Bool
  pub ci_equals : Text → Text → Bool

-- What a foreign call answers.
pub data Reply {ℓ} (A : Type ℓ) : Type ℓ where
  done : A → Reply A
  failed : Text → Reply A

pub record Platform : Type 1 where
  -- Everything outside of the extension's own objects: Postgres, the lake, DuckDB.
  pub State : Type 0
  -- The Rust connection behind a `TierDBConn *`.
  pub Conn : Type 0
  pub connect : Text → State → Reply Conn × State
  pub conn_free : Conn → State → State
  pub list_tables : Conn → State → Reply Text × State
  pub table_schema : Conn → Text → Text → State → Reply Text × State
  pub acquire_read_scan : Conn → Text → Text → State → Reply Text × State
  pub release_read_pin : Conn → ℤ → State → Reply (Unit {0}) × State
  pub txn_begin : Conn → State → Reply (Unit {0}) × State
  pub txn_commit : Conn → State → Reply (Unit {0}) × State
  pub txn_rollback : Conn → State → Reply (Unit {0}) × State
  pub insert_chunk : Conn → Text → Text → Text → State → Reply Text × State
  pub delete_chunk : Conn → Text → Text → Text → State → Reply Text × State
  pub update_chunk : Conn → Text → Text → Text → State → Reply Text × State
  -- `Connection con(*context.db)` and `con.Query(sql)`; a reply `failed e` is a result with `HasError()`.
  pub Connection : Type 0
  pub QueryResult : Type 0
  pub open_connection : State → Connection × State
  pub query : Connection → Text → State → Reply QueryResult × State
  pub yyjson : Yyjson
  pub string_util : StringUtil
  -- `VIRTUAL_COLUMN_START` and `COLUMN_IDENTIFIER_ROW_ID` of DuckDB.
  pub virtual_column_start : ℕ
  pub column_identifier_row_id : ℕ
