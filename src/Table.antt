-- ===== src/Table.antt =====
-- src/storage/tierdb_table.cpp: the routing key of a table as virtual columns, and the SQL of a scan.
pub mod Quote
pub mod Project
pub mod Routing
pub mod Scan
pub mod Fetch
pub mod RowIds
pub mod Virtual
use tierdb_duckdb.Prelude.{
  ℕ, suc, ◌+◌, ◌%◌, ◌^◌, Text, text, text_eq, is_empty, Bool, true, false, Option, none, some, List,
  [], ◌∷◌, ◌++◌, map, length, get_elem?, ltb, ◌==◌, if◌then◌else◌,
}
use tierdb_duckdb.Outcome.{Outcome, ok, throw, fault}
use tierdb_duckdb.Platform.{Platform, StringUtil}
use tierdb_duckdb.Std.{size_max}
use tierdb_duckdb.Client.Data.{TierDbColumn, TierDbTableSchema, TierDbPinnedScan}
use tierdb_duckdb.Types.{LogicalType, varchar, logical_type_from_string}

abbrev pub quote : ℕ
quote = b'"'

-- The loop of `QuoteIdent`.
unfoldable pub quote_body : Text → Text
quote_body [] = []
quote_body (c ∷ s) = if c == quote then quote ∷ c ∷ quote_body s else c ∷ quote_body s

-- `QuoteIdent`
unfoldable pub quote_ident : Text → Text
unfolding quote_body
quote_ident name = quote ∷ quote_body name ++ quote ∷ []

pub record TierDbScanBindData : Type 0 where
  pub sql : Text
  pub attach_sql : Text
  pub column_names : List Text
  -- An `unordered_map`.
  pub virtual_to_name : List (ℕ × Text)

unfoldable pub find_name : ℕ → List (ℕ × Text) → Option Text
find_name id [] = none
find_name id ((j, name) ∷ m) = if j == id then some name else find_name id m

-- `map[id] = name`
unfoldable pub set_name : ℕ → Text → List (ℕ × Text) → List (ℕ × Text)
set_name id name [] = (id, name) ∷ []
set_name id name ((j, old) ∷ m) = if j == id then (id, name) ∷ m else (j, old) ∷ set_name id name m

abbrev pub constant : Text
constant = text "CAST(1 AS BIGINT)"

quote_or_constant : Option Text → Text
unfolding quote_ident
quote_or_constant none = constant
quote_or_constant (some name) = quote_ident name

-- What one iteration of the loop of `ProjectedScanSql` appends for a column id. An id below the number of
-- names is a position of a name; any other is looked up among the routing columns.
unfoldable pub column_sql : TierDbScanBindData → ℕ → Text
unfolding quote_or_constant find_name
column_sql b id = quote_or_constant (
    if ltb id (length b.column_names)
    then get_elem? b.column_names id
    else find_name id b.virtual_to_name)

-- The loop of `ProjectedScanSql` from the index `i`, over the rest of `column_ids`.
unfoldable pub projection_loop : TierDbScanBindData → ℕ → List ℕ → Text → Text
unfolding column_sql
projection_loop b i [] projection = projection
projection_loop b i (id ∷ ids) projection =
    projection_loop b (suc i) ids
      ((if ltb 0 i then projection ++ text ", " else projection) ++ column_sql b id)

-- `ProjectedScanSql`
unfoldable pub projected_scan_sql : TierDbScanBindData → List ℕ → Text
unfolding projection_loop
projected_scan_sql b column_ids =
    let projection = projection_loop b 0 column_ids [] in
    text "SELECT "
    ++ (if is_empty projection then constant else projection)
    ++ text " FROM ("
    ++ b.sql
    ++ text ") tierdb_merged"

pub record TierDbRoutingColumn : Type 0 where
  pub virtual_id : ℕ
  pub name : Text
  pub type : LogicalType

-- The loop over the columns in the lambda `add`: the type of the first column of that name.
unfoldable pub routing_type : StringUtil → Text → List TierDbColumn → Outcome LogicalType
unfolding logical_type_from_string
routing_type u name [] = ok varchar
routing_type u name (c ∷ cs) =
    if text_eq c.name name then logical_type_from_string u c.duckdb_type else routing_type u name cs

module _ (x : Platform) where
  -- `VIRTUAL_COLUMN_START + 1 + out.size()`, a 64-bit number.
  unfoldable pub routing_id : ℕ → ℕ
  routing_id size = (x.virtual_column_start + 1 + size) % size_max

  appended :
      TierDbTableSchema
      → List TierDbRoutingColumn
      → Text
      → Outcome LogicalType
      → Outcome (List TierDbRoutingColumn)
  unfolding routing_id
  appended schema out name (ok t) =
      ok (out ++ record { virtual_id = routing_id (length out); name = name; type = t } ∷ [])
  appended schema out name (throw e) = throw e
  appended schema out name fault = fault

  -- The lambda `add`.
  unfoldable pub add :
      TierDbTableSchema → List TierDbRoutingColumn → Text → Outcome (List TierDbRoutingColumn)
  unfolding appended routing_type
  add schema out name = appended schema out name (routing_type x.string_util name schema.columns)

  -- `add` for each name in turn.
  unfoldable pub add_all :
      TierDbTableSchema
      → List Text
      → Outcome (List TierDbRoutingColumn)
      → Outcome (List TierDbRoutingColumn)
  unfolding add
  add_all schema [] out = out
  add_all schema (name ∷ names) (ok out) = add_all schema names (add schema out name)
  add_all schema (name ∷ names) (throw e) = throw e
  add_all schema (name ∷ names) fault = fault

  -- `RoutingColumns`: the primary key columns, then the tier key.
  unfoldable pub routing_columns : TierDbTableSchema → Outcome (List TierDbRoutingColumn)
  unfolding add_all
  routing_columns schema =
      add_all schema (schema.primary_key_cols ++ schema.tier_key_col ∷ []) (ok [])
