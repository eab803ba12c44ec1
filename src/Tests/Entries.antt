-- ===== src/Tests/Entries.antt =====
-- Runs of the catalog, the schema and the planner hooks: src/storage/tierdb_catalog.cpp, src/storage/tierdb_schema.cpp and
-- src/storage/tierdb_storage.cpp.
use tierdb_duckdb.Prelude.{
  ℕ, ◌-◌, ◌≤◌, ◌<◌, Text, text, ◌≡◌, refl, ◌≢◌, Bool, true, false, Option, none, some, List, [],
  ◌∷◌, ◌++◌, map, All, length, get_elem?, arith,
}
use tierdb_duckdb.Outcome.{ok}
use tierdb_duckdb.Platform.{Json, field, end}
use tierdb_duckdb.Client.Data.{TierDbTableRef, TierDbTableSchema}
use tierdb_duckdb.Schema.{TableEntry, table_entry, SchemaEntry, find_table, lookup_entry}
use tierdb_duckdb.Schema.Stable.{scans, use_all, lookup_entry_repeatable}
use tierdb_duckdb.Catalog.{
  TierDbCatalog, OnEntryNotFound, return_null, throw_exception, lookup_schema, load_loop,
  attach_dsn,
}
use tierdb_duckdb.Sink.Payload.{delete_rows, update_rows}
use tierdb_duckdb.Sink.Rows.{object_of, items_from, consecutive, indexed}
use tierdb_duckdb.Sink.Documents.{row_of}
use tierdb_duckdb.Planner.{
  LogicalDelete, LogicalUpdate, PhysicalTierDbDelete, PhysicalTierDbUpdate, plan_delete,
  plan_update,
}
use tierdb_duckdb.Planner.Fed.{routing_key, planned_delete_rows, planned_update_rows}
use tierdb_duckdb.Tests.Fixture.{platform, string_util}
use tierdb_duckdb.Tests.Sessions.{client, world, orders}
use tierdb_duckdb.Tests.Rows.{rows, names}

abbrev orders_entry : TableEntry
orders_entry = record { columns = []; tierdb_schema = orders }

abbrev public : SchemaEntry platform
public = record {
  name = text "public";
  tables = (text "orders", orders_entry) ∷ [];
  world = world false false;
  visited = [];
}

found : find_table (text "Orders") public ≡ some orders_entry
unfolding find_table tierdb_duckdb.Prelude.text_eq tierdb_duckdb.Tests.Fixture.to_lower
found = refl

same_name : platform.string_util.ci_equals (text "Orders") (text "Orders") ≡ true
unfolding tierdb_duckdb.Prelude.text_eq tierdb_duckdb.Tests.Fixture.to_lower
same_name = refl

looked_up : (lookup_entry client table_entry (text "Orders") public).0 ≡ ok (some orders_entry)
unfolding lookup_entry tierdb_duckdb.Prelude.text_eq tierdb_duckdb.Tests.Fixture.to_lower
looked_up = refl

lookup_entry_repeatable_example :
    let later =
      use_all client
        (scans table_entry ∷ [])
        (lookup_entry client table_entry (text "Orders") public).1 in
    lookup_entry client table_entry (text "Orders") later ≡ (ok (some orders_entry), later)
lookup_entry_repeatable_example =
    lookup_entry_repeatable client (text "Orders") orders_entry (scans table_entry ∷ []) public
      same_name looked_up

abbrev always : Text → Text → Bool
always a b = true

abbrev listed : List TierDbTableRef
listed = record { schema_name = text "public"; table_name = text "orders" } ∷ []

abbrev catalog : TierDbCatalog platform
catalog = record {
  schemas_loaded = true;
  schemas = (text "public", text "public") ∷ [];
  world = world false false;
  visited = [];
}

schema_found :
    (lookup_schema client (text "PUBLIC") return_null catalog).0 ≡ ok (some (text "public"))
unfolding lookup_schema tierdb_duckdb.Catalog.load_schemas tierdb_duckdb.Prelude.text_eq
    tierdb_duckdb.Tests.Fixture.to_lower
schema_found = refl

abbrev delete_op : LogicalDelete
delete_op = record { return_chunk = false; expressions = 1 ∷ 0 ∷ [] }

abbrev delete_plan : PhysicalTierDbDelete
delete_plan = record { key_indexes = 1 ∷ 0 ∷ []; key_names = names }

delete_planned : plan_delete platform orders delete_op ≡ ok delete_plan
unfolding plan_delete
delete_planned = refl

planned_delete_rows_example :
    delete_rows rows delete_plan.key_indexes delete_plan.key_names
    ≡ some (
        Json.arr (
          items_from
            (λ row.
              Json.obj (object_of (indexed (row_of rows row) (1 ∷ 0 ∷ []) (routing_key orders))))
            2
            0))
planned_delete_rows_example =
    planned_delete_rows platform orders delete_op delete_plan rows delete_planned

-- A table with a column that is not in its key.
abbrev items_table : TierDbTableSchema
items_table = record orders {
  primary_key_cols = [];
  columns = record { name = text "qty"; pg_type = text "int8"; duckdb_type = text "BIGINT" } ∷ [];
}

abbrev update_op : LogicalUpdate
update_op = record { return_chunk = false; expressions = 0 ∷ []; columns = 0 ∷ [] }

abbrev update_plan : PhysicalTierDbUpdate
update_plan = record {
  new_value_indexes = 0 ∷ [];
  new_col_names = text "qty" ∷ [];
  old_key_names = text "ts" ∷ [];
}

update_planned : plan_update platform items_table update_op ≡ ok update_plan
unfolding plan_update tierdb_duckdb.Prelude.text_eq
update_planned = refl

planned_update_rows_example :
    (map (get_elem? (map (λ c. c.name) items_table.columns)) update_op.columns
      ≡ some (text "qty") ∷ [])
    × (update_rows rows update_plan.new_value_indexes update_plan.new_col_names
          update_plan.old_key_names
        ≡ some (
            Json.arr (
              items_from
                (λ row. Json.obj (
                  field
                    (text "old")
                    (Json.obj (object_of (consecutive (row_of rows row) (2 - 1) (text "ts" ∷ []))))
                    (field
                      (text "new")
                      (Json.obj (object_of (indexed (row_of rows row) (0 ∷ []) (text "qty" ∷ []))))
                      end)))
                2
                0)))
planned_update_rows_example =
    planned_update_rows platform items_table update_op update_plan rows update_planned (omega arith)
      (omega arith)
