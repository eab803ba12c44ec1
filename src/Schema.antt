-- ===== src/Schema.antt =====
-- `TierDBSchemaEntry` of src/storage/tierdb_schema.cpp: the table entries of a schema, made on first use and kept. The mutex
-- `table_lock` is held for the whole of a lookup and of the loop of a scan. What DuckDB's column list does
-- with two columns of one name is not modelled.
pub mod Stable
use tierdb_duckdb.Prelude.{Text, text, Bool, Option, none, some, List, [], ◌∷◌, ◌++◌, if◌then◌else◌}
use tierdb_duckdb.Outcome.{
  Exec, Outcome, ok, throw, fault, not_implemented_exception, pure, raise, continue, ◌>>=◌, ◌>>◌,
}
use tierdb_duckdb.Platform.{Platform, StringUtil}
use tierdb_duckdb.Ffi.{World}
use tierdb_duckdb.Client
use tierdb_duckdb.Client.{TierDbClient}
use tierdb_duckdb.Client.Data.{TierDbColumn, TierDbTableSchema, TierDbTableRef}
use tierdb_duckdb.Types.{LogicalType, logical_type_from_string}

-- `TierDBTableEntry`: the columns that DuckDB sees and the schema that they come from.
pub record TableEntry : Type 0 where
  pub columns : List (Text × LogicalType)
  pub tierdb_schema : TierDbTableSchema

-- A `case_insensitive_map_t`, whose keys are compared by `same`.
module _ {ℓ} {A : Type ℓ} (same : Text → Text → Bool) where
  unfoldable pub find_ci : Text → List (Text × A) → Option A
  find_ci key [] = none
  find_ci key ((k, v) ∷ m) = if same k key then some v else find_ci key m

  -- `map[key] = value`
  unfoldable pub set_ci : Text → A → List (Text × A) → List (Text × A)
  set_ci key value [] = (key, value) ∷ []
  set_ci key value ((k, v) ∷ m) = if same k key then (k, value) ∷ m else (k, v) ∷ set_ci key value m

typed : Text → List (Text × LogicalType) → Outcome LogicalType → Outcome (List (Text × LogicalType))
typed name done (ok t) = ok (done ++ (name, t) ∷ [])
typed name done (throw e) = throw e
typed name done fault = fault

module _ (u : StringUtil) where
  -- `info.columns.AddColumn(…)` for each column of the schema.
  unfoldable pub add_columns :
      List TierDbColumn → Outcome (List (Text × LogicalType)) → Outcome (List (Text × LogicalType))
  unfolding typed
  add_columns [] done = done
  add_columns (c ∷ cs) (ok done) =
      add_columns cs (typed c.name done (logical_type_from_string u c.duckdb_type))
  add_columns (c ∷ cs) (throw e) = throw e
  add_columns (c ∷ cs) fault = fault

  entry_of : TierDbTableSchema → Outcome (List (Text × LogicalType)) → Outcome TableEntry
  entry_of schema (ok columns) = ok (record { columns = columns; tierdb_schema = schema })
  entry_of schema (throw e) = throw e
  entry_of schema fault = fault

  -- `MakeTableEntry`
  unfoldable pub make_table_entry : TierDbTableSchema → Outcome TableEntry
  unfolding add_columns entry_of
  make_table_entry schema = entry_of schema (add_columns schema.columns (ok []))

-- `CatalogType`, as far as the code tells its values apart.
pub data CatalogType : Type 0 where
  table_entry other_type : CatalogType

-- Every table entry of the map.
visit_all : List (Text × TableEntry) → List TableEntry
visit_all [] = []
visit_all ((k, entry) ∷ m) = entry ∷ visit_all m

-- A schema entry, the world, and the entries that callbacks have been called with, the first one first.
pub record SchemaEntry (x : Platform) : Type 0 where
  pub name : Text
  pub tables : List (Text × TableEntry)
  pub world : World x
  pub visited : List TableEntry

module _ {x : Platform} where
  abbrev pub in_world : {A : Type 0} → Exec (World x) A → Exec (SchemaEntry x) A
  in_world m s = let (r, w) = m s.world in (r, record s { world = w })

  unfoldable pub find_table : Text → SchemaEntry x → Option TableEntry
  unfolding find_ci
  find_table table_name s = find_ci x.string_util.ci_equals table_name s.tables

  -- `tables[table_name] = MakeTableEntry(tierdb_schema)`
  put_table : Text → Outcome TableEntry → Exec (SchemaEntry x) TableEntry
  unfolding set_ci
  put_table table_name (ok entry) s =
      (ok entry, record s { tables = set_ci x.string_util.ci_equals table_name entry s.tables })
  put_table table_name (throw e) s = (throw e, s)
  put_table table_name fault s = (fault, s)

  -- What follows `TryGetTableSchema`.
  register : Text → Option TierDbTableSchema → Exec (SchemaEntry x) (Option TableEntry)
  unfolding make_table_entry put_table
  register table_name none = pure none
  register table_name (some schema) = do
    entry ← put_table table_name (make_table_entry x.string_util schema)
    pure (some entry)

  unfoldable pub find_or_load :
      TierDbClient x → Text → Option TableEntry → Exec (SchemaEntry x) (Option TableEntry)
  unfolding register
  find_or_load c table_name (some entry) s = (ok (some entry), s)
  find_or_load c table_name none s =
      (do
        schema ← in_world (Client.try_get_table_schema c s.name table_name)
        register table_name schema)
        s

  -- `LookupEntry`
  unfoldable pub lookup_entry :
      TierDbClient x → CatalogType → Text → Exec (SchemaEntry x) (Option TableEntry)
  unfolding find_or_load find_table
  lookup_entry c other_type table_name s = (ok none, s)
  lookup_entry c table_entry table_name s = find_or_load c table_name (find_table table_name s) s

  -- `callback(*tables[ref.table_name])`, for a table that is registered.
  call_back : Option TableEntry → Exec (SchemaEntry x) (Unit {0})
  call_back none s = (ok tt, s)
  call_back (some entry) s = (ok tt, record s { visited = s.visited ++ entry ∷ [] })

  -- An iteration of the loop of `Scan`, for a table of this schema.
  visit : TierDbClient x → Text → Exec (SchemaEntry x) (Unit {0})
  unfolding find_or_load find_table call_back
  visit c table_name s =
      (do entry ← find_or_load c table_name (find_table table_name s); call_back entry) s

  unfoldable pub scan_loop : TierDbClient x → List TierDbTableRef → Exec (SchemaEntry x) (Unit {0})
  unfolding visit
  scan_loop c [] s = (ok tt, s)
  scan_loop c (ref ∷ refs) s =
      let rest = scan_loop c refs in
      if x.string_util.ci_equals ref.schema_name s.name
      then (visit c ref.table_name >> rest) s
      else rest s

  -- `Scan` with a context.
  unfoldable pub scan : TierDbClient x → CatalogType → Exec (SchemaEntry x) (Unit {0})
  unfolding scan_loop
  scan c other_type s = (ok tt, s)
  scan c table_entry s = (do refs ← in_world (Client.list_tables c); scan_loop c refs) s

  -- `Scan` without one: the entries that are there.
  unfoldable pub scan_committed : CatalogType → Exec (SchemaEntry x) (Unit {0})
  unfolding visit_all
  scan_committed other_type s = (ok tt, s)
  scan_committed table_entry s = (ok tt, record s { visited = s.visited ++ visit_all s.tables })

-- The operations that a schema refuses.
pub data Refused : Type 0 where
  create_table create_function create_index create_view create_sequence create_table_function
        create_copy_function create_pragma_function create_collation create_type alter drop_entry :
      Refused

unfoldable pub refusal_of : Refused → Text
refusal_of create_table = text "tierdb: creating tables through DuckDB is not supported"
refusal_of create_function = text "tierdb: functions are not supported"
refusal_of create_index = text "tierdb: indexes are not supported"
refusal_of create_view = text "tierdb: views are not supported"
refusal_of create_sequence = text "tierdb: sequences are not supported"
refusal_of create_table_function = text "tierdb: table functions are not supported"
refusal_of create_copy_function = text "tierdb: copy functions are not supported"
refusal_of create_pragma_function = text "tierdb: pragma functions are not supported"
refusal_of create_collation = text "tierdb: collations are not supported"
refusal_of create_type = text "tierdb: types are not supported"
refusal_of alter = text "tierdb: ALTER is not supported"
refusal_of drop_entry = text "tierdb: DROP is not supported"

unfoldable pub refuse : {S A : Type 0} → Refused → Exec S A
unfolding refusal_of
refuse op = raise not_implemented_exception (refusal_of op)
