-- ===== src/Catalog.antt =====
-- `TierDBCatalog` of src/storage/tierdb_catalog.cpp: the schemas of a catalog, loaded once, and the options of ATTACH in
-- src/storage/tierdb_storage.cpp. The mutex `schema_lock` is held for the whole of a lookup or a scan.
pub mod Loaded
pub mod Attach
use tierdb_duckdb.Prelude.{
  Text, text, text_eq, is_empty, Bool, true, false, Option, none, some, List, [], ◌∷◌, ◌++◌, map,
  if◌then◌else◌,
}
use tierdb_duckdb.Outcome.{
  Exec, Outcome, ok, throw, fault, binder_exception, pure, raise, continue, ◌>>=◌, ◌>>◌,
}
use tierdb_duckdb.Platform.{Platform, StringUtil}
use tierdb_duckdb.Ffi.{World}
use tierdb_duckdb.Client
use tierdb_duckdb.Client.{TierDbClient}
use tierdb_duckdb.Client.Data.{TierDbTableRef}
use tierdb_duckdb.Schema.{find_ci, set_ci}

-- The catalog, with the schema entries by the names that they were made with, and the names of the entries
-- that callbacks have been called with, the first one first.
pub record TierDbCatalog (x : Platform) : Type 0 where
  pub schemas_loaded : Bool
  pub schemas : List (Text × Text)
  pub world : World x
  pub visited : List Text

-- The loop of `LoadSchemas`.
unfoldable pub add_schema :
    (Text → Text → Bool) → Text → Option Text → List (Text × Text) → List (Text × Text)
unfolding set_ci
add_schema same name none schemas = set_ci same name name schemas
add_schema same name (some entry) schemas = schemas

unfoldable pub load_loop :
    (Text → Text → Bool) → List TierDbTableRef → List (Text × Text) → List (Text × Text)
unfolding add_schema find_ci
load_loop same [] schemas = schemas
load_loop same (ref ∷ refs) schemas =
    load_loop same refs
      (add_schema same ref.schema_name (find_ci same ref.schema_name schemas) schemas)

-- `OnEntryNotFound`
pub data OnEntryNotFound : Type 0 where
  throw_exception return_null : OnEntryNotFound

module _ {x : Platform} where
  abbrev pub in_world : {A : Type 0} → Exec (World x) A → Exec (TierDbCatalog x) A
  in_world m s = let (r, w) = m s.world in (r, record s { world = w })

  abbrev store_schemas : List TierDbTableRef → Exec (TierDbCatalog x) (Unit {0})
  store_schemas refs s = (
    ok tt,
    record s { schemas = load_loop x.string_util.ci_equals refs s.schemas; schemas_loaded = true },
  )

  -- `LoadSchemas`
  unfoldable pub load_schemas : TierDbClient x → Exec (TierDbCatalog x) (Unit {0})
  unfolding load_loop
  load_schemas c s =
      if s.schemas_loaded
      then (ok tt, s)
      else (do refs ← in_world (Client.list_tables c); store_schemas refs) s

  -- `ScanSchemas`
  unfoldable pub scan_schemas : TierDbClient x → Exec (TierDbCatalog x) (Unit {0})
  scan_schemas c = do
    load_schemas c
    λ s. (ok tt, record s { visited = s.visited ++ map (λ e. e.1) s.schemas })

  -- The end of `LookupSchema`.
  found_schema : OnEntryNotFound → Text → Option Text → Exec (TierDbCatalog x) (Option Text)
  found_schema if_not_found name (some entry) = pure (some entry)
  found_schema return_null name none = pure none
  found_schema throw_exception name none =
      raise binder_exception (text "Schema \"" ++ name ++ text "\" not found in tierdb catalog")

  -- `LookupSchema`
  unfoldable pub lookup_schema :
      TierDbClient x → Text → OnEntryNotFound → Exec (TierDbCatalog x) (Option Text)
  unfolding found_schema find_ci
  lookup_schema c name if_not_found = do
    load_schemas c
    λ s. found_schema if_not_found name (find_ci x.string_util.ci_equals name s.schemas) s

-- The loop of `TierDBAttach` over the options, each with its name and the text of its value.
unfoldable pub option_loop : StringUtil → List (Text × Text) → Text → Outcome Text
option_loop u [] dsn = ok dsn
option_loop u ((name, value) ∷ options) dsn =
    let rest = option_loop u options value in
    if text_eq (u.lower name) (text "dsn")
    then rest
    else throw (record {
      kind = binder_exception;
      message = text "Unrecognized option for tierdb attach: " ++ name;
    })

given : Outcome Text → Outcome Text
given (ok dsn) =
    if is_empty dsn
    then throw (record {
      kind = binder_exception;
      message =
          text
            "tierdb attach requires a libpq connection string (ATTACH '<dsn>' AS name (TYPE tierdb))";
    })
    else ok dsn
given (throw e) = throw e
given fault = fault

-- `TierDBAttach`, up to the catalog that it makes with the connection string.
unfoldable pub attach_dsn : StringUtil → Text → List (Text × Text) → Outcome Text
unfolding option_loop given
attach_dsn u path options = given (option_loop u options path)
