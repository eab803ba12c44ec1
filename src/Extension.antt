-- ===== src/Extension.antt =====
-- `TierdbExtension` of src/tierdb_extension.cpp: how the extension is loaded. What DuckDB does to its instance is a parameter.
use tierdb_duckdb.Prelude.{Text, text, Bool, true, List, [], ◌∷◌}

-- `StorageExtension::Register`, `DBConfig::SetOptionByName` and `ExtensionHelper::TryAutoLoadExtension`, whose answer tells
-- whether the extension could be loaded.
pub record Loader : Type 1 where
  pub DatabaseInstance : Type 0
  pub register : Text → DatabaseInstance → DatabaseInstance
  pub set_option_by_name : Text → Bool → DatabaseInstance → DatabaseInstance
  pub try_auto_load_extension : Text → DatabaseInstance → Bool × DatabaseInstance

abbrev pub peers : List Text
peers = text "json" ∷ text "postgres_scanner" ∷ text "iceberg" ∷ []

module _ (l : Loader) where
  -- The loop over the peers, which does not look at the answers.
  unfoldable pub load_peers : List Text → l.DatabaseInstance → l.DatabaseInstance
  load_peers [] db = db
  load_peers (peer ∷ rest) db = load_peers rest (l.try_auto_load_extension peer db).1

  -- `Load`
  unfoldable pub load : l.DatabaseInstance → l.DatabaseInstance
  unfolding load_peers
  load db = load_peers peers (
      l.set_option_by_name (text "autoload_known_extensions") true (
        l.set_option_by_name (text "autoinstall_known_extensions") true
          (l.register (text "tierdb") db)))

  -- A property of the instance that an attempt to load a peer keeps, whether or not it succeeds, holds
  -- after the load if it holds once the extension is registered and both options are set.
  pub load_keeps :
      (P : l.DatabaseInstance → Type 0) (db : l.DatabaseInstance)
      → ((peer : Text) (d : l.DatabaseInstance) → P d → P (l.try_auto_load_extension peer d).1)
      → P (
          l.set_option_by_name (text "autoload_known_extensions") true (
            l.set_option_by_name
              (text "autoinstall_known_extensions")
              true
              (l.register (text "tierdb") db)))
      → P (load db)
  unfolding load load_peers
  load_keeps P db keep h =
      keep (text "iceberg") _ (keep (text "postgres_scanner") _ (keep (text "json") _ h))

abbrev pub name : Text
name = text "tierdb"
