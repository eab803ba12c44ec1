-- ===== src/Catalog/Loaded.antt =====
-- The schemas of src/storage/tierdb_catalog.cpp over time, and the connection string of ATTACH in
-- src/storage/tierdb_storage.cpp.
use tierdb_duckdb.Prelude.{
  Text, ◌≡◌, refl, ap, ◌∙◌, Bool, true, Option, none, some, List, [], ◌∷◌, ◌++◌, map, All, arith,
}
use tierdb_duckdb.Outcome.{Outcome, ok, throw, fault, continue}
use tierdb_duckdb.Platform.{Platform}
use tierdb_duckdb.Client.{TierDbClient}
use tierdb_duckdb.Client.Data.{TierDbTableRef}
use tierdb_duckdb.Schema.{find_ci}
use tierdb_duckdb.Schema.Stable.{find_ci-set_ci_new, find_ci-set_ci_self}
use tierdb_duckdb.Catalog.{
  TierDbCatalog, add_schema, load_loop, OnEntryNotFound, load_schemas, scan_schemas, found_schema,
  lookup_schema,
}

module _ (same : Text → Text → Bool) (same_refl : (n : Text) → same n n ≡ true) where
  add_schema-keeps :
      (k n e : Text) (o : Option Text) (m : List (Text × Text))
      → find_ci same n m ≡ o
      → find_ci same k m ≡ some e
      → find_ci same k (add_schema same n o m) ≡ some e
  unfolding add_schema
  add_schema-keeps k n e none m h g = find_ci-set_ci_new same k n n e m h g
  add_schema-keeps k n e (some v) m h g = g

  load_loop-keeps :
      (k e : Text) (refs : List TierDbTableRef) (m : List (Text × Text))
      → find_ci same k m ≡ some e
      → find_ci same k (load_loop same refs m) ≡ some e
  unfolding load_loop
  load_loop-keeps k e [] m g = g
  load_loop-keeps k e (ref ∷ refs) m g =
      load_loop-keeps k e refs _
        (add_schema-keeps k ref.schema_name e (find_ci same ref.schema_name m) m refl g)

  add_schema-found :
      (n : Text) (o : Option Text) (m : List (Text × Text))
      → find_ci same n m ≡ o
      → (e : Text) × (find_ci same n (add_schema same n o m) ≡ some e)
  unfolding add_schema
  add_schema-found n none m h = (n, find_ci-set_ci_self same n n m (same_refl n) h)
  add_schema-found n (some v) m h = (v, h)

  -- The loop of `LoadSchemas` gives an entry to the schema of every table that is listed, and keeps every
  -- entry that was there. The comparison of names has to be reflexive.
  pub load_loop_finds :
      (refs : List TierDbTableRef) (m : List (Text × Text))
      → All
          (λ ref. (e : Text) × (find_ci same ref.schema_name (load_loop same refs m) ≡ some e))
          refs
  unfolding load_loop
  load_loop_finds [] m = tt
  load_loop_finds (ref ∷ refs) m =
      let (e, h) = add_schema-found ref.schema_name (find_ci same ref.schema_name m) m refl in
      ((e, load_loop-keeps ref.schema_name e refs _ h), load_loop_finds refs _)

-- What DuckDB asks of a catalog.
pub data CatalogUse : Type 0 where
  looks_up : Text → OnEntryNotFound → CatalogUse
  scans : CatalogUse

module _ {x : Platform} (c : TierDbClient x) where
  unfoldable pub use_catalog : CatalogUse → TierDbCatalog x → TierDbCatalog x
  use_catalog (looks_up n f) s = (lookup_schema c n f s).1
  use_catalog scans s = (scan_schemas c s).1

  unfoldable pub use_catalog_all : List CatalogUse → TierDbCatalog x → TierDbCatalog x
  use_catalog_all [] s = s
  use_catalog_all (u ∷ us) s = use_catalog_all us (use_catalog u s)

  load_schemas_idle :
      (s : TierDbCatalog x) → s.schemas_loaded ≡ true → load_schemas c s ≡ (ok tt, s)
  unfolding load_schemas
  load_schemas_idle s h = ground arith

  found_schema-state :
      (f : OnEntryNotFound) (n : Text) (o : Option Text) (s : TierDbCatalog x)
      → (found_schema f n o s).1 ≡ s
  unfolding found_schema
  found_schema-state f n (some e) s = refl
  found_schema-state OnEntryNotFound.return_null n none s = refl
  found_schema-state OnEntryNotFound.throw_exception n none s = refl

  -- `LookupSchema` behind the load.
  abbrev look : OnEntryNotFound → Text → TierDbCatalog x → Outcome (Option Text) × TierDbCatalog x
  look f n s = found_schema f n (find_ci x.string_util.ci_equals n s.schemas) s

  lookup_idle :
      (f : OnEntryNotFound) (n : Text) (s : TierDbCatalog x)
      → s.schemas_loaded ≡ true
      → lookup_schema c n f s ≡ look f n s
  unfolding lookup_schema
  lookup_idle f n s h =
      ap (λ (q : Outcome (Unit {0}) × TierDbCatalog x). continue q.0 (λ _. look f n) q.1)
        (load_schemas_idle s h)

  scan_idle :
      (s : TierDbCatalog x)
      → s.schemas_loaded ≡ true
      → scan_schemas c s ≡ (ok tt, record s { visited = s.visited ++ map (λ e. e.1) s.schemas })
  unfolding scan_schemas
  scan_idle s h =
      ap
        (λ (q : Outcome (Unit {0}) × TierDbCatalog x).
          continue q.0
            (λ _ t. (ok tt, record t { visited = t.visited ++ map (λ e. e.1) t.schemas })) q.1)
        (load_schemas_idle s h)

  -- A lookup that returns has loaded the schemas.
  loads :
      (s : TierDbCatalog x)
      → (load_schemas c s).0 ≡ ok tt
      → (load_schemas c s).1.schemas_loaded ≡ true
  unfolding load_schemas
  loads s h = ground arith

  -- What a catalog with its schemas loaded keeps.
  use_catalog-keeps :
      (u : CatalogUse) (s : TierDbCatalog x)
      → s.schemas_loaded ≡ true
      → ((use_catalog u s).schemas_loaded ≡ true)
        × ((use_catalog u s).schemas ≡ s.schemas)
        × ((use_catalog u s).world ≡ s.world)
  unfolding use_catalog
  use_catalog-keeps (looks_up n f) s h =
      let q : (lookup_schema c n f s).1 ≡ s =
        ap (λ p. p.1) (lookup_idle f n s h) ∙ found_schema-state f n _ s in
      (ap (λ t. t.schemas_loaded) q ∙ h, ap (λ t. t.schemas) q, ap (λ t. t.world) q)
  use_catalog-keeps scans s h =
      let q = ap (λ p. p.1) (scan_idle s h) in
      (ap (λ t. t.schemas_loaded) q ∙ h, ap (λ t. t.schemas) q, ap (λ t. t.world) q)

  use_catalog_all-keeps :
      (us : List CatalogUse) (s : TierDbCatalog x)
      → s.schemas_loaded ≡ true
      → ((use_catalog_all us s).schemas_loaded ≡ true)
        × ((use_catalog_all us s).schemas ≡ s.schemas)
        × ((use_catalog_all us s).world ≡ s.world)
  unfolding use_catalog_all
  use_catalog_all-keeps [] s h = (h, refl, refl)
  use_catalog_all-keeps (u ∷ us) s h =
      let (a, b, d) = use_catalog-keeps u s h in
      let (i, j, k) = use_catalog_all-keeps us (use_catalog u s) a in (i, j ∙ b, k ∙ d)

  found_schema-some :
      (f g : OnEntryNotFound) (n e : Text) (o : Option Text) (s t : TierDbCatalog x)
      → (found_schema f n o s).0 ≡ ok (some e)
      → found_schema g n o t ≡ (ok (some e), t)
  unfolding found_schema
  found_schema-some f g n e (some v) s t h = cc
  found_schema-some OnEntryNotFound.return_null g n e none s t h = cc
  found_schema-some OnEntryNotFound.throw_exception g n e none s t h = cc

  found_after :
      (f g : OnEntryNotFound) (n e : Text) (us : List CatalogUse) (r : Outcome (Unit {0}))
      (t : TierDbCatalog x)
      → (r ≡ ok tt → t.schemas_loaded ≡ true)
      → let (o, s) = continue r (λ _. look f n) t in
        o ≡ ok (some e)
        → let later = use_catalog_all us s in
          (lookup_schema c n g later ≡ (ok (some e), later)) × (later.world ≡ s.world)
  found_after f g n e us (ok u) t l h =
      let s = (look f n t).1 in
      let same : s ≡ t = found_schema-state f n _ t in
      let (a, b, d) = use_catalog_all-keeps us s (ap (λ q. q.schemas_loaded) same ∙ l refl) in
      let later = use_catalog_all us s in
      (
        lookup_idle g n later a
            ∙ ap (λ m. found_schema g n (find_ci x.string_util.ci_equals n m) later)
                (b ∙ ap (λ q. q.schemas) same)
            ∙ found_schema-some f g n e _ t later h,
        d,
      )
  found_after f g n e us (throw m) t l h = cc
  found_after f g n e us fault t l h = cc

  -- Once a lookup has returned a schema, every later lookup of the name, whatever lookups and scans came
  -- between, returns the same schema, and none of them makes a call: the tables are listed once.
  pub lookup_schema_repeatable :
      (f g : OnEntryNotFound) (n e : Text) (us : List CatalogUse) (s : TierDbCatalog x)
      → (lookup_schema c n f s).0 ≡ ok (some e)
      → let later = use_catalog_all us (lookup_schema c n f s).1 in
        (lookup_schema c n g later ≡ (ok (some e), later))
        × (later.world ≡ (lookup_schema c n f s).1.world)
  unfolding lookup_schema
  lookup_schema_repeatable f g n e us s h =
      found_after f g n e us (load_schemas c s).0 (load_schemas c s).1 (loads s) h
