-- ===== src/Schema/Stable.antt =====
-- The table entries of src/storage/tierdb_schema.cpp over time: `LookupEntry` and `Scan` hand out pointers to them.
use tierdb_duckdb.Prelude.{
  Text, ◌≡◌, refl, ◌∙◌, Bool, true, false, Option, none, some, List, [], ◌∷◌, arith, if◌then◌else◌,
}
use tierdb_duckdb.Outcome.{Exec, Outcome, ok, throw, fault, continue, ◌>>=◌}
use tierdb_duckdb.Platform.{Platform}
use tierdb_duckdb.Client
use tierdb_duckdb.Client.{TierDbClient}
use tierdb_duckdb.Client.Data.{TierDbTableSchema, TierDbTableRef}
use tierdb_duckdb.Schema.{
  TableEntry, find_ci, set_ci, make_table_entry, CatalogType, table_entry, other_type, SchemaEntry,
  find_table, put_table, register, find_or_load, lookup_entry, call_back, visit, scan_loop, scan,
  scan_committed,
}

module _ {ℓ} {A : Type ℓ} (same : Text → Text → Bool) where
  -- A new key leaves the others.
  pub find_ci-set_ci_new :
      (k n : Text) (v e : A) (m : List (Text × A))
      → find_ci same n m ≡ none
      → find_ci same k m ≡ some e
      → find_ci same k (set_ci same n v m) ≡ some e
  unfolding find_ci set_ci
  find_ci-set_ci_new k n v e [] h g = cc
  find_ci-set_ci_new k n v e ((j, w) ∷ m) h g = ground (arith, find_ci-set_ci_new k n v e m)

  pub find_ci-set_ci_self :
      (n : Text) (v : A) (m : List (Text × A))
      → same n n ≡ true
      → find_ci same n m ≡ none
      → find_ci same n (set_ci same n v m) ≡ some v
  unfolding find_ci set_ci
  find_ci-set_ci_self n v [] r h = ground arith
  find_ci-set_ci_self n v ((j, w) ∷ m) r h = ground (arith, find_ci-set_ci_self n v m)

-- What DuckDB asks of a schema.
pub data Use : Type 0 where
  looks_up : CatalogType → Text → Use
  scans scans_committed : CatalogType → Use

module _ {x : Platform} (c : TierDbClient x) where
  -- A use that fails leaves what it did.
  unfoldable pub use_schema : Use → SchemaEntry x → SchemaEntry x
  use_schema (looks_up type table_name) s = (lookup_entry c type table_name s).1
  use_schema (scans type) s = (scan c type s).1
  use_schema (scans_committed type) s = (scan_committed type s).1

  unfoldable pub use_all : List Use → SchemaEntry x → SchemaEntry x
  use_all [] s = s
  use_all (u ∷ us) s = use_all us (use_schema u s)

  put_table-keeps :
      (k n : Text) (e : TableEntry) (o : Outcome TableEntry) (s : SchemaEntry x)
      → find_table n s ≡ none
      → find_table k s ≡ some e
      → find_table k (put_table n o s).1 ≡ some e
  unfolding put_table find_table
  put_table-keeps k n e (ok v) s h g =
      find_ci-set_ci_new x.string_util.ci_equals k n v e s.tables h g
  put_table-keeps k n e (throw m) s h g = g
  put_table-keeps k n e fault s h g = g

  continue-keeps :
      {A B : Type 0} (r : Outcome A) (f : A → Exec (SchemaEntry x) B) (k : Text) (e : TableEntry)
      (s : SchemaEntry x)
      → ((a : A) (t : SchemaEntry x) → find_table k t ≡ some e → find_table k (f a t).1 ≡ some e)
      → find_table k s ≡ some e
      → find_table k (continue r f s).1 ≡ some e
  continue-keeps (ok a) f k e s h g = h a s g
  continue-keeps (throw m) f k e s h g = g
  continue-keeps fault f k e s h g = g

  register-keeps :
      (k n : Text) (e : TableEntry) (o : Option TierDbTableSchema) (s : SchemaEntry x)
      → find_table n s ≡ none
      → find_table k s ≡ some e
      → find_table k (register n o s).1 ≡ some e
  unfolding register
  register-keeps k n e none s h g = g
  register-keeps k n e (some schema) s h g =
      continue-keeps (put_table n (make_table_entry x.string_util schema) s).0 _ k e _ (λ v t q. q)
        (put_table-keeps k n e (make_table_entry x.string_util schema) s h g)

  find_or_load-keeps :
      (k n : Text) (e : TableEntry) (o : Option TableEntry) (s : SchemaEntry x)
      → find_table n s ≡ o
      → find_table k s ≡ some e
      → find_table k (find_or_load c n o s).1 ≡ some e
  unfolding find_or_load find_table
  find_or_load-keeps k n e (some v) s h g = g
  find_or_load-keeps k n e none s h g =
      loaded (Client.try_get_table_schema c s.name n s.world).0 _ h g
    where
      loaded :
          (r : Outcome (Option TierDbTableSchema)) (t : SchemaEntry x)
          → find_table n t ≡ none
          → find_table k t ≡ some e
          → find_table k (continue r (register n) t).1 ≡ some e
      loaded (ok o) t a b = register-keeps k n e o t a b
      loaded (throw m) t a b = b
      loaded fault t a b = b

  call_back-keeps :
      (k : Text) (o : Option TableEntry) (s : SchemaEntry x)
      → find_table k (call_back o s).1 ≡ find_table k s
  unfolding call_back find_table
  call_back-keeps k none s = refl
  call_back-keeps k (some v) s = refl

  visit-keeps :
      (k n : Text) (e : TableEntry) (s : SchemaEntry x)
      → find_table k s ≡ some e
      → find_table k (visit c n s).1 ≡ some e
  unfolding visit
  visit-keeps k n e s g =
      continue-keeps (find_or_load c n (find_table n s) s).0 _ k e _
        (λ v t q. call_back-keeps k v t ∙ q) (find_or_load-keeps k n e _ s refl g)

  choose-keeps :
      {B : Type 0} (b : Bool) (k : Text) (e : TableEntry) (p q : Outcome B × SchemaEntry x)
      → find_table k p.1 ≡ some e
      → find_table k q.1 ≡ some e
      → find_table k (if b then p else q).1 ≡ some e
  choose-keeps true k e p q g h = g
  choose-keeps false k e p q g h = h

  scan_loop-keeps :
      (k : Text) (e : TableEntry) (refs : List TierDbTableRef) (s : SchemaEntry x)
      → find_table k s ≡ some e
      → find_table k (scan_loop c refs s).1 ≡ some e
  unfolding scan_loop
  scan_loop-keeps k e [] s g = g
  scan_loop-keeps k e (ref ∷ refs) s g =
      choose-keeps (x.string_util.ci_equals ref.schema_name s.name) k e _ _
        (continue-keeps (visit c ref.table_name s).0 (λ _. scan_loop c refs) k e _
          (λ v t q. scan_loop-keeps k e refs t q) (visit-keeps k ref.table_name e s g))
        (scan_loop-keeps k e refs s g)

  use_schema-keeps :
      (k : Text) (e : TableEntry) (u : Use) (s : SchemaEntry x)
      → find_table k s ≡ some e
      → find_table k (use_schema u s) ≡ some e
  unfolding use_schema lookup_entry scan scan_committed find_table
  use_schema-keeps k e (looks_up other_type n) s g = g
  use_schema-keeps k e (looks_up table_entry n) s g = find_or_load-keeps k n e _ s refl g
  use_schema-keeps k e (scans other_type) s g = g
  use_schema-keeps k e (scans table_entry) s g =
      continue-keeps (Client.list_tables c s.world).0 (scan_loop c) k e _
        (λ v t q. scan_loop-keeps k e v t q) g
  use_schema-keeps k e (scans_committed other_type) s g = g
  use_schema-keeps k e (scans_committed table_entry) s g = g

  -- Once a schema has an entry for a table, every later use of the schema leaves it there, whether or
  -- not the use fails: a pointer to the entry that DuckDB holds stays valid.
  pub use_all-keeps :
      (k : Text) (e : TableEntry) (us : List Use) (s : SchemaEntry x)
      → find_table k s ≡ some e
      → find_table k (use_all us s) ≡ some e
  unfolding use_all
  use_all-keeps k e [] s g = g
  use_all-keeps k e (u ∷ us) s g = use_all-keeps k e us _ (use_schema-keeps k e u s g)

  put_table-found :
      (n : Text) (e : TableEntry) (o : Outcome TableEntry) (s : SchemaEntry x)
      → x.string_util.ci_equals n n ≡ true
      → find_table n s ≡ none
      → let (r, t) = (put_table n o >>= λ entry u. (ok (some entry), u)) s in
        r ≡ ok (some e) → find_table n t ≡ some e
  unfolding put_table find_table
  put_table-found n e (ok v) s r g h =
      find_ci-set_ci_self x.string_util.ci_equals n v s.tables r g ∙ cc
  put_table-found n e (throw m) s r g h = cc
  put_table-found n e fault s r g h = cc

  find_or_load-found :
      (n : Text) (e : TableEntry) (o : Option TableEntry) (s : SchemaEntry x)
      → x.string_util.ci_equals n n ≡ true
      → find_table n s ≡ o
      → (find_or_load c n o s).0 ≡ ok (some e)
      → find_table n (find_or_load c n o s).1 ≡ some e
  unfolding find_or_load find_table register
  find_or_load-found n e (some v) s r g h = g ∙ cc
  find_or_load-found n e none s r g h =
      loaded (Client.try_get_table_schema c s.name n s.world).0 _ g h
    where
      loaded :
          (o : Outcome (Option TierDbTableSchema)) (t : SchemaEntry x)
          → find_table n t ≡ none
          → (continue o (register n) t).0 ≡ ok (some e)
          → find_table n (continue o (register n) t).1 ≡ some e
      loaded (ok none) t a b = cc
      loaded (ok (some schema)) t a b =
          put_table-found n e (make_table_entry x.string_util schema) t r a b
      loaded (throw m) t a b = cc
      loaded fault t a b = cc

  -- Once a lookup has returned a table entry, every later lookup of that name, whatever other uses of the
  -- schema came between and whether or not they failed, returns the same entry and changes nothing.
  -- The comparison of names has to hold for the name and itself.
  pub lookup_entry_repeatable :
      (n : Text) (e : TableEntry) (us : List Use) (s : SchemaEntry x)
      → x.string_util.ci_equals n n ≡ true
      → (lookup_entry c table_entry n s).0 ≡ ok (some e)
      → let later = use_all us (lookup_entry c table_entry n s).1 in
        lookup_entry c table_entry n later ≡ (ok (some e), later)
  unfolding lookup_entry find_or_load
  lookup_entry_repeatable n e us s r h =
      let later = use_all us (lookup_entry c table_entry n s).1 in
      let kept = use_all-keeps n e us _ (find_or_load-found n e (find_table n s) s r refl h) in
      cached later kept
    where
      cached :
          (t : SchemaEntry x)
          → find_table n t ≡ some e
          → find_or_load c n (find_table n t) t ≡ (ok (some e), t)
      cached t g = rw g refl
