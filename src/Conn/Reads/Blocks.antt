-- ===== src/Conn/Reads/Blocks.antt =====
-- The flag `in_txn` of tierdb-core-ffi/src/catalog.rs against the transaction block of the session, over the reads of
-- tierdb-core-ffi/src/scan.rs.
use tierdb_duckdb.Prelude.{ℤ, Text, text, ◌≡◌, refl, ap, ◌∙◌, Bool, true, false, Option, none, some}
use tierdb_duckdb.Platform.{Reply, done, failed}
use tierdb_duckdb.Wire.{TableSchema, PinnedScan}
use tierdb_duckdb.Rust.{Fallible, return, lift, map_err, and_then, ◌>>=◌}
use tierdb_duckdb.Conn.{Postgres, Conn}
use tierdb_duckdb.Conn.Reads.{
  Planner, endpoint_or, lake_of, pin_query, pin_of, pin_and_render, close_read, read_alone, read_in,
  acquire_scan,
}

-- Whether a transaction block is open in a session, and what Postgres documents of it: a `BEGIN` that is granted opens one,
-- `COMMIT` and `ROLLBACK` close it whether or not they are granted, and a query leaves it as it is.
pub record Blocks {pg : Postgres} (r : Planner pg) : Type 1 where
  pub in_block : pg.Session → Bool
  pub refused :
      (s : pg.Session) (e : Text)
      → (pg.batch_execute (text "BEGIN ISOLATION LEVEL REPEATABLE READ") s).0 ≡ failed e
      → in_block (pg.batch_execute (text "BEGIN ISOLATION LEVEL REPEATABLE READ") s).1 ≡ in_block s
  pub commit : (s : pg.Session) → in_block (pg.batch_execute (text "COMMIT") s).1 ≡ false
  pub rollback : (s : pg.Session) → in_block (pg.batch_execute (text "ROLLBACK") s).1 ≡ false
  pub schema_query : (a b : Text) (s : pg.Session) → in_block (r.table_schema a b s).1 ≡ in_block s
  pub catalog_query :
      (ts : TableSchema) (s : pg.Session) → in_block (r.lake_catalog ts s).1 ≡ in_block s
  pub cutline_query : (id : ℤ) (s : pg.Session) → in_block (r.cutline id s).1 ≡ in_block s
  pub pin_query :
      (id : ℤ) (c : r.Cutline) (s : pg.Session)
      → in_block (r.read_pin_acquire id c s).1 ≡ in_block s

stays :
    {S A B : Type 0} (o : Reply A) (f : A → B) (t : S) → (and_then o (λ a. return (f a)) t).1 ≡ t
stays (done a) f t = refl
stays (failed e) f t = refl

module _ {pg : Postgres} {r : Planner pg} (b : Blocks r) where
  -- A computation that leaves the block as it is.
  abbrev Keeps : {A : Type 0} → Fallible pg.Session A → Type 0
  Keeps m = (s : pg.Session) → b.in_block (m s).1 ≡ b.in_block s

  continued :
      {A B : Type 0} (o : Reply A) (f : A → Fallible pg.Session B) (t : pg.Session)
      → ((a : A) → Keeps (f a))
      → b.in_block (and_then o f t).1 ≡ b.in_block t
  continued (done a) f t h = h a t
  continued (failed e) f t h = refl

  Keeps-bind :
      {A B : Type 0} (m : Fallible pg.Session A) (f : A → Fallible pg.Session B)
      → Keeps m
      → ((a : A) → Keeps (f a))
      → Keeps (m >>= f)
  Keeps-bind m f h g s = let (o, t) = m s in continued o f t g ∙ h s

  pin_of-Keeps : (id : ℤ) (c : Option r.Cutline) → Keeps (pin_of r id c)
  unfolding pin_of
  pin_of-Keeps id none s = refl
  pin_of-Keeps id (some c) s =
      Keeps-bind (pin_query r id c) (λ p. return (some p)) (b.pin_query id c) (λ p t. refl) s

  lake_of-Keeps : (ts : TableSchema) (direct : Bool) → Keeps (lake_of r ts direct)
  unfolding lake_of
  lake_of-Keeps ts false s = refl
  lake_of-Keeps ts true s =
      Keeps-bind (r.lake_catalog ts) (λ found. lift (endpoint_or r ts found)) (b.catalog_query ts)
        (λ found t. refl) s

  pin_and_render-Keeps :
      (ts : TableSchema) (dsn : Text) (lake : Option r.LakeCatalog)
      → Keeps (pin_and_render r ts dsn lake)
  unfolding pin_and_render
  pin_and_render-Keeps ts dsn lake s =
      Keeps-bind (r.cutline ts.table_id) _ (b.cutline_query ts.table_id)
        (λ c.
          Keeps-bind (pin_of r ts.table_id c) _ (pin_of-Keeps ts.table_id c)
            (λ p. Keeps-bind (lift (r.render ts lake c dsn)) _ (λ t. refl) (λ sql t. refl)))
        s

  close_read-closed :
      (p : Reply PinnedScan) (s : pg.Session) → b.in_block (close_read r p s).1 ≡ false
  unfolding close_read
  close_read-closed (done p) s =
      let (o, t) = pg.batch_execute (text "COMMIT") s in
      ap b.in_block (stays (map_err (text "read pin COMMIT failed: ") o) (λ _. p) t) ∙ b.commit s
  close_read-closed (failed e) s = b.rollback s

  begun :
      (o : Reply (Unit {0})) (t : pg.Session) (m : Fallible pg.Session PinnedScan)
      → ((e : Text) → o ≡ failed e → b.in_block t ≡ false)
      → b.in_block
          (and_then
            (map_err (text "read pin BEGIN failed: ") o)
            (λ _ u. let (pinned, v) = m u in close_read r pinned v)
            t).1
        ≡ false
  begun (done _) t m h = let (pinned, v) = m t in close_read-closed pinned v
  begun (failed e) t m h = h e refl

  -- A read whose connection has the flag that the session's block asks for.
  read_in-block :
      (in_txn : Bool) (ts : TableSchema) (dsn : Text) (lake : Option r.LakeCatalog) (s : pg.Session)
      → b.in_block s ≡ in_txn
      → b.in_block (read_in r in_txn ts dsn lake s).1 ≡ in_txn
  unfolding read_in read_alone
  read_in-block true ts dsn lake s h = pin_and_render-Keeps ts dsn lake s ∙ h
  read_in-block false ts dsn lake s h =
      let (o, t) = pg.batch_execute (text "BEGIN ISOLATION LEVEL REPEATABLE READ") s in
      begun o t (pin_and_render r ts dsn lake) (λ e f. b.refused s e f ∙ h)

  ordered :
      {A B : Type 0} (flag : Bool) (o : Reply A) (f : A → Fallible pg.Session B) (t : pg.Session)
      → ((a : A) (t : pg.Session) → b.in_block t ≡ flag → b.in_block (f a t).1 ≡ flag)
      → b.in_block t ≡ flag
      → b.in_block (and_then o f t).1 ≡ flag
  ordered flag (done a) f t g e = g a t e
  ordered flag (failed x) f t g e = e

  -- Two computations, of which the first leaves the block as it is.
  in_order :
      {A B : Type 0} (flag : Bool) (m : Fallible pg.Session A) (f : A → Fallible pg.Session B)
      (s : pg.Session)
      → Keeps m
      → ((a : A) (t : pg.Session) → b.in_block t ≡ flag → b.in_block (f a t).1 ≡ flag)
      → b.in_block s ≡ flag
      → b.in_block ((m >>= f) s).1 ≡ flag
  in_order flag m f s h g e = let (o, t) = m s in ordered flag o f t g (h s ∙ e)

  -- If the flag of the connection says whether a transaction block is open, it does so after `acquire_scan`, on every
  -- branch: a read of its own leaves no block behind, whether its pin was taken, its SQL could not be
  -- rendered or its `COMMIT` was refused, and a read inside the write transaction leaves that one open.
  pub acquire_scan-in_block :
      (schema table : Text) (conn : Conn pg)
      → b.in_block conn.client ≡ conn.in_txn
      → b.in_block (acquire_scan r schema table conn).1.client
        ≡ (acquire_scan r schema table conn).1.in_txn
  unfolding acquire_scan
  acquire_scan-in_block schema table conn h =
      in_order conn.in_txn (r.table_schema schema table) _ conn.client (b.schema_query schema table)
        (λ ts t.
          in_order conn.in_txn (lift (r.mode_is_direct ts)) _ t (λ t. refl)
            (λ direct u.
              in_order conn.in_txn (lake_of r ts direct) _ u (lake_of-Keeps ts direct)
                (λ lake v. read_in-block conn.in_txn ts conn.dsn lake v)))
        h
