-- ===== src/Conn/Reads.antt =====
-- `acquire_scan` of tierdb-core-ffi/src/scan.rs: a read pin under a short transaction of its own, or inside the write
-- transaction that is open on the connection.
pub mod Blocks
use tierdb_duckdb.Prelude.{
  ℤ, Text, text, ◌≡◌, refl, ap, ◌∙◌, Bool, true, false, ◌++◌, Option, none, some, if◌then◌else◌,
}
use tierdb_duckdb.Platform.{Reply, done, failed}
use tierdb_duckdb.Wire.{TableSchema, PinnedScan}
use tierdb_duckdb.Rust.{Fallible, return, lift, map_err, and_then, ◌>>=◌, ◌>>◌}
use tierdb_duckdb.Conn.{Postgres, Conn}

-- The queries of tierdb-core-ffi/src/catalog.rs, the query for a pin, and what tierdb-core makes of a table. `mode_is_direct`
-- is `ts.mode()?.is_direct()`, and `render` is `ts.table(lake)?`, `table.scan(…)?` and `render_scan(…)?`.
pub record Planner (pg : Postgres) : Type 1 where
  pub LakeCatalog : Type 0
  pub Cutline : Type 0
  pub table_schema : Text → Text → pg.Session → Reply TableSchema × pg.Session
  pub lake_catalog : TableSchema → pg.Session → Reply (Option LakeCatalog) × pg.Session
  pub cutline : ℤ → pg.Session → Reply (Option Cutline) × pg.Session
  pub read_pin_acquire : ℤ → Cutline → pg.Session → Reply ℤ × pg.Session
  pub mode_is_direct : TableSchema → Reply Bool
  pub attach_sql : LakeCatalog → Text
  pub render : TableSchema → Option LakeCatalog → Option Cutline → Text → Reply Text

module _ {pg : Postgres} (r : Planner pg) where
  unfoldable pub endpoint_or : TableSchema → Option r.LakeCatalog → Reply (Option r.LakeCatalog)
  endpoint_or ts (some c) = done (some c)
  endpoint_or ts none = failed (
      text "direct table \""
      ++ ts.schema_name
      ++ text "\".\""
      ++ ts.table_name
      ++ text "\" needs a live catalog endpoint, but storage profile '"
      ++ ts.storage_profile
      ++ text "' does not configure one")

  -- `let lake = if ts.mode()?.is_direct() { … } else { None };`
  unfoldable pub lake_of : TableSchema → Bool → Fallible pg.Session (Option r.LakeCatalog)
  unfolding endpoint_or
  lake_of ts direct s =
      if direct
      then (r.lake_catalog ts >>= λ found. lift (endpoint_or ts found)) s
      else (done none, s)

  abbrev pub pin_query : ℤ → r.Cutline → Fallible pg.Session ℤ
  pin_query table_id c s =
      let (pin, t) = r.read_pin_acquire table_id c s in
      (map_err (text "read pin acquire failed: ") pin, t)

  -- `match &cutline { … }`
  unfoldable pub pin_of : ℤ → Option r.Cutline → Fallible pg.Session (Option ℤ)
  pin_of table_id none s = (done none, s)
  pin_of table_id (some c) s = (pin_query table_id c >>= λ pin_id. return (some pin_id)) s

  unfoldable pub attach_of : Option r.LakeCatalog → Option Text
  attach_of none = none
  attach_of (some c) = some (r.attach_sql c)

  -- `pin_and_render`
  unfoldable pub pin_and_render :
      TableSchema → Text → Option r.LakeCatalog → Fallible pg.Session PinnedScan
  unfolding pin_of attach_of
  pin_and_render ts dsn lake s =
      (do
        cutline ← r.cutline ts.table_id
        pin_id ← pin_of ts.table_id cutline
        scan_sql ← lift (r.render ts lake cutline dsn)
        return (record { pin_id = pin_id; scan_sql = scan_sql; attach_sql = attach_of lake }))
        s

  abbrev statement : Text → Text → Fallible pg.Session (Unit {0})
  statement what sql s = let (o, t) = pg.batch_execute sql s in (map_err what o, t)

  -- `match &pinned { … } pinned`
  unfoldable pub close_read : Reply PinnedScan → Fallible pg.Session PinnedScan
  close_read (done p) s =
      (statement (text "read pin COMMIT failed: ") (text "COMMIT") >>= λ _. return p) s
  close_read (failed e) s = let (o, t) = pg.batch_execute (text "ROLLBACK") s in (failed e, t)

  -- The short transaction of a read.
  unfoldable pub read_alone :
      TableSchema → Text → Option r.LakeCatalog → Fallible pg.Session PinnedScan
  unfolding pin_and_render close_read
  read_alone ts dsn lake s =
      (statement (text "read pin BEGIN failed: ") (text "BEGIN ISOLATION LEVEL REPEATABLE READ")
          >>= λ _ t. let (pinned, u) = pin_and_render ts dsn lake t in close_read pinned u)
        s

  -- `if conn.in_txn { return pin_and_render(…); } …`
  unfoldable pub read_in :
      Bool → TableSchema → Text → Option r.LakeCatalog → Fallible pg.Session PinnedScan
  unfolding pin_and_render read_alone
  read_in in_txn ts dsn lake s =
      if in_txn then pin_and_render ts dsn lake s else read_alone ts dsn lake s

  -- `acquire_scan`
  unfoldable pub acquire_scan : Text → Text → Fallible (Conn pg) PinnedScan
  unfolding lake_of read_in
  acquire_scan schema table conn =
      let (o, s) =
        (do
          ts ← r.table_schema schema table
          direct ← lift (r.mode_is_direct ts)
          lake ← lake_of ts direct
          read_in conn.in_txn ts conn.dsn lake)
          conn.client in
      (o, record conn { client = s })
