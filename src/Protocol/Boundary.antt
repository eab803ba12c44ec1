-- ===== src/Protocol/Boundary.antt =====
-- The scans and the write transaction of src/storage/tierdb_transaction.cpp as runs of the automaton.
use tierdb_duckdb.Prelude.{
  ℤ, Text, text, ◌≡◌, refl, Bool, true, false, Option, none, some, List, ◌++◌, append-nil, arith,
  ap,
}
use tierdb_duckdb.Outcome.{Outcome, continue, ok, pure, ◌>>◌}
use tierdb_duckdb.Platform.{Platform, Json, Reply, done, failed}
use tierdb_duckdb.Ffi
use tierdb_duckdb.Ffi.{Call, World, c_str, into_c_string}
use tierdb_duckdb.Ffi.Entry.{on_conn}
use tierdb_duckdb.Client.{TierDbClient, parse_error}
use tierdb_duckdb.Client.Data.{TierDbTableSchema, TierDbPinnedScan}
use tierdb_duckdb.Client.Decode.{decode_pinned_scan}
use tierdb_duckdb.Client.Served.{
  called, answer_status, answer_string, decode_or, acquire_read_scan-answer,
}
use tierdb_duckdb.Transaction.{
  TierDbTransaction, Session, update_txn, acquire, find_scan, get_pinned_scan, remember,
  ensure_write_txn,
}
use tierdb_duckdb.Transaction.Writes.{is_ok, ensure_write_txn_opens}
use tierdb_duckdb.Protocol.{
  Stage, active, Trace, view, granted, pin_of, pin_in, pin_read, scanned, begun, opened, queried,
  Run, stop, call, close,
}
use tierdb_duckdb.Protocol.Steps.{Order, Moves}
use tierdb_duckdb.Protocol.Lake.{OnlySql, same, and_opened, and_queried}

module _ {x : Platform} {c : TierDbClient x} where
  pub Run-trans : {a b d : Stage} {p q r : Trace x} → Run c a p b q → Run c b q d r → Run c a p d r
  Run-trans r stop = r
  Run-trans r (call q s) = call (Run-trans r q) s
  Run-trans r (close q) = close (Run-trans r q)

  pub Run-sql :
      {b : Bool} {ps : List ℤ} {p q : Trace x} → OnlySql p q → Run c (active b ps) p (active b ps) q
  Run-sql same = stop
  Run-sql (and_opened r) = call (Run-sql r) opened
  Run-sql (and_queried con sql r) = call (Run-sql r) (queried con sql)

-- The automaton's view of a transaction forgets its scans.
abbrev pub stage : TierDbTransaction → Stage
stage t = active t.write_active t.pins

pinned_by :
    (id : ℤ) (p : TierDbPinnedScan) (t : TierDbTransaction)
    → stage (remember id p t) ≡ active t.write_active (t.pins ++ pin_of p)
unfolding remember
pinned_by id p t = ground (arith, append-nil t.pins)

module _ {x : Platform} (c : TierDbClient x) where
  abbrev pub session_order : Order (Session x)
  session_order = record {
    rel = λ σ τ. Run c (stage σ.txn) (view σ.world) (stage τ.txn) (view τ.world);
    reflexive = λ σ. stop;
    transitive = Run-trans;
  }

  -- The session after a scan was answered.
  abbrev scan_ended : ℤ → TierDbTransaction → Outcome TierDbPinnedScan × World x → Session x
  scan_ended id t (o, v) =
      (continue o (λ pinned. update_txn (remember id pinned) >> pure pinned)
        (record { txn = t; world = v })).1

  scan_read :
      (id : ℤ) (t : TierDbTransaction) (message : Text) (doc : Option Json) (v : World x)
      → let σ = scan_ended id t (decode_or message (decode_pinned_scan x.yyjson) doc, v) in
        (stage σ.txn ≡ active t.write_active (t.pins ++ pin_read x doc)) × (σ.world ≡ v)
  scan_read id t message none v = (rw (append-nil t.pins) refl, refl)
  scan_read id t message (some root) v = (pinned_by id (decode_pinned_scan x.yyjson root) t, refl)

  scan_answered :
      (id : ℤ) (t : TierDbTransaction) (message : Text) (r : Reply Text) (v : World x)
      → let σ = scan_ended id t (
          answer_string
            (λ answer. decode_or message (decode_pinned_scan x.yyjson) (x.yyjson.read answer))
            r
            v) in
        (stage σ.txn ≡ active t.write_active (t.pins ++ pin_in x r)) × (view σ.world ≡ view v)
  scan_answered id t message (done answer) v =
      let (a, b) = scan_read id t message (x.yyjson.read (into_c_string answer)) _ in (a, ap view b)
  scan_answered id t message (failed e) v = (rw (append-nil t.pins) refl, refl)

  acquire-moved :
      (schema : TierDbTableSchema) (p : Option TierDbPinnedScan) (σ : Session x)
      → session_order.rel σ (acquire p c schema σ).1
  unfolding acquire
  acquire-moved schema (some p) σ = stop
  acquire-moved schema none σ =
      let s = c_str schema.schema_name in
      let t = c_str schema.table_name in
      let (r, st) = on_conn (λ k. x.acquire_read_scan k s t) c.conn σ.world.outside in
      let (a, b) =
        scan_answered schema.table_id σ.txn
          (parse_error (text "pinned scan") schema.schema_name schema.table_name) r
          (called (Ffi.acquire_read_scan s t) st σ.world) in
      rw (acquire_read_scan-answer c schema.schema_name schema.table_name σ.world, a, b)
        (call stop (scanned s t))

  pub get_pinned_scan-Moves :
      (schema : TierDbTableSchema) → Moves session_order (get_pinned_scan c schema)
  unfolding get_pinned_scan
  get_pinned_scan-Moves schema = record {
    moved = λ σ. acquire-moved schema (find_scan schema.table_id σ.txn.scan_by_table) σ;
  }

  pub status_view : (r : Reply (Unit {0})) (w : World x) → view (answer_status r w).1 ≡ view w
  status_view (done u) w = refl
  status_view (failed e) w = refl

  is_ok-granted : (r : Reply (Unit {0})) (w : World x) → is_ok (answer_status r w).0 ≡ granted r
  is_ok-granted (done u) w = refl
  is_ok-granted (failed e) w = refl

  ensure_write_txn-active :
      (σ : Session x) → σ.txn.write_active ≡ true → ensure_write_txn c σ ≡ (ok tt, σ)
  unfolding ensure_write_txn
  ensure_write_txn-active σ a = ground arith

  begin_choice :
      (b : Bool) (σ : Session x)
      → σ.txn.write_active ≡ b
      → Run c
          (active b σ.txn.pins)
          (view σ.world)
          (stage (ensure_write_txn c σ).1.txn)
          (view (ensure_write_txn c σ).1.world)
  begin_choice true σ a = rw (ensure_write_txn-active σ a, a) stop
  begin_choice false σ a =
      let (r, st) = on_conn x.txn_begin c.conn σ.world.outside in
      rw
        (
          ensure_write_txn_opens c σ a,
          is_ok-granted r (called Ffi.txn_begin st σ.world),
          status_view r (called Ffi.txn_begin st σ.world),
        )
        (call stop begun)

  pub ensure_write_txn-moved : (σ : Session x) → session_order.rel σ (ensure_write_txn c σ).1
  ensure_write_txn-moved σ = begin_choice σ.txn.write_active σ refl
