-- ===== src/Sink/Calls.antt =====
-- What a sink of src/storage/tierdb_insert.cpp, src/storage/tierdb_delete.cpp or src/storage/tierdb_update.cpp has done
-- when it ends: the order of its calls, the write transaction and the count.
use tierdb_duckdb.Prelude.{
  ap, ℕ, ◌+◌, ◌%◌, ℤ, pos, negsuc, Text, ◌≡◌, refl, ◌∙◌, ◌≢◌, true, Option, some, ◌∷◌, arith,
  if◌then◌else◌,
}
use tierdb_duckdb.Outcome.{Outcome, Exec, ok, throw, fault, continue, ◌>>=◌}
use tierdb_duckdb.Platform.{Platform, Json, Reply, done, failed}
use tierdb_duckdb.Ffi
use tierdb_duckdb.Ffi.{Call, World, c_str}
use tierdb_duckdb.Client
use tierdb_duckdb.Client.{TierDbClient}
use tierdb_duckdb.Client.Data.{TierDbDmlResult}
use tierdb_duckdb.Client.Served.{
  txn_begin-answer, insert_chunk-answer, delete_chunk-answer, update_chunk-answer, dml_answer,
  called,
}
use tierdb_duckdb.LakeDml.{execute_lake_dml}
use tierdb_duckdb.LakeDml.Order.{Ran, execute_lake_dml_returns}
use tierdb_duckdb.Transaction.{Session, ensure_write_txn, on_world}
use tierdb_duckdb.Std.{size_max}
use tierdb_duckdb.Sink.Payload.{written}
use tierdb_duckdb.Sink.{Statement, on_session, unless_empty, add_count, send_rows}

module _ {S A B : Type 0} where
  -- A step that led to a result, and what was left to do.
  unfoldable pub Passed : (m : Exec S A) → (f : A → Exec S B) → S → B → Type 0
  Passed m f s b =
      (a : A) × ((m s).0 ≡ ok a) × ((f a (m s).1).0 ≡ ok b) × ((m >>= f) s ≡ f a (m s).1)

  continue-ok :
      (r : Outcome A) (f : A → Exec S B) (s : S) (b : B)
      → (continue r f s).0 ≡ ok b
      → (a : A) × (r ≡ ok a) × ((f a s).0 ≡ ok b) × (continue r f s ≡ f a s)
  continue-ok (ok a) f s b h = (a, refl, h, refl)
  continue-ok (throw e) f s b h = cc
  continue-ok fault f s b h = cc

  pub bind-ok :
      (m : Exec S A) (f : A → Exec S B) (s : S) (b : B) → ((m >>= f) s).0 ≡ ok b → Passed m f s b
  unfolding Passed
  bind-ok m f s b h = continue-ok (m s).0 f (m s).1 b h

module _ {x : Platform} where
  -- What a sink has done that returned, where `send` is its chunk call, which is the one call `k`. The lake part
  -- and the rows are those of the answer.
  pub record Sent (c : TierDbClient x) (send : Exec (World x) TierDbDmlResult) (k : Call)
      (s s' : Statement x) : Type 0 where
    pub result : TierDbDmlResult
    -- The worlds before and after the chunk call.
    pub begun : World x
    pub stored : World x
    pub rows : ℕ
    pub begins :
        ensure_write_txn c s.session
        ≡ (ok tt, record { txn = record s.session.txn { write_active = true }; world = begun })
    pub answered : send begun ≡ (ok result, stored)
    pub opened : s'.session.txn.write_active ≡ true
    pub called : stored.history ≡ (
        if s.session.txn.write_active
        then k ∷ s.session.world.history
        else k ∷ Ffi.txn_begin ∷ s.session.world.history)
    pub lake : Ran result.lake_sql result.attach_sql stored s'.session.world
    pub reported : result.count ≡ pos rows
    pub counted : s'.count ≡ (s.count + rows) % size_max

  -- A chunk call makes the one call `k`.
  abbrev pub IsCall : (k : Call) → Exec (World x) TierDbDmlResult → Type 0
  IsCall k m = (w : World x) → (m w).1.history ≡ k ∷ w.history

  pub opened_txn :
      (c : TierDbClient x) (σ : Session x)
      → (ensure_write_txn c σ).0 ≡ ok tt
      → let σ' = (ensure_write_txn c σ).1 in
        (σ'.txn.write_active ≡ true)
        × (σ'.world.history
            ≡ (if σ.txn.write_active then σ.world.history else Ffi.txn_begin ∷ σ.world.history))
  unfolding ensure_write_txn
  opened_txn c σ h = ground (arith, txn_begin-answer c σ.world)

  ensured :
      (c : TierDbClient x) (σ : Session x)
      → (ensure_write_txn c σ).0 ≡ ok tt
      → ensure_write_txn c σ ≡ (
        ok tt,
        record {
          txn = record σ.txn { write_active = true };
          world = (ensure_write_txn c σ).1.world;
        },
      )
  unfolding ensure_write_txn
  ensured c σ h = ground (arith, txn_begin-answer c σ.world)

  pub added :
      (n : ℤ) (s : Statement x)
      → (add_count n s).0 ≡ ok tt
      → (rows : ℕ) × (n ≡ pos rows)
        × (add_count n s ≡ (ok tt, record s { count = (s.count + rows) % size_max }))
  unfolding add_count
  added (pos n) s h = (n, refl, refl)
  added (negsuc n) s h = cc

  -- The steps of a sink, one after the other.
  pub chained :
      (c : TierDbClient x) (send : Text → Exec (World x) TierDbDmlResult) (doc : Json)
      (s : Statement x)
      → (send_rows c send (some doc) s).0 ≡ ok tt
      → let s1 = (on_session (ensure_write_txn c) s).1 in
        let (r2, s2) = on_session (on_world (send (written (x.yyjson.write doc)))) s1 in
        (result : TierDbDmlResult) × ((ensure_write_txn c s.session).0 ≡ ok tt)
        × (r2 ≡ ok result)
        × (let (r3, s3) = on_session (on_world (execute_lake_dml result)) s2 in
            (r3 ≡ ok tt)
            × ((add_count result.count s3).0 ≡ ok tt)
            × (send_rows c send (some doc) s ≡ add_count result.count s3))
  unfolding send_rows Passed
  chained c send doc s h =
      let (u, a, h1, e1) = bind-ok (on_session (ensure_write_txn c)) _ s tt h in
      let (result, b, h2, e2) =
        bind-ok (on_session (on_world (send (written (x.yyjson.write doc))))) _ _ tt h1 in
      let (v, d, h3, e3) = bind-ok (on_session (on_world (execute_lake_dml result))) _ _ tt h2 in
      (result, a, b, (d, h3, e1 ∙ e2 ∙ e3))

  pub send_rows-Sent :
      (c : TierDbClient x) (send : Text → Exec (World x) TierDbDmlResult) (doc : Json) (k : Call)
      (s : Statement x)
      → IsCall k (send (written (x.yyjson.write doc)))
      → (send_rows c send (some doc) s).0 ≡ ok tt
      → Sent c (send (written (x.yyjson.write doc))) k s (send_rows c send (some doc) s).1
  send_rows-Sent c send doc k s call h =
      let (result, a, b, (d, e, f)) = chained c send doc s h in
      let s1 = (on_session (ensure_write_txn c) s).1 in
      let s2 = (on_session (on_world (send (written (x.yyjson.write doc)))) s1).1 in
      let s3 = (on_session (on_world (execute_lake_dml result)) s2).1 in
      let (rows, g, i) = added result.count s3 e in
      let (o, p) = opened_txn c s.session a in
      rw (f ∙ i) (record {
        result = result;
        begun = s1.session.world;
        stored = s2.session.world;
        rows = rows;
        begins = ensured c s.session a;
        answered = ap (λ r. (r, s2.session.world)) b;
        opened = o;
        called = ground (arith, call s1.session.world, p);
        lake = execute_lake_dml_returns result s2.session.world d;
        reported = g;
        counted = refl;
      })

  dml_answer-history :
      (r : Reply Text) (k : Call) (st : x.State) (w : World x)
      → (dml_answer r (called k st w)).1.history ≡ k ∷ w.history
  dml_answer-history (done s) k st w = refl
  dml_answer-history (failed e) k st w = refl

  -- A chunk that is not empty, as the sinks test it.
  pub sized :
      (size : ℕ) (body : Exec (Statement x) (Unit {0})) (s : Statement x)
      → size ≢ 0
      → unless_empty size body s ≡ body s
  unfolding unless_empty
  sized size body s n = ground arith

  pub send_sized :
      (c : TierDbClient x) (send : Text → Exec (World x) TierDbDmlResult) (size : ℕ)
      (rows : Option Json) (doc : Json) (k : Call) (s : Statement x)
      → size ≢ 0
      → rows ≡ some doc
      → IsCall k (send (written (x.yyjson.write doc)))
      → let o = unless_empty size (send_rows c send rows) s in
        o.0 ≡ ok tt → Sent c (send (written (x.yyjson.write doc))) k s o.1
  send_sized c send size rows doc k s n e call h =
      rw (sized size (send_rows c send rows) s n, e)
        (send_rows-Sent c send doc k s call (rw (sized size (send_rows c send rows) s n, e) at h))

  pub insert_chunk-IsCall :
      (c : TierDbClient x) (s t rows : Text)
      → IsCall (Ffi.insert_chunk (c_str s) (c_str t) (c_str rows)) (Client.insert_chunk c s t rows)
  insert_chunk-IsCall c s t rows w = rw insert_chunk-answer (dml_answer-history _ _ _ w)

  pub delete_chunk-IsCall :
      (c : TierDbClient x) (s t rows : Text)
      → IsCall (Ffi.delete_chunk (c_str s) (c_str t) (c_str rows)) (Client.delete_chunk c s t rows)
  delete_chunk-IsCall c s t rows w = rw delete_chunk-answer (dml_answer-history _ _ _ w)

  pub update_chunk-IsCall :
      (c : TierDbClient x) (s t rows : Text)
      → IsCall (Ffi.update_chunk (c_str s) (c_str t) (c_str rows)) (Client.update_chunk c s t rows)
  update_chunk-IsCall c s t rows w = rw update_chunk-answer (dml_answer-history _ _ _ w)
