-- ===== src/Sink/Count.antt =====
-- The count of a statement where a sink of src/storage/tierdb_insert.cpp, src/storage/tierdb_delete.cpp or
-- src/storage/tierdb_update.cpp throws.
use tierdb_duckdb.Prelude.{ℕ, ℤ, pos, negsuc, Text, ◌≡◌, refl, ◌≢◌, Option, none, some, arith}
use tierdb_duckdb.Outcome.{Outcome, Exec, ok, throw, fault, continue, ◌>>=◌}
use tierdb_duckdb.Platform.{Platform, Json}
use tierdb_duckdb.Ffi.{World}
use tierdb_duckdb.Client.{TierDbClient}
use tierdb_duckdb.Client.Data.{TierDbDmlResult}
use tierdb_duckdb.LakeDml.{execute_lake_dml}
use tierdb_duckdb.Transaction.{Session, ensure_write_txn, on_world}
use tierdb_duckdb.Sink.Payload.{written}
use tierdb_duckdb.Sink.{Statement, on_session, unless_empty, add_count, send_rows}

module _ {x : Platform} where
  -- A step that leaves the count alone where the whole does not return.
  Keeps : {A : Type 0} → Exec (Statement x) A → Type 0
  Keeps {A = A} m = (s : Statement x) → ((a : A) → (m s).0 ≢ ok a) → (m s).1.count ≡ s.count

  continue-Keeps :
      {A B : Type 0} (r : Outcome A) (f : A → Exec (Statement x) B) (s : Statement x)
      → ((a : A) → Keeps (f a))
      → ((b : B) → (continue r f s).0 ≢ ok b)
      → (continue r f s).1.count ≡ s.count
  unfolding Keeps
  continue-Keeps (ok a) f s k h = k a s h
  continue-Keeps (throw e) f s k h = refl
  continue-Keeps fault f s k h = refl

  session-Keeps :
      {A B : Type 0} (m : Exec (Session x) A) (f : A → Exec (Statement x) B)
      → ((a : A) → Keeps (f a))
      → Keeps (on_session m >>= f)
  unfolding Keeps
  session-Keeps m f k s h = continue-Keeps (m s.session).0 f _ k h

  add_count-Keeps :
      (n : ℤ) (s : Statement x)
      → ((u : Unit {0}) → (add_count n s).0 ≢ ok u)
      → (add_count n s).1.count ≡ s.count
  unfolding add_count
  add_count-Keeps (pos n) s h = absurd (h tt refl)
  add_count-Keeps (negsuc n) s h = refl

  send_rows-Keeps :
      (c : TierDbClient x) (send : Text → Exec (World x) TierDbDmlResult) (rows : Option Json)
      → Keeps (send_rows c send rows)
  unfolding send_rows Keeps
  send_rows-Keeps c send none s h = refl
  send_rows-Keeps c send (some doc) s h =
      session-Keeps (ensure_write_txn c) _
        (λ u. session-Keeps (on_world (send (written (x.yyjson.write doc)))) _ (λ result.
          session-Keeps (on_world (execute_lake_dml result)) _ (λ v. add_count-Keeps result.count)))
        s h

  -- A sink that ends in an exception has not changed the count of its statement.
  pub send_rows_uncounted :
      (c : TierDbClient x) (send : Text → Exec (World x) TierDbDmlResult) (size : ℕ)
      (rows : Option Json) (s : Statement x)
      → let o = unless_empty size (send_rows c send rows) s in o.0 ≢ ok tt → o.1.count ≡ s.count
  unfolding Keeps unless_empty
  send_rows_uncounted c send size rows s h =
      let kept = send_rows-Keeps c send rows s in ground arith
