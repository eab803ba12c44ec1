-- ===== src/LakeDml/Accepted.antt =====
-- The lake part of src/storage/tierdb_client.cpp on a DuckDB that accepts it: the answers that its queries
-- get, in the worlds in which they are made.
use tierdb_duckdb.Prelude.{
  ℕ, zero, suc, ◌+◌, ◌<◌, Text, ◌≡◌, refl, ap, ◌∙◌, ◌⊎◌, inl, inr, true, List, [], ◌∷◌, arith,
}
use tierdb_duckdb.Outcome.{Exec, Outcome, ok, continue, ◌>>=◌}
use tierdb_duckdb.Platform.{Platform, Reply, done, failed}
use tierdb_duckdb.Ffi.{World}
use tierdb_duckdb.Client.Data.{TierDbDmlResult}
use tierdb_duckdb.LakeDml.{
  is_conflict, max_attempts, fresh_connection, run_query, raise_if_failed, run_on_fresh_connection,
  after_query, attempts, run_statements, attach_first, execute, execute_lake_dml,
}

abbrev pub IsDone : {A : Type 0} → Reply A → Type 0
IsDone {A} r = (a : A) × (r ≡ done a)

module _ {S A B : Type 0} where
  continue-returned :
      (r : Outcome A) (f : A → Exec S B) (s : S) (a : A) (b : B)
      → r ≡ ok a
      → (f a s).0 ≡ ok b
      → (continue r f s).0 ≡ ok b
  continue-returned r f s a b e h = rw e h

  pub bind-returned :
      (m : Exec S A) (f : A → Exec S B) (s : S) (a : A) (b : B)
      → (m s).0 ≡ ok a
      → (f a (m s).1).0 ≡ ok b
      → ((m >>= f) s).0 ≡ ok b
  bind-returned m f s a b e h = continue-returned (m s).0 f (m s).1 a b e h

module _ {x : Platform} where
  -- The answer to a query in the world `w`.
  abbrev pub reply : x.Connection → Text → World x → Reply x.QueryResult
  reply con sql w = (x.query con sql w.outside).0

  -- A lake statement is accepted, after at most so many conflicts as there are retries.
  abbrev pub Accepted : ℕ → x.Connection → Text → World x → Type 0
  Accepted zero con sql w = IsDone (reply con sql w)
  Accepted (suc retries) con sql w =
      IsDone (reply con sql w)
      ⊎ ((e : Text) × (reply con sql w ≡ failed e)
          × (is_conflict x.string_util e ≡ true)
          × Accepted retries con sql (run_query con sql w).1)

  abbrev pub AllAccepted : x.Connection → List Text → World x → Type 0
  AllAccepted con [] w = Unit
  AllAccepted con (sql ∷ sqls) w =
      Accepted 2 con sql w × AllAccepted con sqls (attempts max_attempts 1 con sql w).1

  abbrev pub AttachAccepted : Text → World x → Type 0
  AttachAccepted [] w = Unit
  AttachAccepted (a ∷ sql) w =
      let (con, st) = x.open_connection w.outside in IsDone (x.query con (a ∷ sql) st).0

  -- DuckDB attaches the lake, if there is one to attach, and accepts its statements.
  abbrev pub LakeAccepted : Text → List Text → World x → Type 0
  LakeAccepted attach [] w = Unit
  LakeAccepted attach (sql ∷ sqls) w =
      let v = (attach_first attach w).1 in
      let con = (x.open_connection v.outside).0 in
      AttachAccepted attach w × AllAccepted con (sql ∷ sqls) (fresh_connection v).1

  accepted :
      (attempt : ℕ) (again : Exec (World x) (Unit {0})) (r : Reply x.QueryResult)
      (a : x.QueryResult) (w : World x)
      → r ≡ done a
      → (after_query attempt again r w).0 ≡ ok tt
  unfolding after_query
  accepted attempt again (done b) a w h = refl
  accepted attempt again (failed m) a w h = cc

  -- A conflict before the last attempt is tried again.
  retried :
      (attempt : ℕ) (again : Exec (World x) (Unit {0})) (r : Reply x.QueryResult) (e : Text)
      (w : World x)
      → r ≡ failed e
      → is_conflict x.string_util e ≡ true
      → attempt < max_attempts
      → after_query attempt again r w ≡ again w
  unfolding after_query
  retried attempt again (done a) e w h k l = cc
  retried attempt again (failed m) e w h k l =
      let q : is_conflict x.string_util m ≡ true = cc in ground (arith, q)

  attempts-returned :
      (retries attempt : ℕ) (con : x.Connection) (sql : Text) (w : World x)
      → retries + attempt ≡ max_attempts
      → Accepted retries con sql w
      → (attempts (suc retries) attempt con sql w).0 ≡ ok tt
  unfolding attempts run_query
  attempts-returned zero attempt con sql w n (a, e) = accepted attempt _ _ a _ e
  attempts-returned (suc retries) attempt con sql w n (inl (a, e)) = accepted attempt _ _ a _ e
  attempts-returned (suc retries) attempt con sql w n (inr (m, e, k, h)) =
      let ih =
        attempts-returned retries (attempt + 1) con sql (run_query con sql w).1 (omega (arith, n))
          h in
      ap (λ (r : Outcome (Unit {0}) × World x). r.0)
        (retried attempt (λ v. attempts (suc retries) (attempt + 1) con sql v) (reply con sql w) m
          (run_query con sql w).1 e k (omega (arith, n)))
      ∙ ih

  run_statements-returned :
      (con : x.Connection) (sqls : List Text) (w : World x)
      → AllAccepted con sqls w
      → (run_statements con sqls w).0 ≡ ok tt
  unfolding run_statements
  run_statements-returned con [] w h = refl
  run_statements-returned con (sql ∷ sqls) w (h, k) =
      bind-returned (attempts max_attempts 1 con sql) (λ _. run_statements con sqls) w tt tt
        (attempts-returned 2 1 con sql w refl h) (run_statements-returned con sqls _ k)

  attach_first-returned :
      (sql : Text) (w : World x) → AttachAccepted sql w → (attach_first sql w).0 ≡ ok tt
  unfolding attach_first run_on_fresh_connection fresh_connection run_query raise_if_failed
  attach_first-returned [] w h = refl
  attach_first-returned (a ∷ sql) w (result, e) = rw e refl

  execute-returned :
      (attach : Text) (sqls : List Text) (w : World x)
      → LakeAccepted attach sqls w
      → (execute attach sqls w).0 ≡ ok tt
  unfolding execute fresh_connection
  execute-returned attach [] w h = refl
  execute-returned attach (sql ∷ sqls) w (h, k) =
      bind-returned (attach_first attach) _ w tt tt (attach_first-returned attach w h)
        (run_statements-returned _ (sql ∷ sqls) _ k)

  pub execute_lake_dml-returned :
      (dml : TierDbDmlResult) (w : World x)
      → LakeAccepted dml.attach_sql dml.lake_sql w
      → (execute_lake_dml dml w).0 ≡ ok tt
  unfolding execute_lake_dml
  execute_lake_dml-returned dml w h = execute-returned dml.attach_sql dml.lake_sql w h
