-- ===== src/Chunks/Does.antt =====
-- Computations of tierdb-core-ffi/src/write.rs as steps and an answer: the lake, and all the rows of a chunk.
use tierdb_duckdb.Prelude.{ℤ, Text, text, ◌≡◌, refl, List, [], ◌∷◌, ◌++◌}
use tierdb_duckdb.Platform.{Reply, done, failed}
use tierdb_duckdb.Rust.{Fallible, return, lift, chain, and_then, ◌>>=◌}
use tierdb_duckdb.Chunks.{Crates, int_param, Table, Cold}
use tierdb_duckdb.Chunks.Lake.{Tuples, row_loop, lake_statements, take_lake_lock, live_cold}
use tierdb_duckdb.Chunks.Write.{write_row, write_rows}
use tierdb_duckdb.Chunks.Delete.{delete_row, delete_rows, pk_columns, lake_delete_sql}
use tierdb_duckdb.Chunks.Entry.{Prepared, writes, deletes}
use tierdb_duckdb.Chunks.Steps.{
  statement, stop, Steps, StepsOf, flatten, perform, perform-append, row_loop-steps, performed_one,
}
use tierdb_duckdb.Chunks.Planned.{write_row-StepsOf, write_steps, write_tuples}
use tierdb_duckdb.Chunks.Removed.{delete_row-StepsOf, delete_steps, delete_tuples}

module _ (k : Crates) where
  -- An error stops, and an answer has further steps.
  abbrev pub after : {A : Type 0} → Reply A → (A → Steps k) → Steps k
  after (done a) steps = steps a
  after (failed e) steps = stop e ∷ []

  -- A computation that runs the steps, and answers with the reply if none of them fails.
  abbrev pub Does : {A : Type 0} → Fallible k.Client A → Steps k → Reply A → Type 0
  Does m steps r = (s : k.Client) → m s ≡ (perform k steps >>= λ _. lift r) s

  done_first :
      {A B : Type 0} (p : Reply (Unit {0})) (t : k.Client) (r : Reply A)
      (f : A → Fallible k.Client B) (steps : A → Steps k) (more : A → Reply B)
      → ((a : A) (u : k.Client) → f a u ≡ (perform k (steps a) >>= λ _. lift (more a)) u)
      → let (q, u) = and_then p (λ _. lift r) t in
        and_then q f u ≡ (
          let (o, v) = and_then p (λ _. perform k (after r steps)) t in
          and_then o (λ _. lift (chain r more)) v)
  unfolding perform
  done_first (failed e) t r f steps more h = refl
  done_first (done _) t (failed e) f steps more h = refl
  done_first (done _) t (done a) f steps more h = h a t

  -- One computation after another.
  pub Does-then :
      {A B : Type 0} (m : Fallible k.Client A) (steps : Steps k) (r : Reply A)
      (f : A → Fallible k.Client B) (then_steps : A → Steps k) (more : A → Reply B)
      → Does m steps r
      → ((a : A) → Does (f a) (then_steps a) (more a))
      → Does (m >>= f) (steps ++ after r then_steps) (chain r more)
  Does-then m steps r f then_steps more h g s =
      rw (h s, perform-append k steps (after r then_steps) s)
        (let (p, t) = perform k steps s in done_first p t r f then_steps more g)

  done_last :
      {A B : Type 0} (p : Reply (Unit {0})) (t : k.Client) (r : Reply A) (f : A → B)
      → let (q, u) = and_then p (λ _. lift r) t in
        and_then q (λ a. return (f a)) u ≡ and_then p (λ _. lift (chain r (λ a. done (f a)))) t
  done_last (failed e) t r f = refl
  done_last (done _) t (failed e) f = refl
  done_last (done _) t (done a) f = refl

  pub Does-map :
      {A B : Type 0} (m : Fallible k.Client A) (steps : Steps k) (r : Reply A) (f : A → B)
      → Does m steps r
      → Does (m >>= λ a. return (f a)) steps (chain r (λ a. done (f a)))
  Does-map m steps r f h s = rw (h s) (let (p, t) = perform k steps s in done_last p t r f)

  -- The lock is taken for the tuples of at least one row, before the statements of the lake are built.
  abbrev locked_steps : ℤ → Reply Cold → Steps k
  locked_steps table_id (failed e) = stop e ∷ []
  locked_steps table_id (done cold) =
      statement (text "lake commit lock failed: ") k.lake_commit_lock_sql (int_param table_id ∷ [])
      ∷ []

  abbrev lake_steps : ℤ → Table k.LakeCatalog → Tuples → Steps k
  lake_steps table_id meta [] = []
  lake_steps table_id meta (t ∷ ts) = locked_steps table_id (live_cold k meta)

  abbrev lake_answer :
      Table k.LakeCatalog → (Cold → Tuples → Reply (List Text)) → Tuples → Reply (List Text)
  lake_answer meta build [] = done []
  lake_answer meta build (t ∷ ts) = chain (live_cold k meta) (λ cold. build cold (t ∷ ts))

  locked_done :
      {A : Type 0} (table_id : ℤ) (r : Reply A)
      → Does
          (take_lake_lock k table_id >>= λ _. lift r)
          (statement
              (text "lake commit lock failed: ")
              k.lake_commit_lock_sql
              (int_param table_id ∷ [])
            ∷ [])
          r
  unfolding take_lake_lock
  locked_done table_id r s =
      rw
        (← performed_one k (text "lake commit lock failed: ") k.lake_commit_lock_sql
          (int_param table_id ∷ []) s)
        refl

  locked :
      (table_id : ℤ) (cold : Reply Cold) (build : Cold → Reply (List Text))
      → Does
          (lift cold >>= λ c. take_lake_lock k table_id >>= λ _. lift (build c))
          (locked_steps table_id cold)
          (chain cold build)
  unfolding perform
  locked table_id (failed e) build s = refl
  locked table_id (done c) build s = locked_done table_id (build c) s

  lake_statements-Does :
      (table_id : ℤ) (meta : Table k.LakeCatalog) (build : Cold → Tuples → Reply (List Text))
      (tuples : Tuples)
      → Does
          (lake_statements k table_id meta build tuples)
          (lake_steps table_id meta tuples)
          (lake_answer meta build tuples)
  unfolding lake_statements perform
  lake_statements-Does table_id meta build [] s = refl
  lake_statements-Does table_id meta build (t ∷ ts) s =
      locked table_id (live_cold k meta) (λ cold. build cold (t ∷ ts)) s

  rows-Does :
      (body : k.Value → Tuples → Fallible k.Client Tuples) (steps : k.Value → Steps k)
      (tuples : k.Value → Tuples) (h : StepsOf k body steps tuples) (table_id : ℤ)
      (meta : Table k.LakeCatalog) (build : Cold → Tuples → Reply (List Text)) (rows : List k.Value)
      → Does
          (row_loop k body rows [] >>= lake_statements k table_id meta build)
          (flatten steps rows ++ lake_steps table_id meta (flatten tuples rows))
          (lake_answer meta build (flatten tuples rows))
  rows-Does body steps tuples h table_id meta build rows =
      Does-then (row_loop k body rows []) (flatten steps rows) (done (flatten tuples rows))
        (lake_statements k table_id meta build) (lake_steps table_id meta) (lake_answer meta build)
        (row_loop-steps k body steps tuples h rows []) (lake_statements-Does table_id meta build)

  module _ (dsn : Text) (p : Prepared k) where
    -- What `write_rows` does with the rows: the statements of each row in turn, then the lock of the lake.
    abbrev pub written_steps : List k.Value → Steps k
    written_steps rows =
        flatten (write_steps k dsn p.ts p.meta p.mode p.cutline p.retention) rows
        ++ lake_steps p.ts.table_id p.meta
            (flatten (write_tuples k dsn p.ts p.meta p.mode p.cutline p.retention) rows)

    abbrev pub written_sql : List k.Value → Reply (List Text)
    written_sql rows =
        lake_answer p.meta (k.lake_upsert dsn p.meta)
          (flatten (write_tuples k dsn p.ts p.meta p.mode p.cutline p.retention) rows)

    -- What `delete_rows` does with them, once it has the columns of the key.
    abbrev keyed_steps : Reply (List (Text × Text)) → List k.Value → Steps k
    keyed_steps columns rows = after columns (λ cs.
        flatten (delete_steps k dsn p.ts p.meta p.mode p.cutline p.retention cs) rows
        ++ lake_steps p.ts.table_id p.meta
            (flatten (delete_tuples k dsn p.ts p.meta p.mode p.cutline p.retention cs) rows))

    abbrev keyed_sql : Reply (List (Text × Text)) → List k.Value → Reply (List Text)
    keyed_sql columns rows = chain columns (λ cs.
        lake_answer p.meta (lake_delete_sql k dsn p.ts p.meta p.mode p.cutline p.retention)
          (flatten (delete_tuples k dsn p.ts p.meta p.mode p.cutline p.retention cs) rows))

    abbrev pub deleted_steps : List k.Value → Steps k
    deleted_steps rows = keyed_steps (pk_columns p.meta.pk_cols p.meta.columns) rows

    abbrev pub deleted_sql : List k.Value → Reply (List Text)
    deleted_sql rows = keyed_sql (pk_columns p.meta.pk_cols p.meta.columns) rows

    pub writes-Does :
        (rows : List k.Value) → Does (writes k dsn p rows) (written_steps rows) (written_sql rows)
    unfolding write_rows
    writes-Does rows =
        rows-Does (write_row k dsn p.ts p.meta p.mode p.cutline p.retention)
          (write_steps k dsn p.ts p.meta p.mode p.cutline p.retention)
          (write_tuples k dsn p.ts p.meta p.mode p.cutline p.retention)
          (write_row-StepsOf k dsn p.ts p.meta p.mode p.cutline p.retention) p.ts.table_id p.meta
          (k.lake_upsert dsn p.meta) rows

    keyed-Does :
        (columns : Reply (List (Text × Text))) (rows : List k.Value)
        → Does
            (lift columns >>= λ cs.
              row_loop k (delete_row k dsn p.ts p.meta p.mode p.cutline p.retention cs) rows []
              >>= lake_statements k p.ts.table_id p.meta
                  (lake_delete_sql k dsn p.ts p.meta p.mode p.cutline p.retention))
            (keyed_steps columns rows)
            (keyed_sql columns rows)
    unfolding perform
    keyed-Does (failed e) rows s = refl
    keyed-Does (done cs) rows s =
        rows-Does (delete_row k dsn p.ts p.meta p.mode p.cutline p.retention cs)
          (delete_steps k dsn p.ts p.meta p.mode p.cutline p.retention cs)
          (delete_tuples k dsn p.ts p.meta p.mode p.cutline p.retention cs)
          (delete_row-StepsOf k dsn p.ts p.meta p.mode p.cutline p.retention cs) p.ts.table_id
          p.meta (lake_delete_sql k dsn p.ts p.meta p.mode p.cutline p.retention) rows s

    pub deletes-Does :
        (rows : List k.Value) → Does (deletes k dsn p rows) (deleted_steps rows) (deleted_sql rows)
    unfolding delete_rows
    deletes-Does rows = keyed-Does (pk_columns p.meta.pk_cols p.meta.columns) rows
