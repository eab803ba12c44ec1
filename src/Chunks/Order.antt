-- ===== src/Chunks/Order.antt =====
-- The order in which a chunk of tierdb-core-ffi/src/write.rs is carried out.
use tierdb_duckdb.Prelude.{Text, ◌≡◌, ◌++◌, List, []}
use tierdb_duckdb.Platform.{done}
use tierdb_duckdb.Rust.{return, lift, chain, ◌>>=◌}
use tierdb_duckdb.Chunks.{Crates}
use tierdb_duckdb.Chunks.Entry.{
  Prepared, prepare, writes, deletes, outcome, insert_chunk, delete_chunk, update_chunk, split_loop,
}
use tierdb_duckdb.Chunks.Steps.{perform}
use tierdb_duckdb.Chunks.Does.{
  after, Does-then, Does-map, written_steps, written_sql, deleted_steps, deleted_sql, writes-Does,
  deletes-Does,
}

module _ (k : Crates) (dsn schema table json : Text) (s t : k.Client) (p : Prepared k) where
  -- An insert whose lookups and whose rows can be read runs the steps of its rows, in their order and each with its
  -- delta write before its heap write, and then takes the lock of the lake if some row went there; the
  -- first step that fails ends it. The lake statements of the answer are made of the rows that the plan
  -- sends to the lake.
  pub insert_chunk_lem :
      (rows : List k.Value)
      → prepare k schema table s ≡ (done p, t)
      → k.rows_from_str json ≡ done rows
      → insert_chunk k dsn schema table json s
        ≡ (perform k (written_steps k dsn p rows) >>= λ _.
              lift (chain (written_sql k dsn p rows) (λ sql. done (outcome k p rows sql))))
            t
  unfolding insert_chunk
  insert_chunk_lem rows h e =
      rw (h, e)
        (Does-map k (writes k dsn p rows) (written_steps k dsn p rows) (written_sql k dsn p rows)
          (outcome k p rows) (writes-Does k dsn p rows) t)

  -- The same for a delete.
  pub delete_chunk_lem :
      (rows : List k.Value)
      → prepare k schema table s ≡ (done p, t)
      → k.rows_from_str json ≡ done rows
      → delete_chunk k dsn schema table json s
        ≡ (perform k (deleted_steps k dsn p rows) >>= λ _.
              lift (chain (deleted_sql k dsn p rows) (λ sql. done (outcome k p rows sql))))
            t
  unfolding delete_chunk
  delete_chunk_lem rows h e =
      rw (h, e)
        (Does-map k (deletes k dsn p rows) (deleted_steps k dsn p rows) (deleted_sql k dsn p rows)
          (outcome k p rows) (deletes-Does k dsn p rows) t)

  -- An update runs the steps that delete all of its old rows, and only if they and the lake's answer to
  -- them succeed the steps that write all of its new rows. Its lake statements are those of the delete,
  -- with those of the writes behind them, and its count is that of the old rows.
  pub update_chunk_lem :
      (pairs olds news : List k.Value)
      → prepare k schema table s ≡ (done p, t)
      → k.rows_from_str json ≡ done pairs
      → split_loop k pairs [] [] ≡ done (olds, news)
      → update_chunk k dsn schema table json s
        ≡ (perform k (
                deleted_steps k dsn p olds
                ++ after k (deleted_sql k dsn p olds) (λ _. written_steps k dsn p news))
              >>= λ _. lift (
                  chain (deleted_sql k dsn p olds) (λ removed.
                    chain
                      (written_sql k dsn p news)
                      (λ written. done (outcome k p olds (removed ++ written))))))
            t
  unfolding update_chunk
  update_chunk_lem pairs olds news h e f =
      rw (h, e, f)
        (Does-then k (deletes k dsn p olds) (deleted_steps k dsn p olds) (deleted_sql k dsn p olds)
          (λ removed.
            writes k dsn p news >>= λ written. return (outcome k p olds (removed ++ written)))
          (λ _. written_steps k dsn p news) _ (deletes-Does k dsn p olds)
          (λ removed.
            Does-map k (writes k dsn p news) (written_steps k dsn p news) (written_sql k dsn p news)
              (λ written. outcome k p olds (removed ++ written)) (writes-Does k dsn p news))
          t)
