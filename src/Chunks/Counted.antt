-- ===== src/Chunks/Counted.antt =====
-- The count of a chunk of tierdb-core-ffi/src/write.rs.
use tierdb_duckdb.Prelude.{
  ℕ, ◌+◌, pos, Text, text, ◌≡◌, refl, ap, ◌∙◌, List, [], ◌∷◌, ◌++◌, length, arith, length-append,
}
use tierdb_duckdb.Platform.{Reply, done, failed}
use tierdb_duckdb.Wire.{ChunkOutcome}
use tierdb_duckdb.Rust.{Fallible, return, chain, map_err, and_then, ◌>>=◌}
use tierdb_duckdb.Chunks.{Crates}
use tierdb_duckdb.Chunks.Entry.{
  Prepared, prepare, writes, deletes, outcome, insert_chunk, delete_chunk, update_chunk, split_loop,
}

pub data Operation : Type 0 where
  inserting deleting updating : Operation

abbrev pub chunk_of :
    (k : Crates) → Operation → Text → Text → Text → Text → Fallible k.Client ChunkOutcome
chunk_of k inserting = insert_chunk k
chunk_of k deleting = delete_chunk k
chunk_of k updating = update_chunk k

module _ {S A B : Type 0} where
  answered_by :
      (r : Reply A) (f : A → Fallible S B) (t : S) (P : B → Type 0) (b : B)
      → ((a : A) (u : S) (b : B) → r ≡ done a → (f a u).0 ≡ done b → P b)
      → (and_then r f t).0 ≡ done b
      → P b
  answered_by (done a) f t P b h e = h a t b refl e
  answered_by (failed x) f t P b h e = cc

unfailed : {A : Type 0} (what : Text) (r : Reply A) (a : A) → map_err what r ≡ done a → r ≡ done a
unfailed what (done b) a h = h
unfailed what (failed e) a h = cc

module _ (k : Crates) where
  abbrev pub Parsed : Text → Type 0
  Parsed json = (rows : List k.Value) × (k.rows_from_str json ≡ done rows)

  missing-pair :
      (pairs olds news : List k.Value) (o n : Reply k.Value) (r : List k.Value × List k.Value)
      (c : ℕ)
      → ((old new : k.Value)
          → split_loop k pairs (olds ++ old ∷ []) (news ++ new ∷ []) ≡ done r
          → length r.0 ≡ c)
      → chain o (λ old. chain n (λ new. split_loop k pairs (olds ++ old ∷ []) (news ++ new ∷ [])))
        ≡ done r
      → length r.0 ≡ c
  missing-pair pairs olds news (done o) (done n) r c h e = h o n e
  missing-pair pairs olds news (done o) (failed x) r c h e = cc
  missing-pair pairs olds news (failed x) n r c h e = cc

  length-split_loop :
      (pairs olds news : List k.Value) (r : List k.Value × List k.Value)
      → split_loop k pairs olds news ≡ done r
      → length r.0 ≡ length olds + length pairs
  unfolding split_loop
  length-split_loop [] olds news r e = let h : (olds, news) ≡ r = cc in rw (← h) (omega arith)
  length-split_loop (pair ∷ pairs) olds news r e =
      missing-pair pairs olds news _ _ r _
        (λ old new h.
          length-split_loop pairs (olds ++ old ∷ []) (news ++ new ∷ []) r h
          ∙ omega (arith, length-append olds (old ∷ [])))
        e

  counted :
      (p : Prepared k) (rows : List k.Value) (sql : List Text) (o : ChunkOutcome)
      → done (outcome k p rows sql) ≡ done o
      → o.count ≡ pos (length rows)
  counted p rows sql o e = cc

  counted_by :
      (m : Prepared k → Fallible k.Client (List Text)) (rows : List k.Value) (schema table : Text)
      (s : k.Client) (o : ChunkOutcome)
      → ((prepare k schema table >>= λ p. m p >>= λ sql. return (outcome k p rows sql)) s).0
        ≡ done o
      → o.count ≡ pos (length rows)
  counted_by m rows schema table s o h =
      answered_by (prepare k schema table s).0 _ _ (λ o. o.count ≡ pos (length rows)) o
        (λ p t b _ f.
          answered_by (m p t).0 _ _ (λ o. o.count ≡ pos (length rows)) b
            (λ sql u c _ g. counted p rows sql c g) f)
        h

  -- A chunk function that answers has read its text as an array.
  pub chunk_parses :
      (op : Operation) (dsn schema table json : Text) (s : k.Client) (o : ChunkOutcome)
      → (chunk_of k op dsn schema table json s).0 ≡ done o
      → Parsed json
  unfolding insert_chunk delete_chunk update_chunk
  chunk_parses inserting dsn schema table json s o h =
      answered_by (prepare k schema table s).0 _ _ (λ _. Parsed json) o
        (λ p t b _ f.
          answered_by
            (map_err (text "insert payload is not a JSON array of rows: ") (k.rows_from_str json)) _
            t (λ _. Parsed json) b
            (λ rows u c i g.
              (rows, unfailed (text "insert payload is not a JSON array of rows: ") _ rows i))
            f)
        h
  chunk_parses deleting dsn schema table json s o h =
      answered_by (prepare k schema table s).0 _ _ (λ _. Parsed json) o
        (λ p t b _ f.
          answered_by
            (map_err (text "delete payload is not a JSON array of rows: ") (k.rows_from_str json)) _
            t (λ _. Parsed json) b
            (λ rows u c i g.
              (rows, unfailed (text "delete payload is not a JSON array of rows: ") _ rows i))
            f)
        h
  chunk_parses updating dsn schema table json s o h =
      answered_by (prepare k schema table s).0 _ _ (λ _. Parsed json) o
        (λ p t b _ f.
          answered_by
            (map_err (text "update payload is not a JSON array of rows: ") (k.rows_from_str json)) _
            t (λ _. Parsed json) b
            (λ rows u c i g.
              (rows, unfailed (text "update payload is not a JSON array of rows: ") _ rows i))
            f)
        h

  -- What a chunk function counts, if it answers, is the elements of the array that it is given.
  pub chunk_counts :
      (op : Operation) (dsn schema table json : Text) (s : k.Client) (rows : List k.Value)
      (o : ChunkOutcome)
      → k.rows_from_str json ≡ done rows
      → (chunk_of k op dsn schema table json s).0 ≡ done o
      → o.count ≡ pos (length rows)
  unfolding insert_chunk delete_chunk update_chunk
  chunk_counts inserting dsn schema table json s rows o e h =
      counted_by (λ p. writes k dsn p rows) rows schema table s o (rw e at h)
  chunk_counts deleting dsn schema table json s rows o e h =
      counted_by (λ p. deletes k dsn p rows) rows schema table s o (rw e at h)
  chunk_counts updating dsn schema table json s rows o e h =
      answered_by (prepare k schema table s).0 _ _ (λ o. o.count ≡ pos (length rows)) o
        (λ p t b _ f.
          answered_by (split_loop k rows [] []) _ t (λ o. o.count ≡ pos (length rows)) b
            (λ split u c i g.
              answered_by (deletes k dsn p split.0 u).0 _ _ (λ o. o.count ≡ pos (length rows)) c
                (λ removed v d _ j.
                  answered_by (writes k dsn p split.1 v).0 _ _ (λ o. o.count ≡ pos (length rows)) d
                    (λ written w q _ l.
                      counted p split.0 (removed ++ written) q l
                      ∙ ap pos (length-split_loop rows [] [] split i ∙ omega arith))
                    j)
                g)
            f)
        (rw e at h)
