-- ===== src/Chunks/Answers.antt =====
-- The chunk calls of the C ABI where tierdb-core-ffi/src/write.rs answers them: what the row count of a statement in
-- src/storage/tierdb_insert.cpp, tierdb_delete.cpp and tierdb_update.cpp rests on.
use tierdb_duckdb.Prelude.{◌^◌, ◌<◌, pos, Text, ◌≡◌, sym, ap, ◌∙◌, subst, some, List, length}
use tierdb_duckdb.Platform.{Platform, Json, Items, Reply, done}
use tierdb_duckdb.Ffi.{c_str, into_c_string}
use tierdb_duckdb.Operators.Shape.{count_items}
use tierdb_duckdb.Operators.Total.{CountsRows, Counting}
use tierdb_duckdb.Wire.{ChunkOutcome, to_json, as_read}
use tierdb_duckdb.Wire.Laws.{Accessors, IsI64}
use tierdb_duckdb.Wire.Decoded.{decode_dml_result-to_json}
use tierdb_duckdb.Chunks.{Crates}
use tierdb_duckdb.Chunks.Counted.{
  Operation, inserting, deleting, updating, chunk_of, chunk_counts, chunk_parses,
}

-- The two JSON libraries and lib.rs between a platform and the crates. `print` is the text that serde_json writes for
-- `ChunkOutcome::to_json`.
pub record Answers (x : Platform) (k : Crates) : Type 0 where
  pub dsn : x.Conn → Text
  pub client : x.Conn → x.State → k.Client
  pub print : ChunkOutcome → Text
  -- yyjson reads what serde_json has printed.
  pub reads :
      (o : ChunkOutcome) (root : Json)
      → x.yyjson.read (into_c_string (print o)) ≡ some root
      → root ≡ as_read (to_json o)
  -- Where serde_json reads an array that yyjson has written, it has the elements of the array; it refuses one that is
  -- nested too deep. A `Vec` has fewer than 2 ^ 63 elements.
  pub parses :
      (js : Items) (json : Text) (rows : List k.Value)
      → x.yyjson.write (Json.arr js) ≡ some json
      → k.rows_from_str (c_str json) ≡ done rows
      → (length rows ≡ count_items js) × (length rows < 2 ^ 63)

module _ {x : Platform} {k : Crates} (a : Answers x k) where
  -- A chunk call that hands out the printed outcome of its chunk function.
  abbrev pub Hands :
      Operation → (x.Conn → Text → Text → Text → x.State → Reply Text × x.State) → Type 0
  Hands op f =
      (c : x.Conn) (s t json answer : Text) (st : x.State)
      → (f c s t json st).0 ≡ done answer
      → (o : ChunkOutcome) × ((chunk_of k op (a.dsn c) s t json (a.client c st)).0 ≡ done o)
        × (answer ≡ a.print o)

  handed-CountsRows :
      (op : Operation) (f : x.Conn → Text → Text → Text → x.State → Reply Text × x.State)
      → Accessors x.yyjson
      → Hands op f
      → CountsRows x f
  handed-CountsRows op f laws hands c s t json answer js root st w e r =
      let (o, d, p) = hands c s t (c_str json) answer st e in
      let (rows, q) = chunk_parses k op (a.dsn c) s t (c_str json) (a.client c st) o d in
      let (n, l) = a.parses js json rows w q in
      let count = chunk_counts k op (a.dsn c) s t (c_str json) (a.client c st) rows o q d in
      let read = a.reads o root (rw p at r) in
      rw read (
        ap (λ m. m.count) (decode_dml_result-to_json laws o (subst IsI64 (sym count) l))
        ∙ count
        ∙ ap pos n)

  -- Where the chunk calls hand out what write.rs answers, the number in each answer is the number of rows that were
  -- sent.
  pub handed-Counting :
      Accessors x.yyjson
      → Hands inserting x.insert_chunk
      → Hands deleting x.delete_chunk
      → Hands updating x.update_chunk
      → Counting x
  handed-Counting laws i d u = record {
    inserted = handed-CountsRows inserting x.insert_chunk laws i;
    deleted = handed-CountsRows deleting x.delete_chunk laws d;
    updated = handed-CountsRows updating x.update_chunk laws u;
  }
