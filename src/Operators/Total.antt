-- ===== src/Operators/Total.antt =====
-- The row count that a statement answers with, over all of its chunks: src/storage/tierdb_insert.cpp,
-- src/storage/tierdb_delete.cpp and src/storage/tierdb_update.cpp with the counts of
-- tierdb-core-ffi/src/write.rs.
use tierdb_duckdb.Prelude.{
  ℕ, ◌+◌, ◌%◌, ◌^◌, ◌<◌, ℤ, pos, negsuc, Text, ◌≡◌, refl, sym, ap, ◌∙◌, Option, none, some, List,
  [], ◌∷◌, All, arith,
}
use tierdb_duckdb.Outcome.{Exec, ok}
use tierdb_duckdb.Platform.{Platform, Yyjson, Json, Items, Reply, done, failed}
use tierdb_duckdb.Ffi.{World, into_c_string, c_str}
use tierdb_duckdb.Ffi.Entry.{on_conn}
use tierdb_duckdb.Client.{TierDbClient}
use tierdb_duckdb.Client.Data.{TierDbDmlResult}
use tierdb_duckdb.Client.Decode.{decode_dml_result}
use tierdb_duckdb.Client.Served.{
  insert_chunk-answer, delete_chunk-answer, update_chunk-answer, dml_answer, decode_or,
}
use tierdb_duckdb.Std.{size_max}
use tierdb_duckdb.Transaction.{Session}
use tierdb_duckdb.Value.{Value, bigint}
use tierdb_duckdb.Sink.{Statement, unless_empty, add_count, send_rows}
use tierdb_duckdb.Sink.Payload.{DataChunk, written}
use tierdb_duckdb.Sink.Calls.{chained, bind-ok, Passed}
use tierdb_duckdb.Operators.Run.{
  Operator, inserts, deletes, updates, sink, sink_all, get_data_internal, get_global_sink_state,
  run_operator, started,
}
use tierdb_duckdb.Operators.Shape.{
  count_items, IsReady, write_document, document-sized, send_call, sink_lem,
}

abbrev pub total : List DataChunk → ℕ
total [] = 0
total (chunk ∷ chunks) = chunk.size + total chunks

module _ (x : Platform) where
  -- A chunk function that answers a document of rows with their number.
  abbrev pub CountsRows : (x.Conn → Text → Text → Text → x.State → Reply Text × x.State) → Type 0
  CountsRows f =
      (k : x.Conn) (s t json answer : Text) (js : Items) (root : Json) (st : x.State)
      → x.yyjson.write (Json.arr js) ≡ some json
      → (f k s t (c_str json) st).0 ≡ done answer
      → x.yyjson.read (into_c_string answer) ≡ some root
      → (decode_dml_result x.yyjson root).count ≡ pos (count_items js)

  -- `insert_chunk`, `delete_chunk` and `update_chunk` of write.rs count the
  -- elements of the array that they are given.
  pub record Counting : Type 0 where
    pub inserted : CountsRows x.insert_chunk
    pub deleted : CountsRows x.delete_chunk
    pub updated : CountsRows x.update_chunk

read_count :
    (y : Yyjson) (message : Text) (doc : Option Json) (result : TierDbDmlResult) (n : ℕ)
    → ((root : Json) → doc ≡ some root → (decode_dml_result y root).count ≡ pos n)
    → decode_or message (decode_dml_result y) doc ≡ ok result
    → result.count ≡ pos n
read_count y message none result n h e = cc
read_count y message (some root) result n h e = let d = h root refl in grind (arith, d, e)

module _ (x : Platform) where
  -- What a client without a connection answers is no count.
  on_conn-done :
      (f : x.Conn → Text → Text → Text → x.State → Reply Text × x.State) (c : Option x.Conn)
      (s t json answer : Text) (js : Items) (root : Json) (st : x.State)
      → CountsRows x f
      → x.yyjson.write (Json.arr js) ≡ some json
      → (on_conn (λ k. f k s t (c_str json)) c st).0 ≡ done answer
      → x.yyjson.read (into_c_string answer) ≡ some root
      → (decode_dml_result x.yyjson root).count ≡ pos (count_items js)
  unfolding on_conn
  on_conn-done f none s t json answer js root st h w e r = cc
  on_conn-done f (some k) s t json answer js root st h w e r = h k s t json answer js root st w e r

module _ {x : Platform} where
  answered :
      (r : Reply Text) (w : World x) (result : TierDbDmlResult) (n : ℕ)
      → ((answer : Text) (root : Json)
          → r ≡ done answer
          → x.yyjson.read (into_c_string answer) ≡ some root
          → (decode_dml_result x.yyjson root).count ≡ pos n)
      → (dml_answer r w).0 ≡ ok result
      → result.count ≡ pos n
  answered (done a) w result n h e = read_count x.yyjson _ _ result n (λ root. h a root refl) e
  answered (failed a) w result n h e = cc

  pub started-count : (op : Operator) (σ : Session x) → (started op σ).count ≡ 0
  unfolding get_global_sink_state
  started-count (inserts op) σ = refl
  started-count (deletes table op) σ = refl
  started-count (updates table op) σ = refl

  pub add_count-keeps :
      (n : ℕ) (r : ℤ) (s : Statement x)
      → r ≡ pos n
      → (add_count r s).1.count ≡ (s.count + n) % size_max
  unfolding add_count
  add_count-keeps n (pos m) s e = ground arith
  add_count-keeps n (negsuc m) s e = cc

  module _ (counting : Counting x) (c : TierDbClient x) where
    pub send_call-counts :
        (op : Operator) (js : Items) (json : Text) (w : World x) (result : TierDbDmlResult)
        → x.yyjson.write (Json.arr js) ≡ some json
        → (send_call c op json w).0 ≡ ok result
        → result.count ≡ pos (count_items js)
    send_call-counts (inserts op) js json w result e h =
        answered _ _ result _
          (λ answer root a r.
            on_conn-done x x.insert_chunk c.conn _ _ json answer js root w.outside counting.inserted
              e a r)
          (rw insert_chunk-answer at h)
    send_call-counts (deletes table op) js json w result e h =
        answered _ _ result _
          (λ answer root a r.
            on_conn-done x x.delete_chunk c.conn _ _ json answer js root w.outside counting.deleted
              e a r)
          (rw delete_chunk-answer at h)
    send_call-counts (updates table op) js json w result e h =
        answered _ _ result _
          (λ answer root a r.
            on_conn-done x x.update_chunk c.conn _ _ json answer js root w.outside counting.updated
              e a r)
          (rw update_chunk-answer at h)

    send_rows-counts :
        (op : Operator) (js : Items) (json : Text) (s : Statement x)
        → x.yyjson.write (Json.arr js) ≡ some json
        → (send_rows c (send_call c op) (some (Json.arr js)) s).0 ≡ ok tt
        → (send_rows c (send_call c op) (some (Json.arr js)) s).1.count
          ≡ (s.count + count_items js) % size_max
    unfolding written
    send_rows-counts op js json s e h =
        let (result, a, b, (d, f, g)) = chained c (send_call c op) (Json.arr js) s h in
        rw g (
          add_count-keeps (count_items js) result.count _
            (send_call-counts op js json _ result e (rw e at b)))

    unless_empty-counts :
        (size : ℕ) (body : Exec (Statement x) (Unit {0})) (s : Statement x)
        → s.count < size_max
        → ((body s).0 ≡ ok tt → (body s).1.count ≡ (s.count + size) % size_max)
        → (unless_empty size body s).0 ≡ ok tt
        → (unless_empty size body s).1.count ≡ (s.count + size) % size_max
    unfolding unless_empty
    unless_empty-counts size body s l f h = ground arith

    sink-counts :
        (op : Operator) (chunk : DataChunk) (s : Statement x)
        → s.count < size_max
        → IsReady x op chunk
        → (sink c op chunk s).0 ≡ ok tt
        → (sink c op chunk s).1.count ≡ (s.count + chunk.size) % size_max
    sink-counts op chunk s l ready h =
        let (js, e, n) = document-sized op chunk ready.fed in
        let q : x.yyjson.write (Json.arr js) ≡ some ready.json =
          ap (write_document x) (sym e) ∙ ready.is_written in
        rw (sink_lem c op chunk, e)
          (unless_empty-counts chunk.size _ s l
            (λ k. send_rows-counts op js ready.json s q k ∙ ap (λ m. (s.count + m) % size_max) n)
            (rw (sink_lem c op chunk, e) at h))

    pub sink_all-counts :
        (op : Operator) (chunks : List DataChunk) (s : Statement x)
        → s.count < size_max
        → All (IsReady x op) chunks
        → (sink_all c op chunks s).0 ≡ ok tt
        → (sink_all c op chunks s).1.count ≡ (s.count + total chunks) % size_max
    unfolding sink_all Passed
    sink_all-counts op [] s l fed h = omega arith
    sink_all-counts op (chunk ∷ chunks) s l (fed, rest) h =
        let (u, e, g, f) = bind-ok (sink c op chunk) (λ _. sink_all c op chunks) s tt h in
        let n = sink-counts op chunk s l fed e in
        rw f (sink_all-counts op chunks _ (omega (arith, n)) rest g ∙ omega (arith, n))

    get_data_internal-row :
        (op : Operator) (s : Statement x) (row : List Value)
        → (get_data_internal op s).0 ≡ ok row
        → (s.count < 2 ^ 63) × (row ≡ Value.signed bigint (pos s.count) ∷ [])
    unfolding get_data_internal
    get_data_internal-row (inserts op) s row h = ground arith
    get_data_internal-row (deletes table op) s row h = ground arith
    get_data_internal-row (updates table op) s row h = ground arith

    -- If a statement over chunks with the columns that its operator reads, whose documents yyjson can write,
    -- returns a row, where the chunks have less than 2 ^ 64 rows in all, and the Rust side counts the
    -- rows of each chunk, then they have less than 2 ^ 63 rows, and the answer is one BIGINT with
    -- exactly their number.
    pub run_operator-counts :
        (op : Operator) (chunks : List DataChunk) (σ : Session x) (row : List Value)
        → All (IsReady x op) chunks
        → total chunks < size_max
        → (run_operator c op chunks σ).0 ≡ ok row
        → (total chunks < 2 ^ 63) × (row ≡ Value.signed bigint (pos (total chunks)) ∷ [])
    unfolding run_operator Passed
    run_operator-counts op chunks σ row fed l h =
        let (u, e, g, f) =
          bind-ok (sink_all c op chunks) (λ _. get_data_internal op) (started op σ) row h in
        let z = started-count op σ in
        let n = sink_all-counts op chunks (started op σ) (omega (arith, z)) fed e in
        let (a, b) = get_data_internal-row op _ row g in
        let t : (sink_all c op chunks (started op σ)).1.count ≡ total chunks =
          omega (arith, n, z, l) in
        (omega (arith, a, t), b ∙ ap (λ k. Value.signed bigint (pos k) ∷ []) t)
