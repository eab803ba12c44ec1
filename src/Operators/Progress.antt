-- ===== src/Operators/Progress.antt =====
-- A statement whose own calls are answered without an error comes to its end: the operators of
-- src/storage/tierdb_insert.cpp, src/storage/tierdb_delete.cpp and src/storage/tierdb_update.cpp.
use tierdb_duckdb.Prelude.{
  ℕ, ◌^◌, ◌<◌, ℤ, pos, negsuc, Text, ◌≡◌, ◌≢◌, refl, sym, subst, ap, ◌∙◌, false, some, List, [],
  ◌∷◌, All, arith,
}
use tierdb_duckdb.Outcome.{Exec, ok}
use tierdb_duckdb.Platform.{Platform, Json, Items, Reply, done}
use tierdb_duckdb.Ffi.{World, into_c_string, c_str}
use tierdb_duckdb.Ffi.Entry.{on_conn}
use tierdb_duckdb.Client.{TierDbClient}
use tierdb_duckdb.Client.Decode.{decode_dml_result}
use tierdb_duckdb.Client.Served.{
  txn_begin-answer, insert_chunk-answer, delete_chunk-answer, update_chunk-answer,
}
use tierdb_duckdb.LakeDml.{execute_lake_dml}
use tierdb_duckdb.LakeDml.Accepted.{IsDone, LakeAccepted, execute_lake_dml-returned, bind-returned}
use tierdb_duckdb.Transaction.{Session, ensure_write_txn, on_world}
use tierdb_duckdb.Value.{Value, bigint}
use tierdb_duckdb.Sink.{Statement, on_session, unless_empty, add_count, send_rows}
use tierdb_duckdb.Sink.Payload.{DataChunk, written}
use tierdb_duckdb.Operators.Run.{
  Operator, inserts, deletes, updates, sink, sink_all, get_data_internal, run_operator, started,
}
use tierdb_duckdb.Operators.Shape.{
  IsReady, document, write_document, document-sized, send_call, sink_lem,
}
use tierdb_duckdb.Operators.Total.{
  total, Counting, send_call-counts, sink_all-counts, started-count,
}

module _ {x : Platform} (c : TierDbClient x) where
  -- The answer to the chunk call of an operator in the world `w`.
  abbrev pub chunk_reply : Operator → Text → World x → Reply Text
  chunk_reply (inserts op) json w =
      let s = c_str op.table.tierdb_schema.schema_name in
      let t = c_str op.table.tierdb_schema.table_name in
      (on_conn (λ k. x.insert_chunk k s t (c_str json)) c.conn w.outside).0
  chunk_reply (deletes table op) json w =
      let s = c_str table.tierdb_schema.schema_name in
      let t = c_str table.tierdb_schema.table_name in
      (on_conn (λ k. x.delete_chunk k s t (c_str json)) c.conn w.outside).0
  chunk_reply (updates table op) json w =
      let s = c_str table.tierdb_schema.schema_name in
      let t = c_str table.tierdb_schema.table_name in
      (on_conn (λ k. x.update_chunk k s t (c_str json)) c.conn w.outside).0

  -- The calls that are made for the document `json` of a chunk: the `BEGIN`, if there is no write transaction, is
  -- granted; the chunk call is answered with a document; and its lake part is accepted.
  pub record IsServed (op : Operator) (json : Text) (σ : Session x) : Type 0 where
    pub begins : σ.txn.write_active ≡ false → IsDone (on_conn x.txn_begin c.conn σ.world.outside).0
    pub answer : Text
    pub root : Json
    pub answered : chunk_reply op json (ensure_write_txn c σ).1.world ≡ done answer
    pub parsed : x.yyjson.read (into_c_string answer) ≡ some root
    pub lake :
        let result = decode_dml_result x.yyjson root in
        LakeAccepted result.attach_sql result.lake_sql
          (send_call c op json (ensure_write_txn c σ).1.world).1

  -- The calls for the chunks with rows, each in the session that the chunks before it have left.
  abbrev pub AllServed : Operator → List DataChunk → Statement x → Type 0
  AllServed op [] s = Unit
  AllServed op (chunk ∷ chunks) s =
      (chunk.size ≢ 0 → IsServed op (written (write_document x (document op chunk))) s.session)
      × AllServed op chunks (sink c op chunk s).1

  ensure_write_txn-returned :
      (σ : Session x)
      → (σ.txn.write_active ≡ false → IsDone (on_conn x.txn_begin c.conn σ.world.outside).0)
      → (ensure_write_txn c σ).0 ≡ ok tt
  unfolding ensure_write_txn
  ensure_write_txn-returned σ h = ground (arith, txn_begin-answer c σ.world, h)

  send_call-returned :
      (op : Operator) (json answer : Text) (root : Json) (w : World x)
      → chunk_reply op json w ≡ done answer
      → x.yyjson.read (into_c_string answer) ≡ some root
      → (send_call c op json w).0 ≡ ok (decode_dml_result x.yyjson root)
  send_call-returned (inserts op) json answer root w e r = rw (insert_chunk-answer, e, r)
  send_call-returned (deletes table op) json answer root w e r = rw (delete_chunk-answer, e, r)
  send_call-returned (updates table op) json answer root w e r = rw (update_chunk-answer, e, r)

  add_count-returned : (n : ℕ) (r : ℤ) (s : Statement x) → r ≡ pos n → (add_count r s).0 ≡ ok tt
  unfolding add_count
  add_count-returned n (pos m) s e = refl
  add_count-returned n (negsuc m) s e = cc

  unless_empty-returned :
      (size : ℕ) (m : Exec (Statement x) (Unit {0})) (s : Statement x)
      → (size ≢ 0 → (m s).0 ≡ ok tt)
      → (unless_empty size m s).0 ≡ ok tt
  unfolding unless_empty
  unless_empty-returned size m s h = ground (arith, h)

  get_data_internal-returned :
      (op : Operator) (n : ℕ) (s : Statement x)
      → n < 2 ^ 63
      → s.count ≡ n
      → (get_data_internal op s).0 ≡ ok (Value.signed bigint (pos n) ∷ [])
  unfolding get_data_internal
  get_data_internal-returned (inserts op) n s l e = ground arith
  get_data_internal-returned (deletes table op) n s l e = ground arith
  get_data_internal-returned (updates table op) n s l e = ground arith

  module _ (counting : Counting x) where
    send_rows-returned :
        (op : Operator) (js : Items) (json : Text) (s : Statement x)
        → x.yyjson.write (Json.arr js) ≡ some json
        → IsServed op (written (x.yyjson.write (Json.arr js))) s.session
        → (send_rows c (send_call c op) (some (Json.arr js)) s).0 ≡ ok tt
    unfolding send_rows written
    send_rows-returned op js json s e served =
        let sent = written (x.yyjson.write (Json.arr js)) in
        let s1 = (on_session (ensure_write_txn c) s).1 in
        let result = decode_dml_result x.yyjson served.root in
        let k =
          send_call-returned op sent served.answer served.root s1.session.world served.answered
            served.parsed in
        let s2 = (on_session (on_world (send_call c op sent)) s1).1 in
        let n = send_call-counts counting c op js json s1.session.world result e (
          ap (λ q. (send_call c op q s1.session.world).0) {x = json} {y = sent} (sym (ap written e))
          ∙ k) in
        bind-returned (on_session (ensure_write_txn c)) _ s tt tt
          (ensure_write_txn-returned s.session served.begins)
          (bind-returned (on_session (on_world (send_call c op sent))) _ s1 result tt k (
            bind-returned (on_session (on_world (execute_lake_dml result))) _ s2 tt tt
              (execute_lake_dml-returned result _ served.lake)
              (add_count-returned _ result.count _ n)))

    sink-returned :
        (op : Operator) (chunk : DataChunk) (s : Statement x)
        → IsReady x op chunk
        → (chunk.size ≢ 0 → IsServed op (written (write_document x (document op chunk))) s.session)
        → (sink c op chunk s).0 ≡ ok tt
    sink-returned op chunk s ready served =
        let (js, e, n) = document-sized op chunk ready.fed in
        let q : x.yyjson.write (Json.arr js) ≡ some ready.json =
          ap (write_document x) (sym e) ∙ ready.is_written in
        rw (sink_lem c op chunk, e)
          (unless_empty-returned chunk.size _ s (λ z.
            send_rows-returned op js ready.json s q
              (subst (λ d. IsServed op (written (write_document x d)) s.session) e (served z))))

    sink_all-returned :
        (op : Operator) (chunks : List DataChunk) (s : Statement x)
        → All (IsReady x op) chunks
        → AllServed op chunks s
        → (sink_all c op chunks s).0 ≡ ok tt
    unfolding sink_all
    sink_all-returned op [] s fed served = refl
    sink_all-returned op (chunk ∷ chunks) s (fed, rest) (served, later) =
        bind-returned (sink c op chunk) (λ _. sink_all c op chunks) s tt tt
          (sink-returned op chunk s fed served) (sink_all-returned op chunks _ rest later)

    -- If the calls that a statement makes for its chunks with rows are answered without an error, each in the
    -- state in which it is made (the `BEGIN`, if one is needed, and the chunk call, with a document;
    -- the attachment; each lake statement, after at most two conflicts), the Rust side counts the rows
    -- of each chunk, the chunks have the columns that the operator reads and documents that yyjson
    -- can write, and they have less than 2 ^ 63 rows in all, then the statement returns: the number
    -- of all its rows, as one BIGINT.
    pub run_operator_returns :
        (op : Operator) (chunks : List DataChunk) (σ : Session x)
        → All (IsReady x op) chunks
        → AllServed op chunks (started op σ)
        → total chunks < 2 ^ 63
        → (run_operator c op chunks σ).0 ≡ ok (Value.signed bigint (pos (total chunks)) ∷ [])
    unfolding run_operator
    run_operator_returns op chunks σ fed served l =
        let done = sink_all-returned op chunks (started op σ) fed served in
        let z = started-count op σ in
        let n = sink_all-counts counting c op chunks (started op σ) (omega (arith, z)) fed done in
        bind-returned (sink_all c op chunks) (λ _. get_data_internal op) (started op σ) tt _ done
          (get_data_internal-returned op (total chunks) _ l (omega (arith, n, z, l)))
