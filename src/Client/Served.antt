-- ===== src/Client/Served.antt =====
-- The methods of `TierDBClient` in src/storage/tierdb_client.cpp without pointers: one call, and what its answer means.
use tierdb_duckdb.Prelude.{
  suc, ℤ, Text, text, ◌≡◌, refl, Option, none, some, ◌∷◌, arith, if◌then◌else◌,
}
use tierdb_duckdb.Outcome.{Outcome, ok, throw, io_exception, ◌>>=◌, ◌>>◌, pure}
use tierdb_duckdb.Platform.{Platform, Json, StringUtil, Reply, done, failed}
use tierdb_duckdb.Ffi
use tierdb_duckdb.Ffi.{
  Call, World, into_c_string, c_str, string_at, status, string_result, tierdb_free_string,
}
use tierdb_duckdb.Ffi.Strings.{Heap, alloc, load-alloc, release-alloc}
use tierdb_duckdb.Ffi.Entry.{
  on_conn, tierdb_list_tables, tierdb_table_schema, tierdb_acquire_read_scan,
  tierdb_release_read_pin, tierdb_txn_begin, tierdb_txn_commit, tierdb_txn_rollback,
  tierdb_insert_chunk, tierdb_delete_chunk, tierdb_update_chunk,
}
use tierdb_duckdb.Client.Data.{TierDbTableSchema, TierDbDmlResult}
use tierdb_duckdb.Client.Decode.{
  table_refs, decode_table_schema, decode_pinned_scan, decode_dml_result,
}
use tierdb_duckdb.Client.{
  TierDbClient, tierdb_error, parse_error, take_error, check, read_value, decoded, schema_reply,
  list_tables, try_get_table_schema, acquire_read_scan, release_read_pin, txn_begin, txn_commit,
  txn_rollback, insert_chunk, delete_chunk, update_chunk,
}

-- The heap after a string came and went.
abbrev pub passed : Heap → Heap
passed h = record { live = h.live; next = suc h.next }

abbrev pub io_error {ℓ} : {A : Type ℓ} → Text → Outcome A
io_error message = throw (record { kind = io_exception; message = message })

-- What a document that could, or could not, be read means.
abbrev pub decode_or {ℓ} : {A : Type ℓ} → Text → (Json → A) → Option Json → Outcome A
decode_or message decode none = io_error message
decode_or message decode (some root) = ok (decode root)

-- What an error string of `tierdb_table_schema` means: an unregistered table is no exception.
abbrev pub missing_or_thrown : StringUtil → Text → Outcome (Option TierDbTableSchema)
missing_or_thrown u message =
    if u.contains message (text "not registered") then ok none else io_error (tierdb_error message)

module _ {x : Platform} where
  -- The world after the call `k` led to the outside state `st`.
  abbrev pub called : Call → x.State → World x → World x
  called k st w = record w { outside = st; history = k ∷ w.history }

  abbrev pub with_string : World x → World x
  with_string w = record w { heap = passed w.heap }

  abbrev pub answer_status : Reply (Unit {0}) → World x → Outcome (Unit {0}) × World x
  answer_status (done _) w = (ok tt, w)
  answer_status (failed e) w = (io_error (tierdb_error (into_c_string e)), with_string w)

  -- `decode` decides what a string means to the method.
  abbrev pub answer_string :
      {A : Type 0} → (Text → Outcome A) → Reply Text → World x → Outcome A × World x
  answer_string decode (done s) w = (decode (into_c_string s), with_string w)
  answer_string decode (failed e) w = (io_error (tierdb_error (into_c_string e)), with_string w)

  pub take_error_lem :
      (s : Text) (w : World x)
      → take_error (some (alloc s w.heap).0) (record w { heap = (alloc s w.heap).1 })
        ≡ (ok s, with_string w)
  unfolding take_error string_at tierdb_free_string
  take_error_lem s w = rw (load-alloc, release-alloc)

  status-check :
      (r : Reply (Unit {0})) (w : World x)
      → (status r >>= λ res. check res.err) w ≡ answer_status r w
  unfolding check status
  status-check (done u) w = refl
  status-check (failed e) w = rw (take_error_lem (into_c_string e) w)

  pub txn_begin-answer :
      (c : TierDbClient x) (w : World x)
      → let r = on_conn x.txn_begin c.conn w.outside in
        txn_begin c w ≡ answer_status r.0 (called Ffi.txn_begin r.1 w)
  unfolding txn_begin tierdb_txn_begin
  txn_begin-answer c w = status-check _ _

  pub txn_commit-answer :
      (c : TierDbClient x) (w : World x)
      → let r = on_conn x.txn_commit c.conn w.outside in
        txn_commit c w ≡ answer_status r.0 (called Ffi.txn_commit r.1 w)
  unfolding txn_commit tierdb_txn_commit
  txn_commit-answer c w = status-check _ _

  pub txn_rollback-answer :
      (c : TierDbClient x) (w : World x)
      → let r = on_conn x.txn_rollback c.conn w.outside in
        txn_rollback c w ≡ answer_status r.0 (called Ffi.txn_rollback r.1 w)
  unfolding txn_rollback tierdb_txn_rollback
  txn_rollback-answer c w = status-check _ _

  pub release_read_pin-answer :
      (c : TierDbClient x) (pin_id : ℤ) (w : World x)
      → let r = on_conn (λ k. x.release_read_pin k pin_id) c.conn w.outside in
        release_read_pin c pin_id w ≡ answer_status r.0 (called (Ffi.release_read_pin pin_id) r.1 w)
  unfolding release_read_pin tierdb_release_read_pin
  release_read_pin-answer c pin_id w = status-check _ _

  decoded-alloc :
      {A : Type 0} (s message : Text) (decode : Json → A) (doc : Option Json) (w : World x)
      → decoded
          (some (alloc s w.heap).0)
          message
          decode
          doc
          (record w { heap = (alloc s w.heap).1 })
        ≡ (decode_or message decode doc, with_string w)
  unfolding decoded tierdb_free_string
  decoded-alloc s message decode none w = rw release-alloc
  decoded-alloc s message decode (some root) w = rw release-alloc

  string-decoded :
      {A : Type 0} (message : Text) (decode : Json → A) (r : Reply Text) (w : World x)
      → (do
        res ← string_result r
        check res.err
        doc ← read_value res.value
        decoded res.value message decode doc)
          w
        ≡ answer_string (λ s. decode_or message decode (x.yyjson.read s)) r w
  unfolding check string_result read_value string_at
  string-decoded message decode (done s) w =
      rw load-alloc (decoded-alloc (into_c_string s) message decode _ w)
  string-decoded message decode (failed e) w = rw (take_error_lem (into_c_string e) w)

  pub acquire_read_scan-answer :
      (c : TierDbClient x) (s t : Text) (w : World x)
      → let r = on_conn (λ k. x.acquire_read_scan k (c_str s) (c_str t)) c.conn w.outside in
        acquire_read_scan c s t w
        ≡ answer_string
            (λ answer.
              decode_or
                (parse_error (text "pinned scan") s t)
                (decode_pinned_scan x.yyjson)
                (x.yyjson.read answer))
            r.0
            (called (Ffi.acquire_read_scan (c_str s) (c_str t)) r.1 w)
  unfolding acquire_read_scan tierdb_acquire_read_scan
  acquire_read_scan-answer c s t w = string-decoded _ _ _ _

  abbrev pub dml_answer : Reply Text → World x → Outcome TierDbDmlResult × World x
  dml_answer = answer_string (λ answer.
      decode_or (text "tierdb: could not parse DML result") (decode_dml_result x.yyjson)
        (x.yyjson.read answer))

  pub insert_chunk-answer :
      (c : TierDbClient x) (s t rows : Text) (w : World x)
      → let r = on_conn (λ k. x.insert_chunk k (c_str s) (c_str t) (c_str rows)) c.conn w.outside in
        insert_chunk c s t rows w
        ≡ dml_answer r.0 (called (Ffi.insert_chunk (c_str s) (c_str t) (c_str rows)) r.1 w)
  unfolding insert_chunk tierdb_insert_chunk
  insert_chunk-answer c s t rows w = string-decoded _ _ _ _

  pub delete_chunk-answer :
      (c : TierDbClient x) (s t rows : Text) (w : World x)
      → let r = on_conn (λ k. x.delete_chunk k (c_str s) (c_str t) (c_str rows)) c.conn w.outside in
        delete_chunk c s t rows w
        ≡ dml_answer r.0 (called (Ffi.delete_chunk (c_str s) (c_str t) (c_str rows)) r.1 w)
  unfolding delete_chunk tierdb_delete_chunk
  delete_chunk-answer c s t rows w = string-decoded _ _ _ _

  pub update_chunk-answer :
      (c : TierDbClient x) (s t rows : Text) (w : World x)
      → let r = on_conn (λ k. x.update_chunk k (c_str s) (c_str t) (c_str rows)) c.conn w.outside in
        update_chunk c s t rows w
        ≡ dml_answer r.0 (called (Ffi.update_chunk (c_str s) (c_str t) (c_str rows)) r.1 w)
  unfolding update_chunk tierdb_update_chunk
  update_chunk-answer c s t rows w = string-decoded _ _ _ _

  listed :
      (r : Reply Text) (v : World x)
      → (do
        res ← string_result r
        check res.err
        doc ← read_value res.value
        tierdb_free_string res.value
        pure (table_refs x.yyjson doc))
          v
        ≡ answer_string (λ answer. ok (table_refs x.yyjson (x.yyjson.read answer))) r v
  unfolding check string_result read_value string_at tierdb_free_string
  listed (done s) v = rw (load-alloc, release-alloc)
  listed (failed e) v = rw (take_error_lem (into_c_string e) v)

  pub list_tables-answer :
      (c : TierDbClient x) (w : World x)
      → let r = on_conn x.list_tables c.conn w.outside in
        list_tables c w
        ≡ answer_string
            (λ answer. ok (table_refs x.yyjson (x.yyjson.read answer)))
            r.0
            (called Ffi.list_tables r.1 w)
  unfolding list_tables tierdb_list_tables
  list_tables-answer c w = listed _ _

  -- `TryGetTableSchema`: `ok none` stands for the result `false`.
  abbrev pub schema_answer :
      Text → Text → Reply Text → World x → Outcome (Option TierDbTableSchema) × World x
  schema_answer s t (done answer) w = (
    decode_or (parse_error (text "table schema") s t)
        (λ root. some (decode_table_schema x.yyjson root)) (x.yyjson.read (into_c_string answer)),
    with_string w,
  )
  schema_answer s t (failed e) w =
      (missing_or_thrown x.string_util (into_c_string e), with_string w)

  schema-answer :
      (s t : Text) (r : Reply Text) (w : World x)
      → (string_result r >>= λ res. schema_reply s t res res.err) w ≡ schema_answer s t r w
  unfolding schema_reply string_result string_at
  schema-answer s t (done answer) w = rw (load-alloc, decoded-alloc) (ground arith)
  schema-answer s t (failed e) w = rw (take_error_lem (into_c_string e) w) (ground arith)

  pub try_get_table_schema-answer :
      (c : TierDbClient x) (s t : Text) (w : World x)
      → let r = on_conn (λ k. x.table_schema k (c_str s) (c_str t)) c.conn w.outside in
        try_get_table_schema c s t w
        ≡ schema_answer s t r.0 (called (Ffi.table_schema (c_str s) (c_str t)) r.1 w)
  unfolding try_get_table_schema tierdb_table_schema
  try_get_table_schema-answer c s t w = schema-answer s t _ _
