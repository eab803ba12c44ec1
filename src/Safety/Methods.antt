-- ===== src/Safety/Methods.antt =====
-- The strings of the C ABI in the methods of `TierDBClient` and in the lake statements of
-- src/storage/tierdb_client.cpp.
use tierdb_duckdb.Prelude.{
  ℤ, Text, text, ◌≡◌, refl, ap, ◌≢◌, Option, none, some, List, [], ◌∷◌, inl, inr, arith,
}
use tierdb_duckdb.Outcome.{Outcome, Exec, ok, fault}
use tierdb_duckdb.Platform.{Platform, Json, Reply, done, failed}
use tierdb_duckdb.Ffi.{Call, World, into_c_string}
use tierdb_duckdb.Client
use tierdb_duckdb.Client.{TierDbClient, parse_error}
use tierdb_duckdb.Client.Data.{TierDbDmlResult}
use tierdb_duckdb.Client.Decode.{table_refs, decode_pinned_scan, decode_dml_result}
use tierdb_duckdb.Client.Served.{
  called, answer_status, answer_string, schema_answer, decode_or, list_tables-answer,
  try_get_table_schema-answer, acquire_read_scan-answer, release_read_pin-answer, txn_begin-answer,
  txn_commit-answer, txn_rollback-answer, insert_chunk-answer, delete_chunk-answer,
  update_chunk-answer,
}
use tierdb_duckdb.LakeDml.{
  execute_lake_dml, execute, attach_first, fresh_connection, run_on_fresh_connection, run_query,
  raise_if_failed, run_statements,
}
use tierdb_duckdb.LakeDml.Order.{run_statements-Executed}
use tierdb_duckdb.Safety.{Strings, Safe, Safe-pure, Safe-raise, Safe-state, Safe-bind}

ok-ne-fault : {A : Type 0} (a : A) → ok a ≢ fault
ok-ne-fault a h = cc

decode_or-ne-fault :
    {A : Type 0} (message : Text) (decode : Json → A) (doc : Option Json)
    → decode_or message decode doc ≢ fault
decode_or-ne-fault message decode none = λ h. cc
decode_or-ne-fault message decode (some root) = λ h. cc

abbrev dml_message : Text
dml_message = text "tierdb: could not parse DML result"

module _ {x : Platform} where
  abbrev pub world_strings : World x → Strings
  world_strings w = w.heap.live

  -- What `Safe` asks of one run.
  abbrev Ends : {A : Type 0} → World x → Outcome A × World x → Type 0
  Ends w o = (o.0 ≢ fault) × (o.1.heap.live ≡ w.heap.live)

  Safe-by :
      {A : Type 0} (m : Exec (World x) A) → ((w : World x) → Ends w (m w)) → Safe world_strings m
  Safe-by m h = record { no_fault = λ w. (h w).0; frees = λ w. (h w).1 }

  answer_status-Ends : (r : Reply (Unit {0})) (w : World x) → Ends w (answer_status r w)
  answer_status-Ends (done u) w = ((λ h. cc), refl)
  answer_status-Ends (failed e) w = ((λ h. cc), refl)

  answer_string-Ends :
      {A : Type 0} (decode : Text → Outcome A) (r : Reply Text) (w : World x)
      → ((s : Text) → decode s ≢ fault)
      → Ends w (answer_string decode r w)
  answer_string-Ends decode (done s) w h = (h (into_c_string s), refl)
  answer_string-Ends decode (failed e) w h = ((λ q. cc), refl)

  -- A method that answers with a document.
  Safe-document :
      {A : Type 0} (m : Exec (World x) A) (message : Text) (decode : Json → A) (k : Call)
      (r : World x → Reply Text × x.State)
      → ((w : World x)
          → m w
            ≡ answer_string
                (λ s. decode_or message decode (x.yyjson.read s))
                (r w).0
                (called k (r w).1 w))
      → Safe world_strings m
  Safe-document m message decode k r h = Safe-by m (λ w. rw h (
      answer_string-Ends (λ s. decode_or message decode (x.yyjson.read s)) (r w).0
        (called k (r w).1 w) (λ a. decode_or-ne-fault message decode (x.yyjson.read a))))

  schema_answer-Ends : (s t : Text) (r : Reply Text) (w : World x) → Ends w (schema_answer s t r w)
  schema_answer-Ends s t (done a) w = (decode_or-ne-fault _ _ _, refl)
  schema_answer-Ends s t (failed e) w = ((λ h. ground arith), refl)

  module _ (c : TierDbClient x) where
    -- Each method of the client, on every answer.
    pub record ClientSafe : Type 0 where
      pub list_tables : Safe world_strings (Client.list_tables c)
      pub try_get_table_schema :
          (s t : Text) → Safe world_strings (Client.try_get_table_schema c s t)
      pub acquire_read_scan : (s t : Text) → Safe world_strings (Client.acquire_read_scan c s t)
      pub release_read_pin : (pin_id : ℤ) → Safe world_strings (Client.release_read_pin c pin_id)
      pub txn_begin : Safe world_strings (Client.txn_begin c)
      pub txn_commit : Safe world_strings (Client.txn_commit c)
      pub txn_rollback : Safe world_strings (Client.txn_rollback c)
      pub insert_chunk : (s t rows : Text) → Safe world_strings (Client.insert_chunk c s t rows)
      pub delete_chunk : (s t rows : Text) → Safe world_strings (Client.delete_chunk c s t rows)
      pub update_chunk : (s t rows : Text) → Safe world_strings (Client.update_chunk c s t rows)

    -- Every method of the client, whatever the call answers and with every unreadable document, reads and
    -- frees only strings that are allocated, and frees each string that its call allocated, once.
    pub client_safe : ClientSafe
    client_safe = record {
      list_tables = Safe-by _ (λ w.
          rw list_tables-answer
            (answer_string-Ends _ _ _ (λ a. ok-ne-fault (table_refs x.yyjson (x.yyjson.read a)))));
      try_get_table_schema =
          λ s t. Safe-by _ (λ w. rw try_get_table_schema-answer (schema_answer-Ends _ _ _ _));
      acquire_read_scan = λ s t.
          Safe-document _ (parse_error (text "pinned scan") s t) (decode_pinned_scan x.yyjson) _ _
            (acquire_read_scan-answer c s t);
      release_read_pin = λ p. Safe-by _ (λ w. rw release_read_pin-answer (answer_status-Ends _ _));
      txn_begin = Safe-by _ (λ w. rw txn_begin-answer (answer_status-Ends _ _));
      txn_commit = Safe-by _ (λ w. rw txn_commit-answer (answer_status-Ends _ _));
      txn_rollback = Safe-by _ (λ w. rw txn_rollback-answer (answer_status-Ends _ _));
      insert_chunk = λ s t r.
          Safe-document _ dml_message (decode_dml_result x.yyjson) _ _
            (insert_chunk-answer c s t r);
      delete_chunk = λ s t r.
          Safe-document _ dml_message (decode_dml_result x.yyjson) _ _
            (delete_chunk-answer c s t r);
      update_chunk = λ s t r.
          Safe-document _ dml_message (decode_dml_result x.yyjson) _ _
            (update_chunk-answer c s t r);
    }

  fresh_connection-Safe : Safe world_strings (fresh_connection {x = x})
  unfolding fresh_connection
  fresh_connection-Safe = Safe-state world_strings _ _ (λ w. refl)

  raise_if_failed-Safe :
      (what : Text) (r : Reply x.QueryResult) → Safe world_strings (raise_if_failed what r)
  unfolding raise_if_failed
  raise_if_failed-Safe what (done q) = Safe-pure world_strings tt
  raise_if_failed-Safe what (failed e) = Safe-raise world_strings _ _

  run_query-Safe : (con : x.Connection) (sql : Text) → Safe world_strings (run_query con sql)
  unfolding run_query
  run_query-Safe con sql = Safe-state world_strings _ _ (λ w. refl)

  run_statements-Safe :
      (con : x.Connection) (sqls : List Text) → Safe world_strings (run_statements con sqls)
  run_statements-Safe con sqls = Safe-by _ (λ w.
      let ex = run_statements-Executed con sqls w in
      (
        elim ex.ending [ inl (h, g) ↦ (λ k. cc) | inr (e, h, g) ↦ (λ k. cc) ],
        ap (λ h. h.live) ex.heap,
      ))

  attach_first-Safe : (sql : Text) → Safe world_strings (attach_first {x = x} sql)
  unfolding attach_first run_on_fresh_connection
  attach_first-Safe [] = Safe-pure world_strings tt
  attach_first-Safe (c ∷ sql) = Safe-bind world_strings _ _ fresh_connection-Safe (λ con.
      Safe-bind world_strings _ _ (run_query-Safe con (c ∷ sql))
        (λ r. raise_if_failed-Safe (text "lake catalog attach") r))

  execute-Safe :
      (attach : Text) (sqls : List Text) → Safe world_strings (execute {x = x} attach sqls)
  unfolding execute
  execute-Safe attach [] = Safe-pure world_strings tt
  execute-Safe attach (sql ∷ rest) = Safe-bind world_strings _ _ (attach_first-Safe attach) (λ u.
      Safe-bind world_strings _ _ fresh_connection-Safe
        (λ con. run_statements-Safe con (sql ∷ rest)))

  -- The lake part of a chunk ends with a result or an exception, and leaves the strings alone.
  pub execute_lake_dml-Safe :
      (dml : TierDbDmlResult) → Safe world_strings (execute_lake_dml {x = x} dml)
  unfolding execute_lake_dml
  execute_lake_dml-Safe dml = execute-Safe dml.attach_sql dml.lake_sql
