-- ===== src/Tests/Chunked.antt =====
-- Chunks on the Rust side with the crates made concrete: tierdb-core-ffi/src/write.rs.
use tierdb_duckdb.Prelude.{
  ℕ, ◌+◌, ◌*◌, ◌-◌, ℤ, pos, Text, text, text_eq, text_eq_refl, ◌≡◌, refl, ap, ◌∙◌, Bool, true,
  false, none, some, List, [], ◌∷◌, map, leb, arith,
}
use tierdb_duckdb.Platform.{Json, Items, nil, item, end, field, items, done, failed}
use tierdb_duckdb.Sink.Payload.{update_rows}
use tierdb_duckdb.Wire.{TableSchema}
use tierdb_duckdb.Rust.{chain}
use tierdb_duckdb.Chunks.{Crates, Scalar, ColdSink, delta, lake, InsertPlan, DeletePlan, Cutline}
use tierdb_duckdb.Chunks.Entry.{
  Prepared, prepare, insert_chunk, delete_chunk, update_chunk, split_loop,
}
use tierdb_duckdb.Chunks.Order.{insert_chunk_lem, update_chunk_lem}
use tierdb_duckdb.Chunks.Split.{Reads, update_rows-split_loop}
use tierdb_duckdb.Tests.Fixture.{obj_get, elements}
use tierdb_duckdb.Tests.Rows.{rows}

pub scalar : Json → Scalar
scalar Json.null = Scalar.null
scalar (Json.str s) = Scalar.string s
scalar _ = Scalar.other []

pub decimal : ℕ → Text → ℕ
decimal n [] = n
decimal n (c ∷ s) = decimal (10 * n + (c - b'0')) s

pub reaches : ℤ → ℤ → Bool
reaches (pos n) (pos t) = leb t n
reaches _ _ = false

pub planned_insert : ColdSink → Bool → InsertPlan
planned_insert sink true = record { cold = none; check_retention = false; to_heap = true }
planned_insert sink false = record { cold = some sink; check_retention = true; to_heap = false }

pub planned_delete : ColdSink → Bool → DeletePlan
planned_delete sink true = record {
  cold = none;
  check_retention = false;
  from_heap = true;
  heap_floor = true;
}
planned_delete sink false = record {
  cold = some sink;
  check_retention = true;
  from_heap = false;
  heap_floor = false;
}

pub member : Text → Json → Json → Json
member key v (Json.obj fs) = Json.obj (field key v fs)
member key v j = j

pub object : Json → Bool
object (Json.obj fs) = true
object _ = false

abbrev pub sales : TableSchema
sales = record {
  table_id = pos 4;
  schema_name = text "public";
  table_name = text "sales";
  lake_format = text "iceberg";
  lake_table_ref = text "w.sales";
  tier_key_col = text "ts";
  tier_key_type = text "bigint";
  primary_key_cols = text "id" ∷ [];
  columns = (text "id", text "text") ∷ (text "ts", text "bigint") ∷ [];
  mode = text "tiered";
  keep_heap = false;
  heap_retention_lag = none;
  lake_retention_lag = none;
  storage_profile = text "default";
}

-- A session is the list of its statements, the latest first. Keys from 100 on are hot.
abbrev pub crates_of : List Json → ColdSink → Crates
crates_of parsed sink = record {
  Value = Json;
  Client = List Text;
  execute = λ sql params log. (done tt, sql ∷ log);
  null_value = Json.null;
  empty_object = Json.obj end;
  is_object = object;
  insert = member;
  get = obj_get;
  scalar = scalar;
  from_str = λ s. failed (text "no document");
  rows_from_str = λ s. done parsed;
  Mode = ColdSink;
  RouteTarget = Bool;
  LakeCatalog = Text;
  mode_from_catalog = λ mode keep lag. done sink;
  is_direct = λ mode. false;
  plan_insert = planned_insert;
  plan_delete = planned_delete;
  hot = true;
  route = λ key c. reaches key c.tier_key_hi;
  retention_rejects = λ key line. false;
  encode_text = λ ty s. done (pos (decimal 0 s));
  pg_literal = λ ty key. text "100";
  encode_pk = λ vals. [];
  lake_row_tuple = λ row columns. [];
  delta_write_sql = text "DELTA";
  delta_op_upsert = pos 0;
  delta_op_tombstone = pos 1;
  heap_insert_from_jsonb_sql = λ schema table. text "HEAP INSERT";
  heap_delete_by_pk_sql = λ schema table pk floor. text "HEAP DELETE";
  lake_commit_lock_sql = text "LOCK";
  attach_sql = λ c. c;
  alias = λ c. c;
  lake_upsert = λ dsn meta cold tuples. done (text "UPSERT" ∷ []);
  lake_delete = λ dsn meta cold tuples line. done (text "DELETE");
  trim = λ s. s;
  table_schema = λ schema table log. (done sales, log);
  cutline =
      λ id log. (done (some (record { tier_key_hi = pos 100; lake_snapshot_id = pos 7 })), log);
  retention_line = λ id log. (done none, log);
  lake_catalog = λ ts log. (done none, log);
}

abbrev row : Text → Text → Json
row id ts = Json.obj (field (text "id") (Json.str id) (field (text "ts") (Json.str ts) end))

abbrev inserted : List Json
inserted = row (text "a") (text "150") ∷ row (text "b") (text "20") ∷ []

abbrev moved : List Json
moved =
    Json.obj (
      field (text "old") (row (text "a") (text "150"))
        (field (text "new") (row (text "a") (text "20")) end))
    ∷ []

abbrev prepared : (parsed : List Json) → Prepared (crates_of parsed delta)
prepared parsed = record {
  ts = sales;
  mode = delta;
  cutline = some (record { tier_key_hi = pos 100; lake_snapshot_id = pos 7 });
  retention = none;
  catalog = none;
  meta = record {
    schema = text "public";
    name = text "sales";
    columns = sales.columns;
    pk_cols = sales.primary_key_cols;
    lake_table_ref = some (text "w.sales");
    catalog = none;
  };
}

prepared_lem :
    (parsed : List Json)
    → prepare (crates_of parsed delta) (text "public") (text "sales") []
      ≡ (done (prepared parsed), [])
unfolding prepare
prepared_lem parsed = refl

insert_chunk_lem_example :
    insert_chunk
      (crates_of inserted delta)
      (text "host=h")
      (text "public")
      (text "sales")
      (text "[]")
      []
    ≡ (
      done (record { count = pos 2; attach_sql = none; lake_sql = [] }),
      text "DELTA" ∷ text "HEAP INSERT" ∷ [],
    )
unfolding tierdb_duckdb.Chunks.Steps.perform tierdb_duckdb.Chunks.Row.tier_key obj_get
    tierdb_duckdb.Chunks.Row.normalize_json_columns object text_eq scalar
    tierdb_duckdb.Chunks.Row.rejected planned_insert tierdb_duckdb.Chunks.Row.target reaches decimal
    tierdb_duckdb.Chunks.Row.pk_vals tierdb_duckdb.Chunks.Entry.attach_of
insert_chunk_lem_example =
    insert_chunk_lem (crates_of inserted delta) (text "host=h") (text "public") (text "sales")
      (text "[]") [] [] (prepared inserted) inserted (prepared_lem inserted) refl

split_moved :
    split_loop (crates_of moved delta) moved [] []
    ≡ done (row (text "a") (text "150") ∷ [], row (text "a") (text "20") ∷ [])
unfolding split_loop obj_get text_eq
split_moved = refl

-- A row that moves from the heap to the cold side.
update_chunk_lem_example :
    update_chunk
      (crates_of moved delta)
      (text "host=h")
      (text "public")
      (text "sales")
      (text "[]")
      []
    ≡ (
      done (record { count = pos 1; attach_sql = none; lake_sql = [] }),
      text "DELTA" ∷ text "HEAP DELETE" ∷ [],
    )
unfolding tierdb_duckdb.Chunks.Steps.perform tierdb_duckdb.Chunks.Delete.pk_columns text_eq
    tierdb_duckdb.Chunks.Row.tier_key obj_get scalar tierdb_duckdb.Chunks.Row.pk_vals
    tierdb_duckdb.Chunks.Row.rejected planned_delete tierdb_duckdb.Chunks.Row.target reaches decimal
    tierdb_duckdb.Chunks.Row.normalize_json_columns object planned_insert
    tierdb_duckdb.Chunks.Entry.attach_of
update_chunk_lem_example =
    update_chunk_lem (crates_of moved delta) (text "host=h") (text "public") (text "sales")
      (text "[]") [] [] (prepared moved) moved (row (text "a") (text "150") ∷ [])
      (row (text "a") (text "20") ∷ []) (prepared_lem moved) refl split_moved

abbrev pair_of_rows : Json
pair_of_rows = Json.obj (
    field (text "old") (Json.obj (field (text "id") (Json.str (text "v")) end))
      (field (text "new") (Json.obj (field (text "qty") (Json.str (text "v")) end)) end))

abbrev pairs : List Json
pairs = pair_of_rows ∷ pair_of_rows ∷ []

abbrev pairs_doc : Json
pairs_doc = Json.arr (item pair_of_rows (item pair_of_rows nil))

reads : Reads (crates_of pairs delta)
unfolding obj_get text_eq
reads = record {
  value = λ j. j;
  first = λ a b u v h. rw (text_eq_refl a) refl;
  second = λ a b u v h. rw (h, text_eq_refl b) refl;
}

sent : update_rows rows (0 ∷ []) (text "qty" ∷ []) (text "id" ∷ []) ≡ some pairs_doc
unfolding update_rows tierdb_duckdb.Ffi.c_str
sent = refl

same : (js : List Json) → js ≡ map (λ j. j) js
same [] = refl
same (j ∷ js) = ap (λ ks. j ∷ ks) (same js)

read_back : (js : Items) → pairs_doc ≡ Json.arr js → done pairs ≡ done (map (λ j. j) (items js))
unfolding elements
read_back js h = ap done (ap elements h ∙ same (items js))

update_rows-split_loop_example :
    chain (done pairs) (λ ps. split_loop (crates_of pairs delta) ps [] [])
    ≡ done (
      Json.obj (field (text "id") (Json.str (text "v")) end)
          ∷ Json.obj (field (text "id") (Json.str (text "v")) end)
          ∷ [],
      Json.obj (field (text "qty") (Json.str (text "v")) end)
          ∷ Json.obj (field (text "qty") (Json.str (text "v")) end)
          ∷ [],
    )
unfolding reads tierdb_duckdb.Ffi.c_str tierdb_duckdb.Value.value_to_json
update_rows-split_loop_example =
    update_rows-split_loop reads rows (0 ∷ []) (text "qty" ∷ []) (text "id" ∷ []) pairs_doc
      (text "[]") refl (omega arith) (omega arith) sent read_back
