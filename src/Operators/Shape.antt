-- ===== src/Operators/Shape.antt =====
-- The three operators of src/storage/tierdb_insert.cpp, src/storage/tierdb_delete.cpp and src/storage/tierdb_update.cpp
-- as one: the document of a chunk, its length, and the call that sends it.
use tierdb_duckdb.Prelude.{
  none, ◌≢◌, ℕ, zero, suc, ◌≤◌, ◌<◌, Text, ◌≡◌, refl, ap, Option, some, length,
}
use tierdb_duckdb.Outcome.{Exec, ok}
use tierdb_duckdb.Platform.{Platform, Json, Items, nil, item}
use tierdb_duckdb.Ffi
use tierdb_duckdb.Ffi.{Call, World, c_str}
use tierdb_duckdb.Client
use tierdb_duckdb.Client.{TierDbClient}
use tierdb_duckdb.Client.Data.{TierDbDmlResult}
use tierdb_duckdb.Std.{size_max}
use tierdb_duckdb.Sink.{Statement, unless_empty, send_rows}
use tierdb_duckdb.Sink.Payload.{DataChunk, insert_rows, delete_rows, update_rows, written}
use tierdb_duckdb.Sink.Rows.{items_from}
use tierdb_duckdb.Sink.Documents.{insert_rows_lem, delete_rows_lem, update_rows_lem}
use tierdb_duckdb.Sink.Calls.{
  IsCall, Sent, send_sized, insert_chunk-IsCall, delete_chunk-IsCall, update_chunk-IsCall,
}
use tierdb_duckdb.Operators.Run.{Operator, inserts, deletes, updates, sink}

abbrev pub count_items : Items → ℕ
count_items nil = 0
count_items (item j js) = suc (count_items js)

count_items-items_from : (row : ℕ → Json) (n i : ℕ) → count_items (items_from row n i) ≡ n
count_items-items_from row zero i = refl
count_items-items_from row (suc n) i = ap suc (count_items-items_from row n (suc i))

-- The document for a chunk.
abbrev pub document : Operator → DataChunk → Option Json
document (inserts op) chunk = insert_rows chunk op.column_names
document (deletes table op) chunk = delete_rows chunk op.key_indexes op.key_names
document (updates table op) chunk =
    update_rows chunk op.new_value_indexes op.new_col_names op.old_key_names

-- A chunk has the columns that the operator reads.
abbrev pub IsFed : Operator → DataChunk → Type 0
IsFed (inserts op) chunk = chunk.column_count ≡ length op.column_names
IsFed (deletes table op) chunk = length op.key_indexes ≡ length op.key_names
IsFed (updates table op) chunk =
    (length op.new_value_indexes ≡ length op.new_col_names)
    × (length op.old_key_names ≤ chunk.column_count)
    × (chunk.column_count < size_max)

pub document-sized :
    (op : Operator) (chunk : DataChunk)
    → IsFed op chunk
    → (js : Items) × (document op chunk ≡ some (Json.arr js)) × (count_items js ≡ chunk.size)
document-sized (inserts op) chunk h =
    (_, insert_rows_lem chunk op.column_names h, count_items-items_from _ chunk.size 0)
document-sized (deletes table op) chunk h =
    (_, delete_rows_lem chunk op.key_indexes op.key_names h, count_items-items_from _ chunk.size 0)
document-sized (updates table op) chunk (h, l, m) = (
  _,
  update_rows_lem chunk op.new_value_indexes op.new_col_names op.old_key_names h l m,
  count_items-items_from _ chunk.size 0,
)

-- The chunk call of an operator.
abbrev pub call_of : Operator → Text → Call
call_of (inserts op) json =
    Ffi.insert_chunk (c_str op.table.tierdb_schema.schema_name)
      (c_str op.table.tierdb_schema.table_name) (c_str json)
call_of (deletes table op) json =
    Ffi.delete_chunk (c_str table.tierdb_schema.schema_name) (c_str table.tierdb_schema.table_name)
      (c_str json)
call_of (updates table op) json =
    Ffi.update_chunk (c_str table.tierdb_schema.schema_name) (c_str table.tierdb_schema.table_name)
      (c_str json)

module _ (x : Platform) where
  abbrev pub write_document : Option Json → Option Text
  write_document none = none
  write_document (some doc) = x.yyjson.write doc

  -- A chunk that is fed to an operator, and whose document yyjson can write: it writes no NaN and no infinity.
  pub record IsReady (op : Operator) (chunk : DataChunk) : Type 0 where
    pub fed : IsFed op chunk
    pub json : Text
    pub is_written : write_document (document op chunk) ≡ some json

module _ {x : Platform} where
  abbrev pub send_call : TierDbClient x → Operator → Text → Exec (World x) TierDbDmlResult
  send_call c (inserts op) =
      Client.insert_chunk c op.table.tierdb_schema.schema_name op.table.tierdb_schema.table_name
  send_call c (deletes table op) =
      Client.delete_chunk c table.tierdb_schema.schema_name table.tierdb_schema.table_name
  send_call c (updates table op) =
      Client.update_chunk c table.tierdb_schema.schema_name table.tierdb_schema.table_name

  -- The three `Sink` functions are one.
  pub sink_lem :
      (c : TierDbClient x) (op : Operator) (chunk : DataChunk)
      → sink c op chunk ≡ unless_empty chunk.size (send_rows c (send_call c op) (document op chunk))
  unfolding sink
  sink_lem c (inserts op) chunk = refl
  sink_lem c (deletes table op) chunk = refl
  sink_lem c (updates table op) chunk = refl

  pub send_call-IsCall :
      (c : TierDbClient x) (op : Operator) (json : Text)
      → IsCall (call_of op json) (send_call c op json)
  send_call-IsCall c (inserts op) json = insert_chunk-IsCall c _ _ json
  send_call-IsCall c (deletes table op) json = delete_chunk-IsCall c _ _ json
  send_call-IsCall c (updates table op) json = update_chunk-IsCall c _ _ json

  -- If the sink of an operator returns for a chunk with rows, then the write transaction is open, with one
  -- `BEGIN` for it if there was none, the document of the chunk was sent in one call of the operator's
  -- kind, the lake part of the answer ran after it, and the count has grown by the rows that the
  -- answer reports.
  pub sink-Sent :
      (c : TierDbClient x) (op : Operator) (chunk : DataChunk) (doc : Json) (s : Statement x)
      → chunk.size ≢ 0
      → document op chunk ≡ some doc
      → (sink c op chunk s).0 ≡ ok tt
      → let json = written (x.yyjson.write doc) in
        Sent c (send_call c op json) (call_of op json) s (sink c op chunk s).1
  sink-Sent c op chunk doc s n e h = rw (sink_lem c op chunk) (
      send_sized c (send_call c op) chunk.size (document op chunk) doc
        (call_of op (written (x.yyjson.write doc))) s n e (send_call-IsCall c op _)
        (rw (sink_lem c op chunk) at h))
