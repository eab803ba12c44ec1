-- ===== src/Sink/Payload.antt =====
-- The JSON that a DML chunk becomes: `ChunkToJsonArray` of src/storage/tierdb_insert.cpp, `KeysToJsonArray` of
-- src/storage/tierdb_delete.cpp and the loop of `Sink` in src/storage/tierdb_update.cpp.
use tierdb_duckdb.Prelude.{
  ℕ, zero, suc, ◌+◌, ◌%◌, Text, text, Option, none, some, List, length, get_elem?,
}
use tierdb_duckdb.Platform.{Json, Items, Fields, nil, end, field}
use tierdb_duckdb.Std.{size_max, size_sub}
use tierdb_duckdb.Value.{Value, append_item, add_cell}

-- DuckDB's `DataChunk`: its measures, and `GetValue(column, row)`.
pub record DataChunk : Type 0 where
  pub column_count : ℕ
  pub size : ℕ
  pub get_value : ℕ → ℕ → Value

-- One `TierDBAddCell`, with the key and the value that the vectors hold; `none` is a read past the end
-- of a vector.
unfoldable pub add_named : Fields → Option Text → Option Value → Option Fields
unfolding add_cell
add_named o (some name) (some v) = some (add_cell o name v)
add_named o none v = none
add_named o (some name) none = none

-- The loop over the columns of a row: `todo` of them from column `i` on.
unfoldable pub cell_loop :
    (ℕ → Option Text) → (ℕ → Option Value) → ℕ → ℕ → Option Fields → Option Fields
unfolding add_named
cell_loop names values zero i o = o
cell_loop names values (suc todo) i none = none
cell_loop names values (suc todo) i (some o) =
    cell_loop names values todo (suc i) (add_named o (names i) (values i))

unfoldable pub as_object : Option Fields → Option Json
as_object none = none
as_object (some fs) = some (Json.obj fs)

unfoldable pub append_row : Items → Option Json → Option Items
unfolding append_item
append_row root none = none
append_row root (some row) = some (append_item root row)

-- The loop over the rows: `todo` of them from row `i` on.
unfoldable pub row_loop : (ℕ → Option Json) → ℕ → ℕ → Option Items → Option Items
unfolding append_row
row_loop row_json zero i root = root
row_loop row_json (suc todo) i none = none
row_loop row_json (suc todo) i (some root) =
    row_loop row_json todo (suc i) (append_row root (row_json i))

unfoldable pub as_array : Option Items → Option Json
as_array none = none
as_array (some root) = some (Json.arr root)

-- The value in the column that the `i`th position names.
unfoldable pub value_at : DataChunk → ℕ → Option ℕ → Option Value
value_at chunk row none = none
value_at chunk row (some col) = some (chunk.get_value col row)

-- The document of `ChunkToJsonArray`.
unfoldable pub insert_rows : DataChunk → List Text → Option Json
unfolding cell_loop as_object row_loop as_array value_at
insert_rows chunk column_names =
    let row_json = λ (row : ℕ). as_object (
      cell_loop (get_elem? column_names) (λ col. value_at chunk row (some col)) chunk.column_count 0
        (some end)) in
    as_array (row_loop row_json chunk.size 0 (some nil))

-- The document of `KeysToJsonArray`.
unfoldable pub delete_rows : DataChunk → List ℕ → List Text → Option Json
unfolding cell_loop as_object row_loop as_array value_at
delete_rows chunk key_indexes key_names =
    let row_json = λ (row : ℕ). as_object (
      cell_loop (get_elem? key_names) (λ k. value_at chunk row (get_elem? key_indexes k))
        (length key_indexes) 0 (some end)) in
    as_array (row_loop row_json chunk.size 0 (some nil))

-- `pair`, with its `old` and its `new` object.
unfoldable pub as_pair : Option Json → Option Json → Option Json
as_pair none new = none
as_pair (some old) none = none
as_pair (some old) (some new) =
    some (Json.obj (field (text "old") old (field (text "new") new end)))

-- The document of the loop in the `Sink` of an update. The old key is in the trailing columns.
unfoldable pub update_rows : DataChunk → List ℕ → List Text → List Text → Option Json
unfolding cell_loop as_object row_loop as_array value_at as_pair
update_rows chunk new_value_indexes new_col_names old_key_names =
    let key_count = length old_key_names in
    let old_base = size_sub chunk.column_count key_count in
    let old_json = λ (row : ℕ). as_object (
      cell_loop (get_elem? old_key_names)
        (λ k. value_at chunk row (some ((old_base + k) % size_max))) key_count 0 (some end)) in
    let new_json = λ (row : ℕ). as_object (
      cell_loop (get_elem? new_col_names) (λ c. value_at chunk row (get_elem? new_value_indexes c))
        (length new_col_names) 0 (some end)) in
    as_array (row_loop (λ row. as_pair (old_json row) (new_json row)) chunk.size 0 (some nil))

-- `json ? string(json) : string("[]")`
unfoldable pub written : Option Text → Text
written none = text "[]"
written (some json) = json
