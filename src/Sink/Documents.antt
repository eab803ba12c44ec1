-- ===== src/Sink/Documents.antt =====
-- The documents that src/storage/tierdb_insert.cpp, src/storage/tierdb_delete.cpp and src/storage/tierdb_update.cpp send.
use tierdb_duckdb.Prelude.{
  ℕ, ◌-◌, ◌≤◌, ◌<◌, Text, text, ◌≡◌, refl, ap, ap₂, ◌∙◌, some, List, arith, length, get_elem?,
}
use tierdb_duckdb.Platform.{Json, end, field}
use tierdb_duckdb.Std.{size_max}
use tierdb_duckdb.Value.{Value}
use tierdb_duckdb.Sink.Payload.{DataChunk, as_pair, value_at, insert_rows, delete_rows, update_rows}
use tierdb_duckdb.Sink.Rows.{
  object_of, items_from, consecutive, indexed, array_lem, object_lem, length-consecutive,
  length-indexed, Reads-consecutive, Reads-indexed,
}

module _ (chunk : DataChunk) where
  abbrev pub row_of : ℕ → ℕ → Value
  row_of row col = chunk.get_value col row

  -- An insert whose chunk has a column for each name sends one object for each row, in order, with the
  -- value of each column under its name.
  pub insert_rows_lem :
      (column_names : List Text)
      → chunk.column_count ≡ length column_names
      → insert_rows chunk column_names
        ≡ some (
            Json.arr (
              items_from
                (λ row. Json.obj (object_of (consecutive (row_of row) 0 column_names)))
                chunk.size
                0))
  unfolding insert_rows
  insert_rows_lem names h = array_lem _ _ chunk.size λ row.
      object_lem _ _ chunk.column_count _ (h ∙ length-consecutive (row_of row) 0 names) (
        Reads-consecutive _ _ (row_of row) names 0 0 (λ k. ap (get_elem? names) (omega arith))
          (λ k l. refl))

  -- A delete sends one object for each row, in order, with the value of each key column under its name,
  -- from the position that the plan gives for it.
  pub delete_rows_lem :
      (key_indexes : List ℕ) (key_names : List Text)
      → length key_indexes ≡ length key_names
      → delete_rows chunk key_indexes key_names
        ≡ some (
            Json.arr (
              items_from
                (λ row. Json.obj (object_of (indexed (row_of row) key_indexes key_names)))
                chunk.size
                0))
  unfolding delete_rows value_at
  delete_rows_lem cols names h = array_lem _ _ chunk.size λ row.
      object_lem _ _ (length cols) _ (h ∙ length-indexed (row_of row) cols names h) (
        Reads-indexed _ _ (row_of row) cols names 0 (λ k. ap (get_elem? names) (omega arith))
          (λ k c e. ap (λ t. value_at chunk row t) (ap (get_elem? cols) (omega arith) ∙ e)))

  -- An update sends, for each row in order, the old key from the trailing columns of the chunk and the new
  -- image from the positions of the plan, if the chunk has the columns of the key.
  pub update_rows_lem :
      (new_value_indexes : List ℕ) (new_col_names old_key_names : List Text)
      → length new_value_indexes ≡ length new_col_names
      → length old_key_names ≤ chunk.column_count
      → chunk.column_count < size_max
      → update_rows chunk new_value_indexes new_col_names old_key_names
        ≡ some (
            Json.arr (
              items_from
                (λ row. Json.obj (
                  field
                    (text "old")
                    (Json.obj (
                      object_of (
                        consecutive
                          (row_of row)
                          (chunk.column_count - length old_key_names)
                          old_key_names)))
                    (field
                      (text "new")
                      (Json.obj (object_of (indexed (row_of row) new_value_indexes new_col_names)))
                      end)))
                chunk.size
                0))
  unfolding update_rows value_at as_pair
  update_rows_lem cols news olds h l m = array_lem _ _ chunk.size λ row.
      ap₂ as_pair
        (object_lem _ _ (length olds) _ (length-consecutive (row_of row) _ olds) (
          Reads-consecutive _ _ (row_of row) olds 0 _ (λ k. ap (get_elem? olds) (omega arith))
            (λ k b. ap (λ c. some (row_of row c)) (omega arith))))
        (object_lem _ _ (length news) _ (length-indexed (row_of row) cols news h) (
          Reads-indexed _ _ (row_of row) cols news 0 (λ k. ap (get_elem? news) (omega arith))
            (λ k c e. ap (λ t. value_at chunk row t) (ap (get_elem? cols) (omega arith) ∙ e))))
