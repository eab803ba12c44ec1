-- ===== src/Chunks/Split.antt =====
-- The pairs of an update between src/storage/tierdb_update.cpp, which builds them, and
-- tierdb-core-ffi/src/write.rs, which takes them apart.
use tierdb_duckdb.Prelude.{
  ℕ, zero, suc, ◌-◌, ◌≤◌, ◌<◌, Text, text, text_eq, ◌≡◌, refl, sym, ap, ap₂, ◌∙◌, false, some, List,
  [], ◌∷◌, ◌++◌, length, map, append_assoc, append-nil,
}
use tierdb_duckdb.Platform.{Json, Items, field, end, items, done}
use tierdb_duckdb.Std.{size_max}
use tierdb_duckdb.Sink.Payload.{DataChunk, update_rows}
use tierdb_duckdb.Sink.Rows.{object_of, items_from, consecutive, indexed}
use tierdb_duckdb.Sink.Documents.{row_of, update_rows_lem}
use tierdb_duckdb.Rust.{chain}
use tierdb_duckdb.Chunks.{Crates}
use tierdb_duckdb.Chunks.Entry.{split_loop}

-- What serde_json makes of a document: of an object with two members of different names it finds each.
pub record Reads (k : Crates) : Type 0 where
  pub value : Json → k.Value
  pub first :
      (a b : Text) (u v : Json)
      → text_eq a b ≡ false
      → k.get (value (Json.obj (field a u (field b v end)))) a ≡ some (value u)
  pub second :
      (a b : Text) (u v : Json)
      → text_eq a b ≡ false
      → k.get (value (Json.obj (field a u (field b v end)))) b ≡ some (value v)

-- One document for each row.
abbrev pub each_row : (ℕ → Json) → ℕ → ℕ → List Json
each_row row zero i = []
each_row row (suc n) i = row i ∷ each_row row n (suc i)

items-items_from : (row : ℕ → Json) (n i : ℕ) → items (items_from row n i) ≡ each_row row n i
unfolding items
items-items_from row zero i = refl
items-items_from row (suc n) i = ap (λ js. row i ∷ js) (items-items_from row n (suc i))

different : text_eq (text "old") (text "new") ≡ false
unfolding text_eq
different = refl

module _ {k : Crates} (reads : Reads k) where
  -- A text that serde_json reads as a document: if the document is an array, as its elements.
  abbrev pub IsTextOf : Text → Json → Type 0
  IsTextOf json doc =
      (js : Items) → doc ≡ Json.arr js → k.rows_from_str json ≡ done (map reads.value (items js))

  abbrev pair : (ℕ → Json) → (ℕ → Json) → ℕ → Json
  pair old new row = Json.obj (field (text "old") (old row) (field (text "new") (new row) end))

  split_loop-pair :
      (old new : ℕ → Json) (n i : ℕ) (olds news : List k.Value)
      → split_loop k (map reads.value (each_row (pair old new) n i)) olds news
        ≡ done
            (olds ++ map reads.value (each_row old n i), news ++ map reads.value (each_row new n i))
  unfolding split_loop
  split_loop-pair old new zero i olds news = rw (append-nil olds, append-nil news) refl
  split_loop-pair old new (suc n) i olds news =
      rw
        (
          reads.first (text "old") (text "new") (old i) (new i) different,
          reads.second (text "old") (text "new") (old i) (new i) different,
          split_loop-pair old new n (suc i) (olds ++ reads.value (old i) ∷ [])
              (news ++ reads.value (new i) ∷ []),
        )
        (ap₂ (λ a b. done (a, b))
          (append_assoc olds (reads.value (old i) ∷ []) (map reads.value (each_row old n (suc i))))
          (append_assoc news (reads.value (new i) ∷ []) (map reads.value (each_row new n (suc i)))))

  sent_pairs :
      (old new : ℕ → Json) (n : ℕ) (doc : Json) (json : Text)
      → some doc ≡ some (Json.arr (items_from (pair old new) n 0))
      → IsTextOf json doc
      → chain (k.rows_from_str json) (λ pairs. split_loop k pairs [] [])
        ≡ done (map reads.value (each_row old n 0), map reads.value (each_row new n 0))
  sent_pairs old new n doc json e w =
      let d : Json.arr (items_from (pair old new) n 0) ≡ doc = cc in
      let r = w (items_from (pair old new) n 0) (sym d) in
      rw (r, items-items_from (pair old new) n 0) (split_loop-pair old new n 0 [] [])

  -- If a chunk of an update has the columns of the plan and of the key, and serde_json reads what is sent as its
  -- document, then the Rust side has pairs, none of which lacks a member, and takes them apart into the
  -- old keys from the trailing columns and the new images from the columns of the plan, each for every
  -- row and in the order of the rows.
  pub update_rows-split_loop :
      (chunk : DataChunk) (new_value_indexes : List ℕ) (new_col_names old_key_names : List Text)
      (doc : Json) (json : Text)
      → length new_value_indexes ≡ length new_col_names
      → length old_key_names ≤ chunk.column_count
      → chunk.column_count < size_max
      → update_rows chunk new_value_indexes new_col_names old_key_names ≡ some doc
      → IsTextOf json doc
      → chain (k.rows_from_str json) (λ pairs. split_loop k pairs [] [])
        ≡ done (
          map reads.value (
              each_row
                (λ row. Json.obj (
                  object_of (
                    consecutive
                      (row_of chunk row)
                      (chunk.column_count - length old_key_names)
                      old_key_names)))
                chunk.size
                0),
          map reads.value (
              each_row
                (λ row.
                  Json.obj (object_of (indexed (row_of chunk row) new_value_indexes new_col_names)))
                chunk.size
                0),
        )
  update_rows-split_loop chunk cols news olds doc json h l m e w =
      sent_pairs _ _ chunk.size doc json (sym e ∙ update_rows_lem chunk cols news olds h l m) w
