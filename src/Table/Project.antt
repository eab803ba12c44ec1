-- ===== src/Table/Project.antt =====
-- `ProjectedScanSql` of src/storage/tierdb_table.cpp against a join of the columns.
use tierdb_duckdb.Prelude.{
  ℕ, suc, Text, text, is_empty, ◌≡◌, refl, ◌∙◌, ap, false, List, [], ◌∷◌, ◌++◌, map, arith,
  append_assoc,
}
use tierdb_duckdb.Table.{
  TierDbScanBindData, constant, quote_ident, column_sql, projection_loop, projected_scan_sql,
}

-- The texts with a comma and a space between each two.
unfoldable pub comma_separated : List Text → Text
comma_separated [] = []
comma_separated (t ∷ []) = t
comma_separated (t ∷ u ∷ ts) = t ++ text ", " ++ comma_separated (u ∷ ts)

-- What the list of a SELECT has to be for a set of requested columns: each in its place, or the
-- constant alone if none is requested.
abbrev pub select_list : TierDbScanBindData → List ℕ → Text
select_list b [] = constant
select_list b (id ∷ ids) = comma_separated (map (column_sql b) (id ∷ ids))

projection_loop-suc :
    (b : TierDbScanBindData) (i id : ℕ) (ids : List ℕ) (projection : Text)
    → projection_loop b (suc i) (id ∷ ids) projection
      ≡ projection_loop b (suc (suc i)) ids ((projection ++ text ", ") ++ column_sql b id)
unfolding projection_loop
projection_loop-suc b i id ids projection =
    ap (λ t. projection_loop b (suc (suc i)) ids (t ++ column_sql b id)) (ground arith)

projection_loop_later :
    (b : TierDbScanBindData) (ids : List ℕ) (i id : ℕ) (projection : Text)
    → projection_loop b (suc i) (id ∷ ids) projection
      ≡ projection ++ text ", " ++ comma_separated (map (column_sql b) (id ∷ ids))
unfolding comma_separated
projection_loop_later b [] i id projection =
    projection_loop-suc b i id [] projection ∙ unfold projection_loop in refl
projection_loop_later b (j ∷ ids) i id projection =
    projection_loop-suc b i id (j ∷ ids) projection
    ∙ projection_loop_later b ids (suc i) j _
    ∙ simp append_assoc

projection_loop_lem :
    (b : TierDbScanBindData) (id : ℕ) (ids : List ℕ)
    → projection_loop b 0 (id ∷ ids) [] ≡ comma_separated (map (column_sql b) (id ∷ ids))
unfolding projection_loop comma_separated
projection_loop_lem b id [] = refl
projection_loop_lem b id (j ∷ ids) = projection_loop_later b ids 0 j (column_sql b id)

-- No column is the empty text.
column_sql-nonempty : (b : TierDbScanBindData) (id : ℕ) → is_empty (column_sql b id) ≡ false
unfolding column_sql quote_ident is_empty
column_sql-nonempty b id = ground arith

select_list-nonempty :
    (b : TierDbScanBindData) (id : ℕ) (ids : List ℕ)
    → is_empty (comma_separated (map (column_sql b) (id ∷ ids))) ≡ false
unfolding comma_separated is_empty
select_list-nonempty b id [] = column_sql-nonempty b id
select_list-nonempty b id (j ∷ ids) = ground (arith, column_sql-nonempty b id)

-- The SQL of a scan selects the requested columns in their order, separated by commas, from the
-- merged read; a scan that requests none selects a constant.
pub projected_scan_sql_lem :
    (b : TierDbScanBindData) (column_ids : List ℕ)
    → projected_scan_sql b column_ids
      ≡ text "SELECT "
        ++ select_list b column_ids
        ++ text " FROM ("
        ++ b.sql
        ++ text ") tierdb_merged"
unfolding projected_scan_sql
projected_scan_sql_lem b [] = unfold projection_loop is_empty in refl
projected_scan_sql_lem b (id ∷ ids) = rw (projection_loop_lem, select_list-nonempty)
