-- ===== src/Table/RowIds.antt =====
-- The row-id columns of a table in src/storage/tierdb_table.cpp: the binder asks for `GetRowIdColumns`, and the scan of
-- `GetScanFunction` must answer with the routing key.
use tierdb_duckdb.Prelude.{
  ℕ, suc, ◌+◌, ◌≤◌, ◌<◌, Text, ◌≡◌, refl, ◌∙◌, ◌≢◌, some, List, [], ◌∷◌, ◌++◌, map, arith, length,
  length-map, length-append, ap₂,
}
use tierdb_duckdb.Outcome.{ok}
use tierdb_duckdb.Platform.{Platform}
use tierdb_duckdb.Client.Data.{TierDbColumn, TierDbTableSchema, TierDbPinnedScan}
use tierdb_duckdb.Std.{size_max}
use tierdb_duckdb.Table.{
  TierDbScanBindData, TierDbRoutingColumn, quote_ident, column_sql, find_name, set_name, routing_id,
  routing_columns,
}
use tierdb_duckdb.Table.Scan.{row_id_columns, name_all, bind_data}
use tierdb_duckdb.Table.Routing.{Routes, routing_columns-Routes}

find_name-set_name_ne :
    (i j : ℕ) (n : Text) (m : List (ℕ × Text))
    → i ≢ j
    → find_name i (set_name j n m) ≡ find_name i m
unfolding find_name set_name
find_name-set_name_ne i j n [] h = ground arith
find_name-set_name_ne i j n ((k, o) ∷ m) h = ground (arith, find_name-set_name_ne i j n m h)

find_name-set_name_self :
    (i : ℕ) (n : Text) (m : List (ℕ × Text)) → find_name i (set_name i n m) ≡ some n
unfolding find_name set_name
find_name-set_name_self i n [] = ground arith
find_name-set_name_self i n ((k, o) ∷ m) = ground (arith, find_name-set_name_self i n m)

-- An id past the columns is looked up among the routing columns.
column_sql-routed :
    (b : TierDbScanBindData) (id : ℕ) (n : Text)
    → length b.column_names ≤ id
    → find_name id b.virtual_to_name ≡ some n
    → column_sql b id ≡ quote_ident n
unfolding column_sql
column_sql-routed b id n h f = ground arith

module _ (x : Platform) where
  routing_id_lem :
      (i : ℕ)
      → x.virtual_column_start + 1 + i < size_max
      → routing_id x i ≡ x.virtual_column_start + 1 + i
  unfolding routing_id
  routing_id_lem i h = omega arith

  -- Later ids do not replace the name of an earlier one.
  find_name-name_all :
      (k i : ℕ) (ns : List Text) (rcs : List TierDbRoutingColumn) (m : List (ℕ × Text))
      → k < i
      → x.virtual_column_start + 1 + i + length ns ≤ size_max
      → Routes x i ns rcs
      → find_name (routing_id x k) (name_all rcs m) ≡ find_name (routing_id x k) m
  unfolding name_all
  find_name-name_all k i [] [] m h b r = refl
  find_name-name_all k i (n ∷ ns) (rc ∷ rcs) m h b r =
      find_name-name_all k (suc i) ns rcs _ (omega arith) (omega arith) r.2
      ∙ find_name-set_name_ne (routing_id x k) rc.virtual_id rc.name m
          (omega (arith, routing_id_lem k, routing_id_lem i, r.1))
  find_name-name_all k i [] (rc ∷ rcs) m h b r = absurd r
  find_name-name_all k i (n ∷ ns) [] m h b r = absurd r

  -- Every routing column finds its own name.
  find_name-all :
      (i : ℕ) (ns : List Text) (rcs : List TierDbRoutingColumn) (m : List (ℕ × Text))
      → x.virtual_column_start + 1 + i + length ns ≤ size_max
      → Routes x i ns rcs
      → map (λ rc. find_name rc.virtual_id (name_all rcs m)) rcs ≡ map some ns
  unfolding name_all
  find_name-all i [] [] m b r = refl
  find_name-all i (n ∷ ns) (rc ∷ rcs) m b r =
      ap₂ ◌∷◌
        (rw (r.0, r.1)
          (find_name-name_all i (suc i) ns rcs _ (omega arith) (omega arith) r.2
            ∙ find_name-set_name_self (routing_id x i) n m))
        (find_name-all (suc i) ns rcs _ (omega arith) r.2)
  find_name-all i [] (rc ∷ rcs) m b r = absurd r
  find_name-all i (n ∷ ns) [] m b r = absurd r

  column_sql-all :
      (b : TierDbScanBindData) (i : ℕ) (ns : List Text) (rcs : List TierDbRoutingColumn)
      → length b.column_names ≤ x.virtual_column_start
      → x.virtual_column_start + 1 + i + length ns ≤ size_max
      → Routes x i ns rcs
      → map (λ rc. find_name rc.virtual_id b.virtual_to_name) rcs ≡ map some ns
      → map (column_sql b) (row_id_columns rcs) ≡ map quote_ident ns
  unfolding column_sql
  column_sql-all b i [] [] c l r h = refl
  column_sql-all b i (n ∷ ns) (rc ∷ rcs) c l r h =
      let own : find_name rc.virtual_id b.virtual_to_name ≡ some n = cc in
      let id : rc.virtual_id ≡ x.virtual_column_start + 1 + i =
        r.1 ∙ routing_id_lem i (omega arith) in
      ap₂ ◌∷◌ (column_sql-routed b rc.virtual_id n (omega arith) own)
        (column_sql-all b (suc i) ns rcs c (omega arith) r.2 (cc))
  column_sql-all b i [] (rc ∷ rcs) c l r h = absurd r
  column_sql-all b i (n ∷ ns) [] c l r h = absurd r

  -- The scan that DELETE and UPDATE read from selects, for the row-id columns of the table, exactly the
  -- quoted primary key columns in order and then the quoted tier key, as long as the ids fit in 64
  -- bits and the table has no more columns than there are ids of real columns.
  pub column_sql-row_id_columns :
      (pinned : TierDbPinnedScan) (schema : TierDbTableSchema) (out : List TierDbRoutingColumn)
      → length schema.columns ≤ x.virtual_column_start
      → x.virtual_column_start + 2 + length schema.primary_key_cols ≤ size_max
      → routing_columns x schema ≡ ok out
      → map (column_sql (bind_data pinned schema out)) (row_id_columns out)
        ≡ map quote_ident (schema.primary_key_cols ++ schema.tier_key_col ∷ [])
  unfolding bind_data
  column_sql-row_id_columns pinned schema out c l h =
      let key : List Text = schema.primary_key_cols ++ schema.tier_key_col ∷ [] in
      let r = routing_columns-Routes x schema out h in
      let fits : x.virtual_column_start + 1 + 0 + length key ≤ size_max =
        omega (arith, length-append schema.primary_key_cols (schema.tier_key_col ∷ [])) in
      column_sql-all (bind_data pinned schema out) 0 key out
        (omega (arith, length-map (λ (k : TierDbColumn). k.name) schema.columns)) fits r
        (find_name-all 0 key out [] fits r)
