-- ===== src/Table/Virtual.antt =====
-- The virtual columns of a table in src/storage/tierdb_table.cpp: `GetVirtualColumns`, and what it holds for the ids of
-- `GetRowIdColumns`.
use tierdb_duckdb.Prelude.{
  ℕ, suc, Text, text, ◌≡◌, Option, none, some, List, [], ◌∷◌, ◌++◌, All, arith, ◌==◌, Bool-cases,
  inl, inr, if◌then◌else◌,
}
use tierdb_duckdb.Std.{to_string}
use tierdb_duckdb.Types.{LogicalType}
use tierdb_duckdb.Table.{TierDbRoutingColumn}
use tierdb_duckdb.Table.Scan.{row_id_columns}

-- DuckDB's `TableColumn`; the type of the row id is DuckDB's own.
pub record TableColumn : Type 0 where
  pub name : Text
  pub type : Option LogicalType

unfoldable pub find_column : ℕ → List (ℕ × TableColumn) → Option TableColumn
find_column id [] = none
find_column id ((j, c) ∷ m) = if j == id then some c else find_column id m

-- `virtual_columns.insert(make_pair(…))`, which leaves an entry that is there.
unfoldable pub insert : ℕ → TableColumn → List (ℕ × TableColumn) → List (ℕ × TableColumn)
insert id c [] = (id, c) ∷ []
insert id c ((j, d) ∷ m) = if j == id then (j, d) ∷ m else (j, d) ∷ insert id c m

-- The loop over the routing columns, from `__tierdb_route_k` on.
unfoldable pub route_loop :
    ℕ → List TierDbRoutingColumn → List (ℕ × TableColumn) → List (ℕ × TableColumn)
unfolding insert
route_loop k [] m = m
route_loop k (rc ∷ rcs) m = route_loop (suc k) rcs (
    insert rc.virtual_id
      (record { name = text "__tierdb_route_" ++ to_string k; type = some rc.type }) m)

-- `GetVirtualColumns`, over the result of `RoutingColumns`.
unfoldable pub virtual_columns : ℕ → List TierDbRoutingColumn → List (ℕ × TableColumn)
unfolding route_loop
virtual_columns row_id rcs =
    route_loop 0 rcs (insert row_id (record { name = text "rowid"; type = none }) [])

find_column-insert :
    (id k : ℕ) (c d : TableColumn) (m : List (ℕ × TableColumn))
    → find_column id m ≡ some d
    → find_column id (insert k c m) ≡ some d
unfolding find_column insert
find_column-insert id k c d [] h = cc
find_column-insert id k c d ((j, e) ∷ m) h = ground (arith, find_column-insert id k c d m)

find_column-insert_self :
    (id : ℕ) (c : TableColumn) (m : List (ℕ × TableColumn))
    → (d : TableColumn) × (find_column id (insert id c m) ≡ some d)
unfolding find_column insert
find_column-insert_self id c [] = (c, ground arith)
find_column-insert_self id c ((j, e) ∷ m) =
    let (d, h) = find_column-insert_self id c m in
    elim (Bool-cases (j == id)) [ inl q ↦ (e, ground arith) | inr q ↦ (d, ground arith) ]

find_column-route_loop :
    (id k : ℕ) (d : TableColumn) (rcs : List TierDbRoutingColumn) (m : List (ℕ × TableColumn))
    → find_column id m ≡ some d
    → find_column id (route_loop k rcs m) ≡ some d
unfolding route_loop
find_column-route_loop id k d [] m h = h
find_column-route_loop id k d (rc ∷ rcs) m h =
    find_column-route_loop id (suc k) d rcs _ (find_column-insert id rc.virtual_id _ d m h)

route_loop-found :
    (k : ℕ) (rcs : List TierDbRoutingColumn) (m : List (ℕ × TableColumn))
    → All
        (λ id. (c : TableColumn) × (find_column id (route_loop k rcs m) ≡ some c))
        (row_id_columns rcs)
unfolding route_loop
route_loop-found k [] m = tt
route_loop-found k (rc ∷ rcs) m =
    let (c, h) = find_column-insert_self rc.virtual_id _ m in
    ((c, find_column-route_loop rc.virtual_id (suc k) c rcs _ h), route_loop-found (suc k) rcs _)

-- Every row-id column of a table is among its virtual columns, so the binder finds it, and the row id
-- itself keeps its entry, whatever id it has.
pub virtual_columns_cover :
    (row_id : ℕ) (rcs : List TierDbRoutingColumn)
    → All
        (λ id. (c : TableColumn) × (find_column id (virtual_columns row_id rcs) ≡ some c))
        (row_id_columns rcs)
      × (find_column row_id (virtual_columns row_id rcs)
          ≡ some (record { name = text "rowid"; type = none }))
unfolding virtual_columns find_column insert
virtual_columns_cover row_id rcs =
    (route_loop-found 0 rcs _, find_column-route_loop row_id 0 _ rcs _ (self row_id))
  where
    self :
        (i : ℕ)
        → find_column i (insert i (record { name = text "rowid"; type = none }) [])
          ≡ some (record { name = text "rowid"; type = none })
    self i = ground arith
