-- ===== src/Planner/Bind.antt =====
-- `BindUpdateConstraints` of src/storage/tierdb_table.cpp, and what it brings to `PlanUpdate` of
-- src/storage/tierdb_catalog.cpp: the whole new row.
use tierdb_duckdb.Prelude.{
  ℕ, zero, suc, ◌+◌, ◌<◌, Text, ◌≡◌, refl, ap, ◌∙◌, Bool, true, Option, some, List, [], ◌∷◌, map,
  length, get_elem?, arith, length-map,
}
use tierdb_duckdb.Outcome.{ok}
use tierdb_duckdb.Platform.{Platform}
use tierdb_duckdb.Client.Data.{TierDbColumn, TierDbTableSchema}
use tierdb_duckdb.Planner.{LogicalUpdate, PhysicalTierDbUpdate, plan_update}
use tierdb_duckdb.Planner.Fed.{plan_update_lem}

-- The `LogicalUpdate` of the binder, with the flag that the planner reads later.
pub record BoundUpdate : Type 0 where
  pub update : LogicalUpdate
  pub update_is_del_and_insert : Bool

-- `all_columns`: the positions of the columns from `i` on.
unfoldable pub index_loop : ℕ → List TierDbColumn → List ℕ
index_loop i [] = []
index_loop i (c ∷ cs) = i ∷ index_loop (suc i) cs

-- `bind_extra_columns` is DuckDB's `LogicalUpdate::BindExtraColumns`.
unfoldable pub bind_update_constraints :
    (List ℕ → LogicalUpdate → LogicalUpdate) → TierDbTableSchema → LogicalUpdate → BoundUpdate
unfolding index_loop
bind_update_constraints bind_extra_columns schema update = record {
  update = bind_extra_columns (index_loop 0 schema.columns) update;
  update_is_del_and_insert = true;
}

-- What DuckDB documents of it: if the update writes one of the bound columns, then it writes all of them
-- afterwards.
pub record Binds (bind_extra_columns : List ℕ → LogicalUpdate → LogicalUpdate) : Type 0 where
  pub covers :
      (bound : List ℕ) (update : LogicalUpdate) (c : ℕ) (cs : List ℕ) (m k i : ℕ)
      → update.columns ≡ c ∷ cs
      → get_elem? bound m ≡ some c
      → get_elem? bound k ≡ some i
      → (j : ℕ) × (get_elem? (bind_extra_columns bound update).columns j ≡ some i)

get_elem?-index_loop :
    (i : ℕ) (columns : List TierDbColumn) (k : ℕ)
    → k < length columns
    → get_elem? (index_loop i columns) k ≡ some (i + k)
unfolding index_loop
get_elem?-index_loop i [] k l = absurd (omega arith)
get_elem?-index_loop i (c ∷ cs) zero l = ap some (omega arith)
get_elem?-index_loop i (c ∷ cs) (suc k) l =
    get_elem?-index_loop (suc i) cs k (omega arith) ∙ ap some (omega arith)

get_elem?-indexes :
    (columns : List TierDbColumn) (k : ℕ)
    → k < length columns
    → get_elem? (index_loop 0 columns) k ≡ some k
get_elem?-indexes columns k l = get_elem?-index_loop 0 columns k l ∙ ap some (omega arith)

module _ {A B : Type 0} where
  get_elem?-map :
      (f : A → B) (xs : List A) (j : ℕ) (a : A)
      → get_elem? xs j ≡ some a
      → get_elem? (map f xs) j ≡ some (f a)
  get_elem?-map f [] j a h = cc
  get_elem?-map f (b ∷ bs) zero a h = cc
  get_elem?-map f (b ∷ bs) (suc j) a h = get_elem?-map f bs j a h

  get_elem?-same :
      (xs : List A) (bs : List B) (j : ℕ) (b : B)
      → length xs ≡ length bs
      → get_elem? bs j ≡ some b
      → (a : A) × (get_elem? xs j ≡ some a)
  get_elem?-same [] [] j b l h = cc
  get_elem?-same (a ∷ xs) (c ∷ bs) zero b l h = (a, refl)
  get_elem?-same (a ∷ xs) (c ∷ bs) (suc j) b l h = get_elem?-same xs bs j b (omega arith) h
  get_elem?-same [] (c ∷ bs) j b l h = absurd (omega arith)
  get_elem?-same (a ∷ xs) [] j b l h = cc

get_elem?-map-some :
    (ns : List Text) (j : ℕ) (o : Option Text)
    → get_elem? (map some ns) j ≡ some o
    → get_elem? ns j ≡ o
get_elem?-map-some [] j o h = cc
get_elem?-map-some (n ∷ ns) zero o h = cc
get_elem?-map-some (n ∷ ns) (suc j) o h = get_elem?-map-some ns j o h

length_of_get :
    (names : List Text) (k : ℕ) (name : Text) → get_elem? names k ≡ some name → k < length names
length_of_get [] k name h = cc
length_of_get (n ∷ ns) zero name h = omega arith
length_of_get (n ∷ ns) (suc k) name h = omega (arith, length_of_get ns k name h)

module _ (x : Platform) (schema : TierDbTableSchema)
    (bind_extra_columns : List ℕ → LogicalUpdate → LogicalUpdate) where
  -- Where an update writes a column of the table, the plan of the bound update writes every column of the
  -- table: each one's name stands among the new names, with a position in the child for its value.
  pub bound_update_covers :
      (update : LogicalUpdate) (p : PhysicalTierDbUpdate) (c : ℕ) (cs : List ℕ) (k : ℕ)
      (name : Text)
      → Binds bind_extra_columns
      → update.columns ≡ c ∷ cs
      → c < length schema.columns
      → plan_update x schema (bind_update_constraints bind_extra_columns schema update).update
        ≡ ok p
      → get_elem? (map (λ c. c.name) schema.columns) k ≡ some name
      → (j e : ℕ) × (get_elem? p.new_col_names j ≡ some name)
        × (get_elem? p.new_value_indexes j ≡ some e)
  unfolding bind_update_constraints
  bound_update_covers update p c cs k name binds u l h n =
      let bound = bind_extra_columns (index_loop 0 schema.columns) update in
      let (kept, a, b, d, sizes) = plan_update_lem x schema bound p h in
      let inside = length_of_get _ k name n in
      let (j, e) =
        binds.covers (index_loop 0 schema.columns) update c cs c k k u
          (get_elem?-indexes schema.columns c l)
          (get_elem?-indexes schema.columns k
            (omega (arith, inside, length-map (λ (c : TierDbColumn). c.name) schema.columns))) in
      let names = map (λ (c : TierDbColumn). c.name) schema.columns in
      let named : get_elem? p.new_col_names j ≡ some name =
        get_elem?-map-some p.new_col_names j (some name)
          (rw⁻¹ b (get_elem?-map (get_elem? names) bound.columns j k e ∙ ap some n)) in
      let (v, q) = get_elem?-same p.new_value_indexes p.new_col_names j name sizes named in
      (j, v, named, q)
