-- ===== src/Table/Routing.antt =====
-- The routing key of a table, `RoutingColumns` of src/storage/tierdb_table.cpp, and the scan that reads it.
use tierdb_duckdb.Prelude.{
  ℕ, suc, ◌+◌, Text, ◌≡◌, refl, ap, ◌∙◌, List, [], ◌∷◌, ◌++◌, arith, length, append_assoc,
  append-nil, subst,
}
use tierdb_duckdb.Outcome.{Outcome, ok, throw, fault}
use tierdb_duckdb.Platform.{Platform}
use tierdb_duckdb.Client.Data.{TierDbTableSchema}
use tierdb_duckdb.Types.{LogicalType}
use tierdb_duckdb.Table.{TierDbRoutingColumn, routing_id, appended, add, add_all, routing_columns}

-- What `RoutingColumns` promises about its result, from position `i` on: the names in order, the ids of their
-- positions.
abbrev pub Routes : Platform → ℕ → List Text → List TierDbRoutingColumn → Type 0
Routes x i [] [] = Unit
Routes x i (n ∷ ns) (rc ∷ rcs) =
    (rc.name ≡ n) × (rc.virtual_id ≡ routing_id x i) × Routes x (suc i) ns rcs
Routes x i _ _ = ⊥

ok-injective {ℓ} : {A : Type ℓ} {a b : A} → ok a ≡ ok b → a ≡ b
ok-injective {A} {a} {b} h = cc

module _ (x : Platform) where
  Routes-append :
      (i : ℕ) (ns ms : List Text) (rcs qs : List TierDbRoutingColumn)
      → Routes x i ns rcs
      → Routes x (i + length ns) ms qs
      → Routes x i (ns ++ ms) (rcs ++ qs)
  Routes-append i [] ms [] qs r q = subst (λ k. Routes x k ms qs) (omega arith) q
  Routes-append i (n ∷ ns) ms (rc ∷ rcs) qs r q = (
    r.0,
    r.1,
    Routes-append (suc i) ns ms rcs qs r.2 (subst (λ k. Routes x k ms qs) (omega arith) q),
  )
  Routes-append i [] ms (rc ∷ rcs) qs r q = absurd r
  Routes-append i (n ∷ ns) ms [] qs r q = absurd r

  pub Routes-length :
      (i : ℕ) (ns : List Text) (rcs : List TierDbRoutingColumn)
      → Routes x i ns rcs
      → length rcs ≡ length ns
  Routes-length i [] [] r = refl
  Routes-length i (n ∷ ns) (rc ∷ rcs) r = ap suc (Routes-length (suc i) ns rcs r.2)
  Routes-length i [] (rc ∷ rcs) r = absurd r
  Routes-length i (n ∷ ns) [] r = absurd r

  appended-Routes :
      (schema : TierDbTableSchema) (names : List Text) (out : List TierDbRoutingColumn) (n : Text)
      (t : Outcome LogicalType) (out' : List TierDbRoutingColumn)
      → Routes x 0 names out
      → appended x schema out n t ≡ ok out'
      → Routes x 0 (names ++ n ∷ []) out'
  unfolding appended
  appended-Routes schema names out n (ok t) out' r h =
      subst (Routes x 0 (names ++ n ∷ [])) (ok-injective h) (
        Routes-append 0 names (n ∷ []) out _ r
          (refl, ap (routing_id x) (Routes-length 0 names out r ∙ omega arith), tt))
  appended-Routes schema names out n (throw e) out' r h = cc
  appended-Routes schema names out n fault out' r h = cc

  add_all-Routes :
      (schema : TierDbTableSchema) (ns names : List Text) (o : Outcome (List TierDbRoutingColumn))
      (out' : List TierDbRoutingColumn)
      → ((out : List TierDbRoutingColumn) → o ≡ ok out → Routes x 0 names out)
      → add_all x schema ns o ≡ ok out'
      → Routes x 0 (names ++ ns) out'
  unfolding add_all add
  add_all-Routes schema [] names o out' f h = rw append-nil (f out' h)
  add_all-Routes schema (n ∷ ns) names (ok out) out' f h = rw (← append_assoc names (n ∷ []) ns) (
      add_all-Routes schema ns (names ++ n ∷ []) _ out'
        (λ out'' e. appended-Routes schema names out n _ out'' (f out refl) e) h)
  add_all-Routes schema (n ∷ ns) names (throw e) out' f h = cc
  add_all-Routes schema (n ∷ ns) names fault out' f h = cc

  -- `RoutingColumns` names the primary key columns in order and then the tier key, and numbers them
  -- from `VIRTUAL_COLUMN_START + 1` on, in 64 bits.
  pub routing_columns-Routes :
      (schema : TierDbTableSchema) (out : List TierDbRoutingColumn)
      → routing_columns x schema ≡ ok out
      → Routes x 0 (schema.primary_key_cols ++ schema.tier_key_col ∷ []) out
  unfolding routing_columns
  routing_columns-Routes schema out h =
      add_all-Routes schema (schema.primary_key_cols ++ schema.tier_key_col ∷ []) [] (ok []) out
        (λ o e. subst (Routes x 0 []) (ok-injective e) tt) h
