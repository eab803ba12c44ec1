-- ===== src/Planner.antt =====
-- `PlanInsert`, `PlanDelete` and `PlanUpdate` of src/storage/tierdb_catalog.cpp: the guards, and the positions and names that the
-- operators of src/storage/tierdb_delete.cpp and src/storage/tierdb_update.cpp work with.
pub mod Fed
pub mod Bind
use tierdb_duckdb.Prelude.{
  ℕ, zero, suc, Text, text, Bool, true, false, not, Option, none, some, List, [], ◌∷◌, ◌++◌, map,
  length, get_elem?, ◌==◌, if◌then◌else◌,
}
use tierdb_duckdb.Outcome.{
  Exception, Kind, Outcome, ok, throw, fault, not_implemented_exception, internal_exception,
}
use tierdb_duckdb.Platform.{Platform}
use tierdb_duckdb.Client.Data.{TierDbTableSchema}
use tierdb_duckdb.Table.{TierDbRoutingColumn, routing_columns}

abbrev thrown {ℓ} : {A : Type ℓ} → Kind → Text → Outcome A
thrown k message = throw (record { kind = k; message = message })

-- `LogicalInsert`, as far as the code reads it.
pub record LogicalInsert : Type 0 where
  pub return_chunk : Bool
  -- `on_conflict_info.action_type == OnConflictAction::THROW`
  pub throws_on_conflict : Bool
  pub column_index_map_empty : Bool

-- `PlanInsert`. `resolve_defaults` is the planner's `ResolveDefaultsProjection`; the result is the child of
-- the insert operator.
unfoldable pub plan_insert :
    {Operator : Type 0} → (Operator → Operator) → LogicalInsert → Option Operator → Outcome Operator
plan_insert resolve_defaults op none =
    thrown not_implemented_exception (text "tierdb: INSERT without a source is not supported")
plan_insert resolve_defaults op (some plan) =
    if op.return_chunk
    then thrown not_implemented_exception (text "tierdb: INSERT ... RETURNING is not supported yet")
    else if not op.throws_on_conflict
    then thrown not_implemented_exception
        (text "tierdb: INSERT ... ON CONFLICT is not supported (writes are newest-wins upserts)")
    else if op.column_index_map_empty
    then ok plan
    else ok (resolve_defaults plan)

-- `LogicalDelete`: each expression is a `BoundReferenceExpression`, by its index.
pub record LogicalDelete : Type 0 where
  pub return_chunk : Bool
  pub expressions : List ℕ

-- `PhysicalTierDBDelete`
pub record PhysicalTierDbDelete : Type 0 where
  pub key_indexes : List ℕ
  pub key_names : List Text

-- The loop of `PlanDelete`; a read past the end of `routing` is a `fault`.
unfoldable pub key_loop :
    List ℕ → List TierDbRoutingColumn → List ℕ → List Text → Outcome PhysicalTierDbDelete
key_loop [] routing indexes names = ok (record { key_indexes = indexes; key_names = names })
key_loop (e ∷ es) [] indexes names = fault
key_loop (e ∷ es) (rc ∷ routing) indexes names =
    key_loop es routing (indexes ++ e ∷ []) (names ++ rc.name ∷ [])

delete_with : List ℕ → Outcome (List TierDbRoutingColumn) → Outcome PhysicalTierDbDelete
unfolding key_loop
delete_with expressions (ok routing) =
    if length expressions == length routing
    then key_loop expressions routing [] []
    else thrown internal_exception
        (text "tierdb: delete row-id columns do not match the routing key")
delete_with expressions (throw e) = throw e
delete_with expressions fault = fault

-- `LogicalUpdate`: `columns` are positions among the columns of the table.
pub record LogicalUpdate : Type 0 where
  pub return_chunk : Bool
  pub expressions : List ℕ
  pub columns : List ℕ

-- `PhysicalTierDBUpdate`
pub record PhysicalTierDbUpdate : Type 0 where
  pub new_value_indexes : List ℕ
  pub new_col_names : List Text
  pub old_key_names : List Text

-- The loop of `PlanUpdate` over the columns. A position that the table does not have, or a read past the
-- end of `op.expressions`, is a `fault`.
unfoldable pub image_step :
    Option Text → Outcome (List ℕ × List Text) → ℕ → Outcome (List ℕ × List Text)
image_step none out e = fault
image_step (some name) (ok (indexes, names)) e = ok (e ∷ indexes, name ∷ names)
image_step (some name) (throw m) e = throw m
image_step (some name) fault e = fault

unfoldable pub image_loop : List Text → List ℕ → List ℕ → Outcome (List ℕ × List Text)
unfolding image_step
image_loop columns es [] = ok ([], [])
image_loop columns [] (c ∷ cs) = fault
image_loop columns (e ∷ es) (c ∷ cs) = image_step (get_elem? columns c) (image_loop columns es cs) e

update_with :
    Outcome (List ℕ × List Text) → Outcome (List TierDbRoutingColumn) → Outcome PhysicalTierDbUpdate
update_with (ok (indexes, names)) (ok routing) = ok (record {
  new_value_indexes = indexes;
  new_col_names = names;
  old_key_names = map (λ rc. rc.name) routing;
})
update_with (ok image) (throw e) = throw e
update_with (ok image) fault = fault
update_with (throw e) routing = throw e
update_with fault routing = fault

module _ (x : Platform) where
  -- `PlanDelete`
  unfoldable pub plan_delete : TierDbTableSchema → LogicalDelete → Outcome PhysicalTierDbDelete
  unfolding delete_with routing_columns
  plan_delete schema op =
      if op.return_chunk
      then thrown not_implemented_exception
          (text "tierdb: DELETE ... RETURNING is not supported yet")
      else delete_with op.expressions (routing_columns x schema)

  -- `PlanUpdate`
  unfoldable pub plan_update : TierDbTableSchema → LogicalUpdate → Outcome PhysicalTierDbUpdate
  unfolding update_with image_loop routing_columns
  plan_update schema op =
      if op.return_chunk
      then thrown not_implemented_exception
          (text "tierdb: UPDATE ... RETURNING is not supported yet")
      else if length op.expressions == length op.columns
      then update_with (image_loop (map (λ c. c.name) schema.columns) op.expressions op.columns)
          (routing_columns x schema)
      else thrown internal_exception
          (text "tierdb: update expressions do not match the projected columns")
