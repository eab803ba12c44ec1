-- ===== src/Planner/Fed.antt =====
-- What the plans of src/storage/tierdb_catalog.cpp give to the operators of src/storage/tierdb_delete.cpp and
-- src/storage/tierdb_update.cpp: the routing key by its names, and a document for every chunk.
use tierdb_duckdb.Prelude.{
  ℕ, suc, ◌-◌, ◌≤◌, ◌<◌, Text, text, ◌≡◌, refl, sym, ap, ap₂, ◌∙◌, false, Option, none, some, List,
  [], ◌∷◌, ◌++◌, map, length, get_elem?, arith, append_assoc, append-nil, length-map,
}
use tierdb_duckdb.Outcome.{Outcome, ok, throw, fault}
use tierdb_duckdb.Platform.{Platform, Json, field, end}
use tierdb_duckdb.Client.Data.{TierDbTableSchema}
use tierdb_duckdb.Std.{size_max}
use tierdb_duckdb.Table.{TierDbRoutingColumn, routing_columns}
use tierdb_duckdb.Table.Routing.{Routes, routing_columns-Routes}
use tierdb_duckdb.Sink.Payload.{DataChunk, delete_rows, update_rows}
use tierdb_duckdb.Sink.Rows.{object_of, items_from, consecutive, indexed}
use tierdb_duckdb.Sink.Documents.{row_of, delete_rows_lem, update_rows_lem}
use tierdb_duckdb.Planner.{
  LogicalDelete, LogicalUpdate, PhysicalTierDbDelete, PhysicalTierDbUpdate, key_loop, delete_with,
  image_step, image_loop, update_with, plan_delete, plan_update,
}

-- The names of a routing key: the primary key columns, then the tier key.
abbrev pub routing_key : TierDbTableSchema → List Text
routing_key schema = schema.primary_key_cols ++ schema.tier_key_col ∷ []

abbrev names_in : List TierDbRoutingColumn → List Text
names_in = map (λ rc. rc.name)

Routes-names :
    (x : Platform) (i : ℕ) (ns : List Text) (rcs : List TierDbRoutingColumn)
    → Routes x i ns rcs
    → names_in rcs ≡ ns
Routes-names x i [] [] r = refl
Routes-names x i (n ∷ ns) (rc ∷ rcs) r = ap₂ ◌∷◌ r.0 (Routes-names x (suc i) ns rcs r.2)
Routes-names x i [] (rc ∷ rcs) r = absurd r
Routes-names x i (n ∷ ns) [] r = absurd r

key_loop_lem :
    (es : List ℕ) (rcs : List TierDbRoutingColumn) (is : List ℕ) (ns : List Text)
    → length es ≡ length rcs
    → key_loop es rcs is ns ≡ ok (record { key_indexes = is ++ es; key_names = ns ++ names_in rcs })
unfolding key_loop
key_loop_lem [] [] is ns h = rw (append-nil is, append-nil ns) refl
key_loop_lem (e ∷ es) (rc ∷ rcs) is ns h =
    key_loop_lem es rcs (is ++ e ∷ []) (ns ++ rc.name ∷ []) (omega arith)
    ∙ rw (append_assoc is (e ∷ []) es, append_assoc ns (rc.name ∷ []) (names_in rcs)) refl
key_loop_lem [] (rc ∷ rcs) is ns h = absurd (omega arith)
key_loop_lem (e ∷ es) [] is ns h = absurd (omega arith)

delete_with_lem :
    (es : List ℕ) (o : Outcome (List TierDbRoutingColumn)) (p : PhysicalTierDbDelete)
    → delete_with es o ≡ ok p
    → (rcs : List TierDbRoutingColumn) × (o ≡ ok rcs)
      × (length es ≡ length rcs)
      × (p.key_indexes ≡ es)
      × (p.key_names ≡ names_in rcs)
unfolding delete_with
delete_with_lem es (ok rcs) p h =
    let sizes : length es ≡ length rcs = ground arith in
    let loop = key_loop_lem es rcs [] [] sizes in (rcs, refl, sizes, ground arith, ground arith)
delete_with_lem es (throw e) p h = cc
delete_with_lem es fault p h = cc

-- One iteration, with what the loop over the rest gives.
image_stepped :
    (e : ℕ) (cs es is : List ℕ) (ns : List Text) (o : Option Text) (at : ℕ → Option Text)
    (r : Outcome (List ℕ × List Text))
    → ((js : List ℕ) (ms : List Text) → r ≡ ok (js, ms) → (js ≡ es) × (map at cs ≡ map some ms))
    → image_step o r e ≡ ok (is, ns)
    → (is ≡ e ∷ es) × (o ∷ map at cs ≡ map some ns)
unfolding image_step
image_stepped e cs es is ns none r at f k = cc
image_stepped e cs es is ns (some n) at (ok (js, ms)) f k = let (p, q) = f js ms refl in (cc, cc)
image_stepped e cs es is ns (some n) at (throw m) f k = cc
image_stepped e cs es is ns (some n) at fault f k = cc

image_loop_lem :
    (columns : List Text) (es cs is : List ℕ) (ns : List Text)
    → length es ≡ length cs
    → image_loop columns es cs ≡ ok (is, ns)
    → (is ≡ es) × (map (get_elem? columns) cs ≡ map some ns)
unfolding image_loop image_step
image_loop_lem columns [] [] is ns l h = (cc, cc)
image_loop_lem columns [] (c ∷ cs) is ns l h = cc
image_loop_lem columns (e ∷ es) [] is ns l h = absurd (omega arith)
image_loop_lem columns (e ∷ es) (c ∷ cs) is ns l h =
    image_stepped e cs es is ns (get_elem? columns c) (get_elem? columns) (image_loop columns es cs)
      (λ js ms b. image_loop_lem columns es cs js ms (omega arith) b) h

update_with_lem :
    (image : Outcome (List ℕ × List Text)) (o : Outcome (List TierDbRoutingColumn))
    (p : PhysicalTierDbUpdate)
    → update_with image o ≡ ok p
    → (rcs : List TierDbRoutingColumn) × (o ≡ ok rcs)
      × (image ≡ ok (p.new_value_indexes, p.new_col_names))
      × (p.old_key_names ≡ names_in rcs)
unfolding update_with
update_with_lem (ok (is, ns)) (ok rcs) p h = (rcs, refl, cc, cc)
update_with_lem (ok (is, ns)) (throw e) p h = cc
update_with_lem (ok (is, ns)) fault p h = cc
update_with_lem (throw e) o p h = cc
update_with_lem fault o p h = cc

-- The names that a table gives to the columns at some positions, as long as they are its own.
abbrev pub name_or_empty : Option Text → Text
name_or_empty none = []
name_or_empty (some n) = n

abbrev pub names_at : TierDbTableSchema → List ℕ → List Text
names_at schema = map (λ c. name_or_empty (get_elem? (map (λ c. c.name) schema.columns) c))

names_of :
    (at : ℕ → Option Text) (cs : List ℕ) (ns : List Text)
    → map at cs ≡ map some ns
    → ns ≡ map (λ c. name_or_empty (at c)) cs
names_of at [] [] h = refl
names_of at [] (n ∷ ns) h = cc
names_of at (c ∷ cs) [] h = cc
names_of at (c ∷ cs) (n ∷ ns) h =
    let e : at c ≡ some n = cc in
    let r : map at cs ≡ map some ns = cc in ap₂ ◌∷◌ (ap name_or_empty (sym e)) (names_of at cs ns r)

module _ (x : Platform) (schema : TierDbTableSchema) where
  planned_names :
      (rcs : List TierDbRoutingColumn)
      → routing_columns x schema ≡ ok rcs
      → names_in rcs ≡ routing_key schema
  planned_names rcs h = Routes-names x 0 _ rcs (routing_columns-Routes x schema rcs h)

  -- A delete that can be planned has a position for each column of the routing key: the positions are
  -- those of the row-id columns in the child, and the names are the primary key columns and the tier
  -- key, in the order of `RoutingColumns`.
  pub plan_delete_lem :
      (op : LogicalDelete) (p : PhysicalTierDbDelete)
      → plan_delete x schema op ≡ ok p
      → (op.return_chunk ≡ false)
        × (p.key_indexes ≡ op.expressions)
        × (p.key_names ≡ routing_key schema)
        × (length p.key_indexes ≡ length p.key_names)
  unfolding plan_delete
  plan_delete_lem op p h =
      let kept : op.return_chunk ≡ false = ground arith in
      let (rcs, a, n, b, d) =
        delete_with_lem op.expressions (routing_columns x schema) p (ground arith) in
      let names = planned_names rcs a in
      (kept, b, d ∙ names, rw (b, d) (n ∙ sym (length-map _ rcs)))

  -- Every chunk of a planned delete becomes a document: one object for each row, in order, with the
  -- values of the row-id columns under the names of the routing key.
  pub planned_delete_rows :
      (op : LogicalDelete) (p : PhysicalTierDbDelete) (chunk : DataChunk)
      → plan_delete x schema op ≡ ok p
      → delete_rows chunk p.key_indexes p.key_names
        ≡ some (
            Json.arr (
              items_from
                (λ row.
                  Json.obj
                    (object_of (indexed (row_of chunk row) op.expressions (routing_key schema))))
                chunk.size
                0))
  planned_delete_rows op p chunk h =
      let (kept, a, b, l) = plan_delete_lem op p h in
      delete_rows_lem chunk p.key_indexes p.key_names l ∙ rw (a, b) refl

  -- An update that can be planned has a position in the child for each column that it writes, under the
  -- name that the table gives to it, and takes the old key by the names of the routing key.
  pub plan_update_lem :
      (op : LogicalUpdate) (p : PhysicalTierDbUpdate)
      → plan_update x schema op ≡ ok p
      → (op.return_chunk ≡ false)
        × (p.new_value_indexes ≡ op.expressions)
        × (map (get_elem? (map (λ c. c.name) schema.columns)) op.columns ≡ map some p.new_col_names)
        × (p.old_key_names ≡ routing_key schema)
        × (length p.new_value_indexes ≡ length p.new_col_names)
  unfolding plan_update
  plan_update_lem op p h =
      let kept : op.return_chunk ≡ false = ground arith in
      let sizes : length op.expressions ≡ length op.columns = ground arith in
      let (rcs, a, image, names) = update_with_lem _ (routing_columns x schema) p (ground arith) in
      let (b, d) =
        image_loop_lem (map (λ c. c.name) schema.columns) op.expressions op.columns
          p.new_value_indexes p.new_col_names sizes image in
      (
        kept,
        b,
        d,
        names ∙ planned_names rcs a,
        ap length b
            ∙ sizes
            ∙ sym (length-map _ op.columns)
            ∙ ap length d
            ∙ length-map some p.new_col_names,
      )

  -- A planned update writes columns of the table alone. Every chunk of it that has the columns of the routing
  -- key becomes a document: for each row, in order, the old key from the trailing columns under the
  -- names of the routing key, and the new values from the positions of the logical plan under the names
  -- that the table gives to the columns that are written.
  pub planned_update_rows :
      (op : LogicalUpdate) (p : PhysicalTierDbUpdate) (chunk : DataChunk)
      → plan_update x schema op ≡ ok p
      → length (routing_key schema) ≤ chunk.column_count
      → chunk.column_count < size_max
      → (map (get_elem? (map (λ c. c.name) schema.columns)) op.columns
          ≡ map some (names_at schema op.columns))
        × (update_rows chunk p.new_value_indexes p.new_col_names p.old_key_names
            ≡ some (
                Json.arr (
                  items_from
                    (λ row. Json.obj (
                      field
                        (text "old")
                        (Json.obj (
                          object_of (
                            consecutive
                              (row_of chunk row)
                              (chunk.column_count - length (routing_key schema))
                              (routing_key schema))))
                        (field
                          (text "new")
                          (Json.obj (
                            object_of (
                              indexed
                                (row_of chunk row)
                                op.expressions
                                (names_at schema op.columns))))
                          end)))
                    chunk.size
                    0)))
  planned_update_rows op p chunk h l m =
      let (kept, a, d, names, sizes) = plan_update_lem op p h in
      let at = get_elem? (map (λ c. c.name) schema.columns) in
      let e : p.new_col_names ≡ names_at schema op.columns =
        names_of at op.columns p.new_col_names d in
      (
        d ∙ ap (map some) e,
        update_rows_lem chunk p.new_value_indexes p.new_col_names p.old_key_names sizes (rw names l)
              m
            ∙ rw (a, names, e) refl,
      )
