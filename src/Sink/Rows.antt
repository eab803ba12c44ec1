-- ===== src/Sink/Rows.antt =====
-- What the DML payloads hold: the loops of src/storage/tierdb_insert.cpp, src/storage/tierdb_delete.cpp and
-- src/storage/tierdb_update.cpp against a description of each row as a list of named values.
use tierdb_duckdb.Prelude.{
  ℕ, zero, suc, ◌+◌, ◌<◌, Text, ◌≡◌, refl, sym, ap, ◌∙◌, Option, some, List, [], ◌∷◌, arith, length,
  get_elem?,
}
use tierdb_duckdb.Platform.{Json, Items, Fields, nil, item, end, field}
use tierdb_duckdb.Ffi.{c_str}
use tierdb_duckdb.Value.{Value, value_to_json, append_field, append_item, add_cell}
use tierdb_duckdb.Sink.Payload.{add_named, append_row, cell_loop, row_loop, as_object, as_array}

-- A row as the object of its named values, in order.
abbrev pub object_of : List (Text × Value) → Fields
object_of [] = end
object_of ((name, v) ∷ cells) = field (c_str name) (value_to_json v) (object_of cells)

-- The array of `row i`, `row (i + 1)`, …, `todo` of them.
abbrev pub items_from : (ℕ → Json) → ℕ → ℕ → Items
items_from row zero i = nil
items_from row (suc todo) i = item (row i) (items_from row todo (suc i))

abbrev append_fields : Fields → Fields → Fields
append_fields end gs = gs
append_fields (field k j fs) gs = field k j (append_fields fs gs)

abbrev append_items : Items → Items → Items
append_items nil ks = ks
append_items (item j js) ks = item j (append_items js ks)

append_fields-append_field :
    (fs gs : Fields) (k : Text) (j : Json)
    → append_fields (append_field fs k j) gs ≡ append_fields fs (field k j gs)
unfolding append_field
append_fields-append_field end gs k j = refl
append_fields-append_field (field k' j' fs) gs k j =
    ap (field k' j') (append_fields-append_field fs gs k j)

append_items-append_item :
    (js ks : Items) (j : Json) → append_items (append_item js j) ks ≡ append_items js (item j ks)
unfolding append_item
append_items-append_item nil ks j = refl
append_items-append_item (item j' js) ks j = ap (item j') (append_items-append_item js ks j)

append_items-nil : (js : Items) → append_items js nil ≡ js
append_items-nil nil = refl
append_items-nil (item j js) = ap (item j) (append_items-nil js)

append_fields-end : (fs : Fields) → append_fields fs end ≡ fs
append_fields-end end = refl
append_fields-end (field k j fs) = ap (field k j) (append_fields-end fs)

-- The vectors of a loop hold the cells, from `i` on.
abbrev pub Reads : (ℕ → Option Text) → (ℕ → Option Value) → ℕ → List (Text × Value) → Type 0
Reads names values i [] = Unit
Reads names values i ((n, v) ∷ cells) =
    (names i ≡ some n) × (values i ≡ some v) × Reads names values (suc i) cells

add_named-some :
    (o : Fields) (name : Option Text) (value : Option Value) (n : Text) (v : Value)
    → name ≡ some n
    → value ≡ some v
    → add_named o name value ≡ some (append_field o (c_str n) (value_to_json v))
unfolding add_named add_cell
add_named-some o name value n v e f = rw (e, f)

cell_loop-Reads :
    (names : ℕ → Option Text) (values : ℕ → Option Value) (i : ℕ) (cells : List (Text × Value))
    (o : Fields)
    → Reads names values i cells
    → cell_loop names values (length cells) i (some o) ≡ some (append_fields o (object_of cells))
unfolding cell_loop add_cell
cell_loop-Reads names values i [] o r = ap some (sym (append_fields-end o))
cell_loop-Reads names values i ((n, v) ∷ cells) o r =
    ap (λ t. cell_loop names values (length cells) (suc i) t)
      (add_named-some o (names i) (values i) n v r.0 r.1)
    ∙ cell_loop-Reads names values (suc i) cells _ r.2
    ∙ ap some (append_fields-append_field o (object_of cells) (c_str n) (value_to_json v))

-- Every row of the loop is there.
row_loop_lem :
    (row_json : ℕ → Option Json) (row : ℕ → Json) (todo i : ℕ) (root : Items)
    → ((k : ℕ) → row_json k ≡ some (row k))
    → row_loop row_json todo i (some root) ≡ some (append_items root (items_from row todo i))
unfolding row_loop
row_loop_lem row_json row zero i root h = ap some (sym (append_items-nil root))
row_loop_lem row_json row (suc todo) i root h =
    ap (λ t. row_loop row_json todo (suc i) (append_row root t)) (h i)
    ∙ row_loop_lem row_json row todo (suc i) (append_item root (row i)) h
    ∙ ap some (append_items-append_item root (items_from row todo (suc i)) (row i))

pub array_lem :
    (row_json : ℕ → Option Json) (row : ℕ → Json) (size : ℕ)
    → ((k : ℕ) → row_json k ≡ some (row k))
    → as_array (row_loop row_json size 0 (some nil)) ≡ some (Json.arr (items_from row size 0))
unfolding as_array
array_lem row_json row size h = rw (row_loop_lem row_json row size 0 nil h)

pub object_lem :
    (names : ℕ → Option Text) (values : ℕ → Option Value) (n : ℕ) (cells : List (Text × Value))
    → n ≡ length cells
    → Reads names values 0 cells
    → as_object (cell_loop names values n 0 (some end)) ≡ some (Json.obj (object_of cells))
unfolding as_object
object_lem names values n cells e r = rw (e, cell_loop-Reads names values 0 cells end r)

-- The names, each with the value of its column: columns `i`, `i + 1`, ….
abbrev pub consecutive : (ℕ → Value) → ℕ → List Text → List (Text × Value)
consecutive get i [] = []
consecutive get i (n ∷ ns) = (n, get i) ∷ consecutive get (suc i) ns

-- The names, each with the value of the column at the same place of `cols`.
abbrev pub indexed : (ℕ → Value) → List ℕ → List Text → List (Text × Value)
indexed get (c ∷ cols) (n ∷ ns) = (n, get c) ∷ indexed get cols ns
indexed get _ _ = []

pub length-consecutive :
    (get : ℕ → Value) (i : ℕ) (ns : List Text) → length ns ≡ length (consecutive get i ns)
length-consecutive get i [] = refl
length-consecutive get i (n ∷ ns) = ap suc (length-consecutive get (suc i) ns)

pub length-indexed :
    (get : ℕ → Value) (cols : List ℕ) (ns : List Text)
    → length cols ≡ length ns
    → length ns ≡ length (indexed get cols ns)
length-indexed get [] [] h = refl
length-indexed get (c ∷ cols) (n ∷ ns) h = ap suc (length-indexed get cols ns (omega arith))
length-indexed get [] (n ∷ ns) h = absurd (omega arith)
length-indexed get (c ∷ cols) [] h = absurd (omega arith)

pub Reads-consecutive :
    (names : ℕ → Option Text) (values : ℕ → Option Value) (get : ℕ → Value) (ns : List Text)
    (i j : ℕ)
    → ((k : ℕ) → names (i + k) ≡ get_elem? ns k)
    → ((k : ℕ) → k < length ns → values (i + k) ≡ some (get (j + k)))
    → Reads names values i (consecutive get j ns)
Reads-consecutive names values get [] i j h g = tt
Reads-consecutive names values get (n ∷ ns) i j h g = (
  ap names (omega arith) ∙ h 0,
  ap values (omega arith) ∙ g 0 (omega arith) ∙ ap (λ k. some (get k)) (omega arith),
  Reads-consecutive names values get ns (suc i) (suc j) (λ k. ap names (omega arith) ∙ h (suc k))
      (λ k l.
        ap values (omega arith) ∙ g (suc k) (omega arith) ∙ ap (λ m. some (get m)) (omega arith)),
)

pub Reads-indexed :
    (names : ℕ → Option Text) (values : ℕ → Option Value) (get : ℕ → Value) (cols : List ℕ)
    (ns : List Text) (i : ℕ)
    → ((k : ℕ) → names (i + k) ≡ get_elem? ns k)
    → ((k : ℕ) (c : ℕ) → get_elem? cols k ≡ some c → values (i + k) ≡ some (get c))
    → Reads names values i (indexed get cols ns)
Reads-indexed names values get [] ns i h g = tt
Reads-indexed names values get (c ∷ cols) [] i h g = tt
Reads-indexed names values get (c ∷ cols) (n ∷ ns) i h g = (
  ap names (omega arith) ∙ h 0,
  ap values (omega arith) ∙ g 0 c refl,
  Reads-indexed names values get cols ns (suc i) (λ k. ap names (omega arith) ∙ h (suc k))
      (λ k d e. ap values (omega arith) ∙ g (suc k) d e),
)
