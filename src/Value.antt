-- ===== src/Value.antt =====
-- src/storage/tierdb_json.cpp: DuckDB values as JSON.
use tierdb_duckdb.Prelude.{ℕ, ℤ, Text, Bool}
use tierdb_duckdb.Platform.{Json, Items, Fields, nil, item, end, field}
use tierdb_duckdb.Ffi.{c_str}

-- DuckDB's `Value`, by the `LogicalTypeId` of its type, with what its accessors return.
pub data SignedId : Type 0 where
  tinyint smallint integer bigint : SignedId

pub data UnsignedId : Type 0 where
  utinyint usmallint uinteger ubigint : UnsignedId

pub data RealId : Type 0 where
  float double : RealId

mutual
  pub data Value : Type 0 where
    -- `IsNull()`, of any type.
    null_value : Value
    boolean : Bool → Value
    signed : SignedId → ℤ → Value
    unsigned : UnsignedId → ℕ → Value
    real : RealId → ℕ → Value
    list : Values → Value
    array : Values → Value
    struct : Members → Value
    -- A value of any other type, by its `ToString()`.
    other : Text → Value

  pub data Values : Type 0 where
    no_value : Values
    more : Value → Values → Values

  -- The children of a STRUCT, with the names that its type gives them.
  pub data Members : Type 0 where
    no_member : Members
    member : Text → Value → Members → Members

-- `TierDBValueToJson`. yyjson copies a C string, up to its first NUL byte.
unfoldable mutual
  pub value_to_json : Value → Json
  value_to_json null_value = Json.null
  value_to_json (boolean b) = Json.bool b
  value_to_json (signed id n) = Json.sint n
  value_to_json (unsigned id n) = Json.uint n
  value_to_json (real id r) = Json.real r
  value_to_json (list vs) = Json.arr (children_to_json vs)
  value_to_json (array vs) = Json.arr (children_to_json vs)
  value_to_json (struct ms) = Json.obj (members_to_json ms)
  value_to_json (other s) = Json.str (c_str s)

  pub children_to_json : Values → Items
  children_to_json no_value = nil
  children_to_json (more v vs) = item (value_to_json v) (children_to_json vs)

  pub members_to_json : Members → Fields
  members_to_json no_member = end
  members_to_json (member name v ms) = field (c_str name) (value_to_json v) (members_to_json ms)

-- `yyjson_mut_obj_add` and `yyjson_mut_arr_append` add at the end.
unfoldable pub append_field : Fields → Text → Json → Fields
append_field end k j = field k j end
append_field (field k' j' fs) k j = field k' j' (append_field fs k j)

unfoldable pub append_item : Items → Json → Items
append_item nil j = item j nil
append_item (item j' js) j = item j' (append_item js j)

-- `TierDBAddCell`, on the fields of an object.
unfoldable pub add_cell : Fields → Text → Value → Fields
unfolding append_field value_to_json
add_cell fs key v = append_field fs (c_str key) (value_to_json v)
