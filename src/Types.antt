-- ===== src/Types.antt =====
-- `TierDBLogicalTypeFromString` of src/storage/tierdb_client.cpp: DuckDB's type from its canonical name.
pub mod Brackets
use tierdb_duckdb.Prelude.{
  ℕ, zero, suc, ◌+◌, ◌-◌, ◌%◌, Text, text, text_eq, length, take, if◌then◌else◌,
}
use tierdb_duckdb.Outcome.{Outcome, ok, throw, fault}
use tierdb_duckdb.Platform.{StringUtil}
use tierdb_duckdb.Std.{size_max, size_sub, find_from, substr, substr_from, stoi, to_uint8}

-- The values of DuckDB's `LogicalType` that the function builds.
pub data LogicalType : Type 0 where
  bigint integer smallint boolean double float date time time_tz timestamp timestamp_tz uuid blob
        varchar :
      LogicalType
  decimal : ℕ → ℕ → LogicalType
  list : LogicalType → LogicalType

infixl 5 ◌>>=◌
abbrev ◌>>=◌ {ℓ κ} : {A : Type ℓ} {B : Type κ} → Outcome A → (A → Outcome B) → Outcome B
ok a >>= f = f a
throw e >>= f = throw e
fault >>= f = fault

-- The branch of `DECIMAL(`.
unfoldable pub decimal_type : Text → Outcome LogicalType
unfolding substr find_from stoi to_uint8
decimal_type t = do
  let opening = find_from 0 b'(' t
  let closing = find_from 0 b')' t
  args ← substr t (opening + 1) (size_sub (size_sub closing opening) 1)
  let comma = find_from 0 b',' args
  first ← substr args 0 comma
  width ← stoi first
  second ← substr_from args ((comma + 1) % size_max)
  scale ← stoi second
  ok (decimal (to_uint8 width) (to_uint8 scale))

-- The chain of comparisons with `upper`.
unfoldable pub scalar_type : Text → LogicalType
scalar_type upper =
    if text_eq upper (text "BIGINT")
    then bigint
    else if text_eq upper (text "INTEGER")
    then integer
    else if text_eq upper (text "SMALLINT")
    then smallint
    else if text_eq upper (text "BOOLEAN")
    then boolean
    else if text_eq upper (text "DOUBLE")
    then double
    else if text_eq upper (text "REAL")
    then float
    else if text_eq upper (text "DATE")
    then date
    else if text_eq upper (text "TIME")
    then time
    else if text_eq upper (text "TIME WITH TIME ZONE")
    then time_tz
    else if text_eq upper (text "TIMESTAMP")
    then timestamp
    else if text_eq upper (text "TIMESTAMP WITH TIME ZONE")
    then timestamp_tz
    else if text_eq upper (text "UUID")
    then uuid
    else if text_eq upper (text "BLOB")
    then blob
    else varchar

unfoldable pub list_of : Outcome LogicalType → Outcome LogicalType
list_of r = r >>= λ t. ok (list t)

module _ (u : StringUtil) where
  -- A name that does not end in `[]`.
  unfoldable pub element_type : Text → Outcome LogicalType
  unfolding decimal_type scalar_type
  element_type t =
      if u.starts_with (u.upper t) (text "DECIMAL(")
      then decimal_type t
      else ok (scalar_type (u.upper t))

  -- Each pair of brackets is one recursive call; `depth` bounds them and running out is a `fault`.
  unfoldable pub type_within : ℕ → Text → Outcome LogicalType
  unfolding element_type list_of
  type_within zero t = fault
  type_within (suc depth) t =
      let element = type_within depth (take (length t - 2) t) in
      if u.ends_with t (text "[]") then list_of element else element_type t

  -- Every call shortens the name by two bytes.
  unfoldable pub logical_type_from_string : Text → Outcome LogicalType
  unfolding type_within
  logical_type_from_string t = type_within (suc (length t)) t
