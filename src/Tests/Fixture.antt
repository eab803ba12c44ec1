-- ===== src/Tests/Fixture.antt =====
-- A platform with concrete answers: one Postgres session with the Rust flag on top, and a lake.
use tierdb_duckdb.Prelude.{
  refl, arith, ◌≡◌, ℕ, ◌+◌, ◌-◌, ℤ, pos, Text, text, text_eq, int_eq, is_empty, Bool, true, false,
  ◌&&◌, ◌||◌, Option, none, some, List, [], ◌∷◌, length, take, drop, map, leb, if◌then◌else◌,
}
use tierdb_duckdb.Platform.{
  find_field, items, Platform, Yyjson, StringUtil, Json, nil, item, end, field, Reply, done, failed,
}
use tierdb_duckdb.Ffi.{c_str}
use tierdb_duckdb.Conn.{Postgres, Conn, Runs, txn_begin, txn_commit, txn_rollback}

-- A Postgres session with the latest statement first. One that refuses fails each `COMMIT`.
pub record PgSession : Type 0 where
  pub log : List Text
  pub refuses : Bool

executed : Bool → Text → PgSession → Reply (Unit {0}) × PgSession
executed true sql s = (failed (text "could not serialize access"), s)
executed false sql s = (done tt, record s { log = sql ∷ s.log })

unfoldable pub batch_execute : Text → PgSession → Reply (Unit {0}) × PgSession
unfolding executed
batch_execute sql s = executed (s.refuses && text_eq sql (text "COMMIT")) sql s

abbrev pub postgres : Postgres
postgres = record { Session = PgSession; batch_execute = batch_execute }

unfoldable pub obj_get : Json → Text → Option Json
unfolding find_field
obj_get (Json.obj fs) key = find_field key fs
obj_get _ key = none

unfoldable pub get_str : Json → Option Text
unfolding c_str
get_str (Json.str s) = some (c_str s)
get_str _ = none

unfoldable pub get_sint : Json → ℤ
get_sint (Json.sint n) = n
get_sint (Json.uint n) = pos n
get_sint _ = pos 0

unfoldable pub is_null : Json → Bool
is_null Json.null = true
is_null _ = false

unfoldable pub elements : Json → List Json
unfolding items
elements (Json.arr js) = items js
elements _ = []

-- The documents that the calls answer with, under the names that stand for their text.
abbrev pub scan_doc : Json
scan_doc = Json.obj (
    field (text "pin_id") (Json.sint (pos 7)) (
      field (text "scan_sql") (Json.str (text "SELECT 1"))
        (field (text "attach_sql") Json.null end)))

abbrev pub dml_doc : Json
dml_doc = Json.obj (
    field (text "count") (Json.uint 2) (
      field (text "attach_sql") (Json.str (text "ATTACH")) (
        field (text "lake_sql")
          (Json.arr (item (Json.str (text "DELETE")) (item (Json.str (text "INSERT")) nil))) end)))

unfoldable pub read : Text → Option Json
read s =
    if text_eq s (text "scan")
    then some scan_doc
    else if text_eq s (text "dml")
    then some dml_doc
    else none

abbrev pub yyjson : Yyjson
yyjson = record {
  read = read;
  write = λ doc. some (text "[{}]");
  obj_get = obj_get;
  get_str = get_str;
  get_sint = get_sint;
  is_null = is_null;
  elements = elements;
}

unfoldable pub to_upper : ℕ → ℕ
to_upper c = if leb b'a' c && leb c b'z' then c - 32 else c

unfoldable pub to_lower : ℕ → ℕ
to_lower c = if leb b'A' c && leb c b'Z' then c + 32 else c

unfoldable pub starts_with : Text → Text → Bool
starts_with s p = text_eq (take (length p) s) p

unfoldable pub ends_with : Text → Text → Bool
ends_with s p = text_eq (drop (length s - length p) s) p

unfoldable pub contains : Text → Text → Bool
unfolding starts_with
contains [] p = is_empty p
contains (c ∷ s) p = starts_with (c ∷ s) p || contains s p

abbrev pub string_util : StringUtil
string_util = record {
  upper = map to_upper;
  lower = map to_lower;
  starts_with = starts_with;
  ends_with = ends_with;
  contains = contains;
  ci_equals = λ s t. text_eq (map to_lower s) (map to_lower t);
}

-- The release of pin 13 fails.
unfoldable pub release : ℤ → Conn postgres → Reply (Unit {0}) × Conn postgres
release pin st = if int_eq pin (pos 13) then (failed (text "no such pin"), st) else (done tt, st)

abbrev pub platform : Platform
platform = record {
  State = Conn postgres;
  Conn = Unit;
  connect = λ dsn st. (done tt, st);
  conn_free = λ k st. st;
  list_tables = λ k st. (done (text "[]"), st);
  table_schema = λ k s t st. (failed (text "not registered"), st);
  acquire_read_scan = λ k s t st. (done (text "scan"), st);
  release_read_pin = λ k pin st. release pin st;
  txn_begin = λ k st. txn_begin st;
  txn_commit = λ k st. txn_commit st;
  txn_rollback = λ k st. txn_rollback st;
  insert_chunk = λ k s t rows st. (done (text "dml"), st);
  delete_chunk = λ k s t rows st. (done (text "dml"), st);
  update_chunk = λ k s t rows st. (done (text "dml"), st);
  Connection = Unit;
  QueryResult = Unit;
  open_connection = λ st. (tt, st);
  query = λ con sql st. (done tt, st);
  yyjson = yyjson;
  string_util = string_util;
  virtual_column_start = 1000;
  column_identifier_row_id = 2000;
}

-- A release leaves the flag alone.
pub release-in_txn : (pin : ℤ) (st : Conn postgres) → (release pin st).1.in_txn ≡ st.in_txn
unfolding release
release-in_txn pin st = ground arith

unfoldable pub runs : Runs platform postgres
unfolding release
runs = record {
  conn_of = λ k st. st;
  begins = λ k st. (refl, refl);
  commits = λ k st. (refl, refl);
  rolls_back = λ k st. (refl, refl);
  releases = λ k pin st. release-in_txn pin st;
}
