-- ===== src/Wire/Laws.antt =====
-- What src/storage/tierdb_client.cpp relies on in yyjson.
use tierdb_duckdb.Prelude.{ℕ, ◌^◌, ◌<◌, ℤ, pos, negsuc, Text, ◌≡◌, true, false, none, Option, some}
use tierdb_duckdb.Platform.{Yyjson, Json, Items, Fields, find_field, items}
use tierdb_duckdb.Ffi.{c_str}

-- An `i64`.
abbrev pub IsI64 : ℤ → Type 0
IsI64 (pos n) = n < 2 ^ 63
IsI64 (negsuc n) = n < 2 ^ 63

abbrev pub AllI64 : Option ℤ → Type 0
AllI64 none = Unit
AllI64 (some n) = IsI64 n

-- The accessors of yyjson. A string is read through a `const char *`.
pub record Accessors (y : Yyjson) : Type 0 where
  pub get : (fs : Fields) (key : Text) → y.obj_get (Json.obj fs) key ≡ find_field key fs
  pub string : (s : Text) → y.get_str (Json.str s) ≡ some (c_str s)
  pub no_string : y.get_str Json.null ≡ none
  pub unsigned : (n : ℕ) → n < 2 ^ 63 → y.get_sint (Json.uint n) ≡ pos n
  pub signed : (n : ℤ) → y.get_sint (Json.sint n) ≡ n
  pub null : y.is_null Json.null ≡ true
  pub unsigned_value : (n : ℕ) → y.is_null (Json.uint n) ≡ false
  pub signed_value : (n : ℤ) → y.is_null (Json.sint n) ≡ false
  pub each : (js : Items) → y.elements (Json.arr js) ≡ items js
