-- ===== src/Ffi.antt =====
-- src/include/tierdb/ffi.hpp and tierdb-core-ffi/src/abi.rs: the strings that cross the C ABI. Rust allocates
-- them, the extension reads them through a `char *` and must hand each back to `tierdb_free_string`.
-- `World` is all that the extension's methods act on: the state outside of it, the Rust strings that
-- are allocated, and, as a ghost that no code reads, the calls made so far.
pub mod Strings
pub mod Entry
use tierdb_duckdb.Prelude.{
  ℕ, zero, suc, ◌+◌, ℤ, Text, text, Bool, true, false, Option, none, some, List, [], ◌∷◌, ◌==◌,
  ◌||◌, if◌then◌else◌,
}
use tierdb_duckdb.Outcome.{Exec, Outcome, ok, pure, crash, ◌>>=◌}
use tierdb_duckdb.Platform.{Platform, Reply, done, failed}
use tierdb_duckdb.Ffi.Strings.{Heap, alloc, load, release}

-- The calls that leave the extension, in the words of ffi.hpp and of DuckDB's `Connection`.
pub data Call : Type 0 where
  list_tables txn_begin txn_commit txn_rollback open_connection : Call
  table_schema acquire_read_scan : Text → Text → Call
  release_read_pin : ℤ → Call
  insert_chunk delete_chunk update_chunk : Text → Text → Text → Call
  connect query : Text → Call

pub record World (x : Platform) : Type 0 where
  pub outside : x.State
  pub heap : Heap
  -- The latest call first.
  pub history : List Call

-- `char *` members: `none` is the null pointer.
pub record TierDbStringResult : Type 0 where
  pub err : Option ℕ
  pub value : Option ℕ

pub record TierDbStatus : Type 0 where
  pub err : Option ℕ

unfoldable pub has_nul : Text → Bool
has_nul [] = false
has_nul (c ∷ s) = c == 0 || has_nul s

unfoldable pub into_c_string : Text → Text
unfolding has_nul
into_c_string s = if has_nul s then text "tierdb: message contained a NUL byte" else s

-- What a callee sees of `s.c_str()`.
unfoldable pub c_str : Text → Text
c_str [] = []
c_str (c ∷ s) = if c == 0 then [] else c ∷ c_str s

module _ {x : Platform} where
  -- One call: the state outside changes, and the ghost history grows.
  unfoldable pub perform {ℓ} :
      {A : Type ℓ} → Call → (x.State → Reply A × x.State) → World x → Reply A × World x
  perform k f w =
      let (r, st) = f w.outside in (r, record w { outside = st; history = k ∷ w.history })

  -- `TierDBStringResult::ok` and `TierDBStringResult::err`
  unfoldable pub string_result : Reply Text → Exec (World x) TierDbStringResult
  string_result (done s) w =
      let (p, h) = alloc (into_c_string s) w.heap in
      (ok (record { err = none; value = some p }), record w { heap = h })
  string_result (failed s) w =
      let (p, h) = alloc (into_c_string s) w.heap in
      (ok (record { err = some p; value = none }), record w { heap = h })

  -- `TierDBStatus::ok` and `TierDBStatus::err`
  unfoldable pub status : Reply (Unit {0}) → Exec (World x) TierDbStatus
  status (done _) w = (ok (record { err = none }), w)
  status (failed s) w =
      let (p, h) = alloc (into_c_string s) w.heap in
      (ok (record { err = some p }), record w { heap = h })

  loaded : Option Text → Exec (World x) Text
  loaded none = crash
  loaded (some s) = pure s

  -- The C string behind a `char *`.
  unfoldable pub string_at : Option ℕ → Exec (World x) Text
  unfolding loaded
  string_at none w = crash w
  string_at (some p) w = loaded (load p w.heap) w

  released : Option Heap → Exec (World x) (Unit {0})
  released none w = crash w
  released (some h) w = (ok tt, record w { heap = h })

  -- `tierdb_free_string`: nothing for a null pointer, undefined for one that is not allocated.
  unfoldable pub tierdb_free_string : Option ℕ → Exec (World x) (Unit {0})
  unfolding released
  tierdb_free_string none w = pure tt w
  tierdb_free_string (some p) w = released (release p w.heap) w
