-- ===== src/Rust.antt =====
-- Rust's `Result<_, String>` beside a state, for tierdb-core-ffi/src/write.rs: `?` returns the error, and what was done
-- before it stays done.
use tierdb_duckdb.Prelude.{Text, ◌++◌}
use tierdb_duckdb.Platform.{Reply, done, failed}

abbrev pub Fallible : Type 0 → Type 0 → Type 0
Fallible S A = S → Reply A × S

-- `.map_err(|e| format!("{what}{e}"))`
abbrev pub map_err : {A : Type 0} → Text → Reply A → Reply A
map_err what (done a) = done a
map_err what (failed e) = failed (what ++ e)

-- `?` between two results without a state.
abbrev pub chain : {A B : Type 0} → Reply A → (A → Reply B) → Reply B
chain (done a) f = f a
chain (failed e) f = failed e

module _ {S A : Type 0} where
  abbrev pub return : A → Fallible S A
  return a s = (done a, s)

  abbrev pub fail : Text → Fallible S A
  fail e s = (failed e, s)

  -- A `Result` that was computed without the state.
  abbrev pub lift : Reply A → Fallible S A
  lift r s = (r, s)

module _ {S A B : Type 0} where
  abbrev pub and_then : Reply A → (A → Fallible S B) → Fallible S B
  and_then (done a) f s = f a s
  and_then (failed e) f s = (failed e, s)

  infixl 5 ◌>>=◌ ◌>>◌
  abbrev pub ◌>>=◌ : Fallible S A → (A → Fallible S B) → Fallible S B
  ◌>>=◌ m f s = let (r, s') = m s in and_then r f s'

  abbrev pub ◌>>◌ : Fallible S A → Fallible S B → Fallible S B
  m >> n = m >>= λ _. n
