-- ===== src/Outcome.antt =====
-- Exceptions and state: how a C++ call can end. What was written before a `throw` stays
-- written, so the state comes back beside the exception too. `fault` is undefined behaviour, such as
-- a read through a null or freed pointer.
use tierdb_duckdb.Prelude.{Text}

-- The exception classes that the extension throws; `foreign` is one that DuckDB's own code raises.
pub data Kind : Type 0 where
  io_exception binder_exception not_implemented_exception internal_exception foreign : Kind

pub record Exception : Type 0 where
  pub kind : Kind
  pub message : Text

pub data Outcome {ℓ} (A : Type ℓ) : Type ℓ where
  ok : A → Outcome A
  throw : Exception → Outcome A
  fault : Outcome A

abbrev pub Exec {ℓ} : Type ℓ → Type ℓ → Type ℓ
Exec S A = S → Outcome A × S

module _ {ℓ} {S A : Type ℓ} where
  abbrev pub pure : A → Exec S A
  pure a s = (ok a, s)

  abbrev pub raise : Kind → Text → Exec S A
  raise k m s = (throw (record { kind = k; message = m }), s)

  abbrev pub crash : Exec S A
  crash s = (fault, s)

  -- `try { … } catch (std::exception &ex) { … }`
  abbrev handle : Outcome A → (Exception → Exec S A) → Exec S A
  handle (ok a) h s = (ok a, s)
  handle (throw e) h s = h e s
  handle fault h s = (fault, s)

  abbrev pub try_catch : Exec S A → (Exception → Exec S A) → Exec S A
  try_catch m h s = let (r, s') = m s in handle r h s'

module _ {ℓ} {S A B : Type ℓ} where
  abbrev pub continue : Outcome A → (A → Exec S B) → Exec S B
  continue (ok a) f s = f a s
  continue (throw e) f s = (throw e, s)
  continue fault f s = (fault, s)

  infixl 5 ◌>>=◌ ◌>>◌
  abbrev pub ◌>>=◌ : Exec S A → (A → Exec S B) → Exec S B
  ◌>>=◌ m f s = let (r, s') = m s in continue r f s'

  abbrev pub ◌>>◌ : Exec S A → Exec S B → Exec S B
  m >> n = m >>= λ _. n
