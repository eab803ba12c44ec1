-- ===== src/Safety.antt =====
-- Memory safety of the strings that cross the C ABI, for actions on any state that holds the world.
pub mod Methods
use tierdb_duckdb.Prelude.{
  ℕ, Text, ◌≡◌, refl, ◌∙◌, ◌≢◌, Bool, true, false, List, ◌⊎◌, inl, inr, if◌then◌else◌,
}
use tierdb_duckdb.Outcome.{
  Exception, Kind, Outcome, Exec, ok, throw, fault, pure, raise, continue, ◌>>=◌, try_catch,
}

-- The strings that Rust has allocated and nobody has freed.
abbrev pub Strings : Type 0
Strings = List (ℕ × Text)

module _ {S : Type 0} (live : S → Strings) where
  -- `m` never reads or frees a pointer that is null or not allocated, and when it ends, with a result or
  -- an exception, exactly the strings are allocated that were.
  pub record Safe {A : Type 0} (m : Exec S A) : Type 0 where
    pub no_fault : (s : S) → (m s).0 ≢ fault
    pub frees : (s : S) → live (m s).1 ≡ live s

  pub Safe-pure : {A : Type 0} (a : A) → Safe (pure a)
  Safe-pure a = record { no_fault = λ s h. cc; frees = λ s. refl }

  pub Safe-raise : {A : Type 0} (k : Kind) (t : Text) → Safe (raise {A = A} k t)
  Safe-raise k t = record { no_fault = λ s h. cc; frees = λ s. refl }

  -- An action without an effect on the strings.
  pub Safe-state :
      {A : Type 0} (a : S → A) (f : S → S)
      → ((s : S) → live (f s) ≡ live s)
      → Safe (λ s. (ok (a s), f s))
  Safe-state a f h = record { no_fault = λ s e. cc; frees = h }

  continue-no_fault :
      {A B : Type 0} (r : Outcome A) (f : A → Exec S B) (s : S)
      → r ≢ fault
      → ((a : A) → Safe (f a))
      → (continue r f s).0 ≢ fault
  continue-no_fault (ok a) f s h k = (k a).no_fault s
  continue-no_fault (throw e) f s h k = λ q. cc
  continue-no_fault fault f s h k = absurd (h refl)

  continue-frees :
      {A B : Type 0} (r : Outcome A) (f : A → Exec S B) (s : S)
      → ((a : A) → Safe (f a))
      → live (continue r f s).1 ≡ live s
  continue-frees (ok a) f s k = (k a).frees s
  continue-frees (throw e) f s k = refl
  continue-frees fault f s k = refl

  pub Safe-bind :
      {A B : Type 0} (m : Exec S A) (f : A → Exec S B)
      → Safe m
      → ((a : A) → Safe (f a))
      → Safe (m >>= f)
  Safe-bind m f h k = record {
    no_fault = λ s. continue-no_fault (m s).0 f (m s).1 (h.no_fault s) k;
    frees = λ s. continue-frees (m s).0 f (m s).1 k ∙ h.frees s;
  }
